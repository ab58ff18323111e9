-- ===== src/App/SignIn.antt =====
-- The sign-in screen: BetweenUS/BetweenUS/ViewController/Rogin/SignIn. `SignInViewModel`, and the
-- subscriptions of `SignInViewController`.
pub mod Consistent
pub mod Feedback
use Prim.Native.String.{String}
use between_us.Prelude.{Bool, true, false, List, [], ◌∷◌, ◌++◌, Option, none, some, if◌then◌else◌}
use mathlib.Core.Option.{get_or}
use between_us.App.Regex.{Text}
use between_us.App.Validation.{validate_email, validate_password}
use between_us.App.User.{Snapshot, Database}
use between_us.App.Auth.{
  AuthResult, success, failure, Reply, World, sign_in, sign_in_reply, user_loaded,
}
use between_us.App.Login.{LoginViewModel, new_login, LabelText, message, label_text, both_latest}

-- `email_bound` and `password_bound` are whether the label is subscribed to its subject.
pub record SignIn : Type 0 where
  pub view_model : LoginViewModel
  pub latest_email : Option Bool
  pub latest_password : Option Bool
  pub sign_in_enabled : Bool
  pub email_bound : Bool
  pub password_bound : Bool
  pub email_label : LabelText
  pub password_label : LabelText
  pub alerts : List String
  pub tabbar_presented : Bool

abbrev pub new_screen : SignIn
new_screen = record {
  view_model = new_login;
  latest_email = none;
  latest_password = none;
  sign_in_enabled = false;
  email_bound = false;
  password_bound = false;
  email_label = message;
  password_label = message;
  alerts = [];
  tabbar_presented = false;
}

-- `isValidSignIn().sink`
unfoldable pub emit_valid : SignIn → SignIn
unfolding both_latest
emit_valid s = record s {
  sign_in_enabled = get_or (both_latest s.latest_email s.latest_password) s.sign_in_enabled;
}

-- The `map` of `emailValid`: it sends to the subject, whose label follows, and answers.
unfoldable pub send_email_valid : Bool → SignIn → SignIn
send_email_valid valid s = record s {
  view_model = record (s.view_model) { email_valid = valid };
  email_label = if s.email_bound then label_text valid else s.email_label;
}

unfoldable pub publish_email : Text → SignIn → SignIn
unfolding emit_valid send_email_valid
publish_email text s =
    let valid = validate_email text in
    emit_valid (record (send_email_valid valid s) { latest_email = some valid })

unfoldable pub send_password_valid : Bool → SignIn → SignIn
send_password_valid valid s = record s {
  view_model = record (s.view_model) { password_valid = valid };
  password_label = if s.password_bound then label_text valid else s.password_label;
}

unfoldable pub publish_password : Text → SignIn → SignIn
unfolding emit_valid send_password_valid
publish_password text s =
    let valid = validate_password text in
    emit_valid (record (send_password_valid valid s) { latest_password = some valid })

-- A property that is `@Published` sends its new value before it is stored.
unfoldable pub set_email : Text → SignIn → SignIn
unfolding publish_email
set_email text s =
    let s' = publish_email text s in
    record s' { view_model = record (s'.view_model) { email = text } }

unfoldable pub set_password : Text → SignIn → SignIn
unfolding publish_password
set_password text s =
    let s' = publish_password text s in
    record s' { view_model = record (s'.view_model) { password = text } }

-- A subscription gets the current value first.
unfoldable pub binding_view_model : SignIn → SignIn
unfolding publish_email publish_password
binding_view_model s =
    let s1 = publish_password s.view_model.password (publish_email s.view_model.email s) in
    let s2 : SignIn = record s1 {
      email_bound = true;
      email_label = label_text s1.view_model.email_valid;
    } in
    record s2 { password_bound = true; password_label = label_text s2.view_model.password_valid }

-- A text field sends its text, which is empty at first.
unfoldable pub binding_view_properties : SignIn → SignIn
unfolding set_email set_password
binding_view_properties s = set_password [] (set_email [] s)

unfoldable pub view_did_load : SignIn → SignIn
unfolding binding_view_model binding_view_properties
view_did_load s = binding_view_properties (binding_view_model s)

-- `authCompletion`, with the sinks of the two subjects.
unfoldable pub auth_completion : AuthResult → SignIn → SignIn
auth_completion success s = record s { tabbar_presented = true }
auth_completion (failure e) s = record s { alerts = s.alerts ++ (e.message ∷ []) }

unfoldable pub auth_completions : List AuthResult → SignIn → SignIn
unfolding auth_completion
auth_completions [] s = s
auth_completions (r ∷ rs) s = auth_completions rs (auth_completion r s)

-- What happens to the screen: a field sends its text (which may be `nil`), the button is tapped, Firebase
-- answers a sign-in, or it answers `loadUser`.
pub data Event : Type 0 where
  edit_email : Option Text → Event
  edit_password : Option Text → Event
  tap_sign_in : Event
  signed_in : Reply → Event
  observed : Snapshot → Event

module _ (db : Database) where
  abbrev pub State : Type 0
  State = SignIn × World db

  -- A button that is disabled is not tapped.
  unfoldable pub step : Event → State → State
  unfolding set_email set_password auth_completions
  step (edit_email none) (s, w) = (s, w)
  step (edit_email (some text)) (s, w) = (set_email text s, w)
  step (edit_password none) (s, w) = (s, w)
  step (edit_password (some text)) (s, w) = (set_password text s, w)
  step tap_sign_in (s, w) =
      if s.sign_in_enabled
      then (s, sign_in db s.view_model.email s.view_model.password w)
      else (s, w)
  step (signed_in reply) (s, w) =
      let (w', told) = sign_in_reply db reply w in (auth_completions told s, w')
  step (observed snapshot) (s, w) =
      let (w', told) = user_loaded db snapshot w in (auth_completions told s, w')

  unfoldable pub run : List Event → State → State
  run [] st = st
  run (e ∷ es) st = run es (step e st)
