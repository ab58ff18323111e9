-- ===== src/App/SignUp.antt =====
-- The sign-up screens: BetweenUS/BetweenUS/ViewController/Rogin/SignUp. `SignUpViewModel`, the
-- subscriptions of `SignUpViewController`, and those of `SignUpUserInformationViewController`, which it
-- pushes.
pub mod Events
pub mod Consistent
pub mod Requests
pub mod Account
pub mod Edits
use Prim.Native.String.{String}
use between_us.Prelude.{
  Bool, true, false, List, [], ◌∷◌, ◌++◌, Option, none, some, ◌&&◌, ◌||◌, not, if◌then◌else◌,
}
use mathlib.Core.Option.{get_or}
use between_us.App.Regex.{Text}
use between_us.App.Validation.{validate_email, validate_password}
use between_us.App.User.{User}
use between_us.App.Auth.{AuthResult, success, failure}
use between_us.App.Login.{LoginViewModel, new_login, LabelText, message, label_text, all_latest}

-- The pushed screen: the text of its date field, whether its button is enabled, and whether it is
-- subscribed to `notEmptyAllTextFieldSubject` (and the two subjects behind it).
pub record Information : Type 0 where
  pub birthday_text : Text
  pub sign_up_enabled : Bool
  pub bound : Bool

-- `pending` holds the users of the sign-ups that Firebase has not answered.
pub record SignUp : Type 0 where
  pub view_model : LoginViewModel
  pub name : Text
  pub nick_name : Text
  pub birth_day : Text
  pub latest_email : Option Bool
  pub latest_password : Option Bool
  pub latest_check : Option Bool
  pub user_info_enabled : Bool
  pub labels_bound : Bool
  pub email_label : LabelText
  pub password_label : LabelText
  pub check_password_label : LabelText
  pub information : Option Information
  pub pending : List User
  pub alerts : List String
  pub dismissed : Bool

abbrev pub new_screen : SignUp
new_screen = record {
  view_model = new_login;
  name = [];
  nick_name = [];
  birth_day = [];
  latest_email = none;
  latest_password = none;
  latest_check = none;
  user_info_enabled = false;
  labels_bound = false;
  email_label = message;
  password_label = message;
  check_password_label = message;
  information = none;
  pending = [];
  alerts = [];
  dismissed = false;
}

-- `isValidSignUp().sink`
unfoldable pub emit_valid : SignUp → SignUp
unfolding all_latest
emit_valid s =
    let valid = all_latest s.latest_email s.latest_password s.latest_check in
    record s { user_info_enabled = get_or valid s.user_info_enabled }

-- What `emailValid`, `passwordValid` and `checkPasswordValid` do with a text that is published: they send to
-- a subject, whose label follows, and answer.
unfoldable pub publish_email : Text → SignUp → SignUp
unfolding emit_valid
publish_email text s =
    let valid = validate_email text in
    emit_valid (record s {
      view_model = record (s.view_model) { email_valid = valid };
      email_label = if s.labels_bound then label_text valid else s.email_label;
      latest_email = some valid;
    })

unfoldable pub publish_password : Text → SignUp → SignUp
unfolding emit_valid
publish_password text s =
    let valid = validate_password text in
    emit_valid (record s {
      view_model = record (s.view_model) { password_valid = valid };
      password_label = if s.labels_bound then label_text valid else s.password_label;
      latest_password = some valid;
    })

-- Sent before the new value is stored, as each `@Published` property is.
unfoldable pub set_email : Text → SignUp → SignUp
unfolding publish_email
set_email text s =
    let s' = publish_email text s in
    record s' { view_model = record (s'.view_model) { email = text } }

unfoldable pub set_password : Text → SignUp → SignUp
unfolding publish_password
set_password text s =
    let s' = publish_password text s in
    record s' { view_model = record (s'.view_model) { password = text } }

-- `==` of Swift's `String` compares up to canonical equivalence: a parameter.
module _ (same_text : Text → Text → Bool) where
  unfoldable pub publish_check_password : Text → SignUp → SignUp
  unfolding emit_valid
  publish_check_password text s =
      let valid = same_text s.view_model.password text in
      emit_valid (record s {
        view_model = record (s.view_model) { check_password_valid = valid };
        check_password_label = if s.labels_bound then label_text valid else s.check_password_label;
        latest_check = some valid;
      })

  unfoldable pub set_check_password : Text → SignUp → SignUp
  unfolding publish_check_password
  set_check_password text s =
      let s' = publish_check_password text s in
      record s' { view_model = record (s'.view_model) { check_password = text } }

  -- A subscription gets the current value first. The three labels are subscribed one behind the other,
  -- and nothing is sent in between.
  unfoldable pub binding_view_model : SignUp → SignUp
  unfolding publish_email publish_password publish_check_password
  binding_view_model s =
      let s' =
        publish_check_password s.view_model.check_password
          (publish_password s.view_model.password (publish_email s.view_model.email s)) in
      record s' {
        labels_bound = true;
        email_label = label_text s'.view_model.email_valid;
        password_label = label_text s'.view_model.password_valid;
        check_password_label = label_text s'.view_model.check_password_valid;
      }

  -- A text field sends its text, which is empty at first.
  unfoldable pub binding_view_properties : SignUp → SignUp
  unfolding set_email set_password set_check_password
  binding_view_properties s = set_check_password [] (set_password [] (set_email [] s))

  unfoldable pub view_did_load : SignUp → SignUp
  unfolding binding_view_model binding_view_properties
  view_did_load s = binding_view_properties (binding_view_model s)

abbrev pub is_empty : Text → Bool
is_empty [] = true
is_empty (c ∷ cs) = false

abbrev pub not_empty : SignUp → Bool
not_empty s = not (is_empty s.name || is_empty s.nick_name || is_empty s.birth_day)

-- `notEmptyAllTextField`, with the sink of its subject; who is not subscribed misses it.
unfoldable pub not_empty_all_text_field : SignUp → SignUp
not_empty_all_text_field s = elim s.information [
  | none ↦ s
  | some screen ↦
      if screen.bound
      then record s { information = some (record screen { sign_up_enabled = not_empty s }) }
      else s
]

unfoldable pub set_name : Text → SignUp → SignUp
unfolding not_empty_all_text_field
set_name text s = not_empty_all_text_field (record s { name = text })

unfoldable pub set_nick_name : Text → SignUp → SignUp
unfolding not_empty_all_text_field
set_nick_name text s = not_empty_all_text_field (record s { nick_name = text })

unfoldable pub set_birth_day : Text → SignUp → SignUp
unfolding not_empty_all_text_field
set_birth_day text s = not_empty_all_text_field (record s { birth_day = text })
