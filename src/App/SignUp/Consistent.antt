-- ===== src/App/SignUp/Consistent.antt =====
-- The sign-up screens agree with their fields.
use between_us.Prelude.{
  ◌≡◌, refl, Bool, true, ◌&&◌, ◌||◌, not, List, [], ◌∷◌, Option, none, some, arith, if_intro,
}
use between_us.App.Regex.{Text}
use between_us.App.Validation.{validate_email, validate_password}
use between_us.App.Auth.{AuthResult}
use between_us.App.Login.{label_text}
use between_us.App.SignUp.{
  Information, SignUp, new_screen, set_email, set_password, set_check_password, view_did_load,
  not_empty, set_name, set_nick_name, set_birth_day,
}
use between_us.App.SignUp.Events.{
  push_information, select_date, done_select_date, auth_completion, auth_completions,
}

-- The pushed screen stands on valid credentials, is subscribed, and lets the user sign up only with all
-- three texts.
unfoldable pub is_backed : SignUp → Option Information → Bool
is_backed s none = true
is_backed s (some screen) =
    screen.bound && (s.user_info_enabled && (not screen.sign_up_enabled || not_empty s))

-- What the screens show is what their fields call for.
pub record IsConsistent (s : SignUp) : Type 0 where
  pub bound : s.labels_bound ≡ true
  pub latest_email : s.latest_email ≡ some (validate_email s.view_model.email)
  pub latest_password : s.latest_password ≡ some (validate_password s.view_model.password)
  pub latest_check : s.latest_check ≡ some s.view_model.check_password_valid
  pub enabled : s.user_info_enabled ≡ (
      validate_email s.view_model.email
      && validate_password s.view_model.password
      && s.view_model.check_password_valid)
  pub email_label : s.email_label ≡ label_text (validate_email s.view_model.email)
  pub password_label : s.password_label ≡ label_text (validate_password s.view_model.password)
  pub check_label : s.check_password_label ≡ label_text s.view_model.check_password_valid
  pub backed : is_backed s s.information ≡ true

module _ (same_text : Text → Text → Bool) where
  pub view_did_load-IsConsistent : IsConsistent (view_did_load same_text new_screen)
  unfolding view_did_load is_backed
  view_did_load-IsConsistent = record {
    bound = refl;
    latest_email = refl;
    latest_password = refl;
    latest_check = refl;
    enabled = refl;
    email_label = refl;
    password_label = refl;
    check_label = refl;
    backed = refl;
  }

  pub set_check_password-IsConsistent :
      (text : Text) (s : SignUp)
      → s.information ≡ none
      → IsConsistent s
      → IsConsistent (set_check_password same_text text s)
  unfolding set_check_password is_backed
  set_check_password-IsConsistent text s top h = ground (arith, top)

pub set_email-IsConsistent :
    (text : Text) (s : SignUp)
    → s.information ≡ none
    → IsConsistent s
    → IsConsistent (set_email text s)
unfolding set_email is_backed
set_email-IsConsistent text s top h = ground (arith, top)

pub set_password-IsConsistent :
    (text : Text) (s : SignUp)
    → s.information ≡ none
    → IsConsistent s
    → IsConsistent (set_password text s)
unfolding set_password is_backed
set_password-IsConsistent text s top h = ground (arith, top)

pub push_information-IsConsistent :
    (today : Text) (s : SignUp)
    → s.user_info_enabled ≡ true
    → IsConsistent s
    → IsConsistent (push_information today s)
unfolding push_information is_backed
push_information-IsConsistent today s on h = ground (arith, on)

pub set_name-IsConsistent :
    (text : Text) (s : SignUp) → IsConsistent s → IsConsistent (set_name text s)
unfolding set_name is_backed
set_name-IsConsistent text s h = ground arith

pub set_nick_name-IsConsistent :
    (text : Text) (s : SignUp) → IsConsistent s → IsConsistent (set_nick_name text s)
unfolding set_nick_name is_backed
set_nick_name-IsConsistent text s h = ground arith

pub set_birth_day-IsConsistent :
    (text : Text) (s : SignUp) → IsConsistent s → IsConsistent (set_birth_day text s)
unfolding set_birth_day is_backed
set_birth_day-IsConsistent text s h = ground arith

pub select_date-IsConsistent :
    (text : Text) (s : SignUp) → IsConsistent s → IsConsistent (select_date text s)
unfolding select_date is_backed
select_date-IsConsistent text s h = ground arith

pub done_select_date-IsConsistent :
    (s : SignUp) → IsConsistent s → IsConsistent (done_select_date s)
unfolding done_select_date is_backed
done_select_date-IsConsistent s h = ground arith

auth_completion-IsConsistent :
    (r : AuthResult) (s : SignUp) → IsConsistent s → IsConsistent (auth_completion r s)
unfolding auth_completion is_backed
auth_completion-IsConsistent r s h = ground arith

pub auth_completions-IsConsistent :
    (rs : List AuthResult) (s : SignUp) → IsConsistent s → IsConsistent (auth_completions rs s)
unfolding auth_completions
auth_completions-IsConsistent [] s h = h
auth_completions-IsConsistent (r ∷ rs) s h =
    if_intro IsConsistent s.dismissed (λ gone. h)
      λ here.
        auth_completions-IsConsistent rs (auth_completion r s) (auth_completion-IsConsistent r s h)
