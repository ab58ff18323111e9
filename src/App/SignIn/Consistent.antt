-- ===== src/App/SignIn/Consistent.antt =====
-- The sign-in screen agrees with its fields, and asks Firebase with valid credentials only.
use between_us.Prelude.{
  ◌≡◌, refl, sym, ◌∙◌, true, ◌&&◌, List, [], ◌∷◌, none, some, All, arith, All-snoc, if_intro,
  and_true,
}
use mathlib.Core.Option.{get_or}
use between_us.App.Regex.{Text}
use between_us.App.Validation.{validate_email, validate_password}
use between_us.App.User.{Database, Snapshot}
use between_us.App.Auth.{
  AuthResult, sign_in_user, observe_user, Reply, World, sign_in, sign_in_reply, user_loaded,
}
use between_us.App.Auth.Valid.{IsValidCall}
use between_us.App.Login.{label_text}
use between_us.App.SignIn.{
  SignIn, new_screen, set_email, set_password, view_did_load, auth_completion, auth_completions,
  Event, edit_email, edit_password, tap_sign_in, signed_in, observed, State, step, run,
}

-- What the screen shows is what its fields call for.
pub record IsConsistent (s : SignIn) : Type 0 where
  pub bound : (s.email_bound ≡ true) × (s.password_bound ≡ true)
  pub latest_email : s.latest_email ≡ some (validate_email s.view_model.email)
  pub latest_password : s.latest_password ≡ some (validate_password s.view_model.password)
  pub enabled :
      s.sign_in_enabled
      ≡ (validate_email s.view_model.email && validate_password s.view_model.password)
  pub email_label : s.email_label ≡ label_text (validate_email s.view_model.email)
  pub password_label : s.password_label ≡ label_text (validate_password s.view_model.password)

pub view_did_load-IsConsistent : IsConsistent (view_did_load new_screen)
unfolding view_did_load
view_did_load-IsConsistent = record {
  bound = (refl, refl);
  latest_email = refl;
  latest_password = refl;
  enabled = refl;
  email_label = refl;
  password_label = refl;
}

set_email-IsConsistent :
    (text : Text) (s : SignIn) → IsConsistent s → IsConsistent (set_email text s)
unfolding set_email
set_email-IsConsistent text s h = ground arith

set_password-IsConsistent :
    (text : Text) (s : SignIn) → IsConsistent s → IsConsistent (set_password text s)
unfolding set_password
set_password-IsConsistent text s h = ground arith

auth_completion-IsConsistent :
    (r : AuthResult) (s : SignIn) → IsConsistent s → IsConsistent (auth_completion r s)
unfolding auth_completion
auth_completion-IsConsistent r s h = ground arith

auth_completions-IsConsistent :
    (rs : List AuthResult) (s : SignIn) → IsConsistent s → IsConsistent (auth_completions rs s)
unfolding auth_completions
auth_completions-IsConsistent [] s h = h
auth_completions-IsConsistent (r ∷ rs) s h =
    auth_completions-IsConsistent rs (auth_completion r s) (auth_completion-IsConsistent r s h)

module _ (db : Database) where
  -- The screen is consistent, and the calls so far are valid.
  abbrev pub IsSound : State db → Type 0
  IsSound (s, w) = IsConsistent s × All IsValidCall w.calls

  sign_in_reply-valid :
      (reply : Reply) (w : World db)
      → All IsValidCall w.calls
      → All IsValidCall (sign_in_reply db reply w).0.calls
  unfolding sign_in_reply
  sign_in_reply-valid reply w h =
      let asked = All-snoc IsValidCall w.calls (observe_user (get_or reply.result [])) h tt in
      ground (arith, h, asked)

  tap-IsSound : (s : SignIn) (w : World db) → IsSound (s, w) → IsSound (step db tap_sign_in (s, w))
  unfolding step sign_in
  tap-IsSound s w h =
      let call = sign_in_user s.view_model.email s.view_model.password in
      if_intro IsSound s.sign_in_enabled
        (λ on. (h.0, All-snoc IsValidCall w.calls call h.1 (and_true _ _ (sym h.0.enabled ∙ on))))
        λ off. h

  user_loaded-valid :
      (snapshot : Snapshot) (w : World db) → (user_loaded db snapshot w).0.calls ≡ w.calls
  unfolding user_loaded
  user_loaded-valid snapshot w = ground arith

  pub step-IsSound : (e : Event) (st : State db) → IsSound st → IsSound (step db e st)
  unfolding step
  step-IsSound (edit_email none) (s, w) h = h
  step-IsSound (edit_email (some text)) (s, w) h = (set_email-IsConsistent text s h.0, h.1)
  step-IsSound (edit_password none) (s, w) h = h
  step-IsSound (edit_password (some text)) (s, w) h = (set_password-IsConsistent text s h.0, h.1)
  step-IsSound tap_sign_in (s, w) h = tap-IsSound s w h
  step-IsSound (signed_in reply) (s, w) h = (
    auth_completions-IsConsistent (sign_in_reply db reply w).1 s h.0,
    sign_in_reply-valid reply w h.1,
  )
  step-IsSound (observed snapshot) (s, w) h = (
    auth_completions-IsConsistent (user_loaded db snapshot w).1 s h.0,
    rw (user_loaded-valid snapshot w) h.1,
  )

  run-IsSound : (es : List Event) (st : State db) → IsSound st → IsSound (run db es st)
  unfolding run
  run-IsSound [] st h = h
  run-IsSound (e ∷ es) st h = run-IsSound es (step db e st) (step-IsSound e st h)

  -- From the moment the screen has loaded, whatever is typed, tapped and answered in whatever order: the
  -- button is enabled exactly when the email and the password are valid, each label shows its message
  -- exactly when its field is not, and every sign-in and sign-up asked of Firebase so far had a valid email
  -- and a valid password, if the ones before had.
  pub run-sign_in_agrees :
      (es : List Event) (w : World db)
      → All IsValidCall w.calls
      → let (s, v) = run db es (view_did_load new_screen, w) in
        (s.sign_in_enabled
          ≡ (validate_email s.view_model.email && validate_password s.view_model.password))
        × (s.email_label ≡ label_text (validate_email s.view_model.email))
        × (s.password_label ≡ label_text (validate_password s.view_model.password))
        × All IsValidCall v.calls
  run-sign_in_agrees es w h =
      let (s, calls) =
        run-IsSound es (view_did_load new_screen, w) (view_did_load-IsConsistent, h) in
      (s.enabled, s.email_label, s.password_label, calls)
