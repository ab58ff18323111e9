-- ===== src/App/SignIn/Feedback.antt =====
-- What the sign-in screen does with the answers of Firebase.
use between_us.Prelude.{
  ◌≡◌, ◌≢◌, sym, ap, true, ℕ, List, [], ◌∷◌, ◌++◌, none, some, All, arith, if◌then◌else◌, ◌==◌,
}
use Prim.Native.String.{String}
use mathlib.Core.List.{append-nil}
use between_us.App.Regex.{Text}
use between_us.App.Validation.{validate_email, validate_password}
use between_us.App.User.{User, Database, users_child, loaded_user}
use between_us.App.Auth.{
  sign_in_user, observe_user, branch_error, report_error, World, sign_in, sign_in_reply,
  user_loaded,
}
use between_us.App.Auth.Account.{save_all, loaded_user-signed_up, signed_up}
use between_us.App.SignIn.{
  SignIn, set_email, set_password, auth_completions, Event, edit_email, edit_password, tap_sign_in,
  signed_in, observed, step, run,
}
use between_us.App.SignIn.Consistent.{IsConsistent}

-- The codes of `AuthErrorCode` that the program knows, and what it tells the user.
abbrev pub known_errors : List (ℕ × String)
known_errors = (17007, "이미 있는 이메일입니다") ∷ (17011, "존재하지 않는 이메일입니다") ∷ (17009, "비밀번호가 일치하지 않습니다") ∷ []

unfoldable pub texts_of : ℕ → List (ℕ × String) → List String
texts_of code [] = []
texts_of code ((c, text) ∷ table) =
    let rest = texts_of code table in if c == code then text ∷ rest else rest

-- What is typed and tapped to sign in, and Firebase's acceptance.
abbrev pub accepted_events : Text → Text → Text → List Event
accepted_events email password id =
    edit_email (some email)
    ∷ edit_password (some password)
    ∷ tap_sign_in
    ∷ signed_in (record { result = some id; error = none })
    ∷ []

module _ (db : Database) where
  open db use {value}

  alerts-silent : (s : SignIn) → s ≡ record s { alerts = s.alerts ++ [] }
  alerts-silent s = ap (λ (t : List String). record s { alerts = t }) (sym (append-nil s.alerts))

  -- An error that Firebase reports for a sign-in without a user adds to the alerts exactly the texts that
  -- the table has for its code, and changes nothing else: a code that is not in the table leaves
  -- no trace, so the user is told nothing.
  pub signed_in-error :
      (s : SignIn) (w : World db) (code : ℕ)
      → step db (signed_in (record { result = none; error = some code })) (s, w)
        ≡ (record s { alerts = s.alerts ++ texts_of code known_errors }, w)
  unfolding step sign_in_reply branch_error report_error auth_completions texts_of
  signed_in-error s w code = ground (arith, alerts-silent s)

  -- The events from a screen to the main one.
  abbrev pub sign_in_events : Text → Text → Text → World db → List Event
  sign_in_events email password id w =
      accepted_events email password id ++ (observed (value (users_child id) w.store) ∷ [])

  presents :
      (s : SignIn) (w : World db) (user : User) (email password id : Text)
      → IsConsistent s
      → validate_email email ≡ true
      → validate_password password ≡ true
      → loaded_user (value (users_child id) w.store) ≡ some user
      → let (s', w') = run db (sign_in_events email password id w) (s, w) in
        (s'.tabbar_presented ≡ true)
        × (s'.alerts ≡ s.alerts)
        × (w'.user ≡ some user)
        × (w'.calls ≡ (w.calls ++ (sign_in_user email password ∷ [])) ++ (observe_user id ∷ []))
        × (w'.store ≡ w.store)
  unfolding run step set_email set_password auth_completions sign_in_reply report_error user_loaded
      sign_in
  presents s w user email password id h ve vp loaded = ground (arith, ve, vp, loaded)

  -- A user who has signed up under an id, whatever other users are saved afterwards, signs in on a screen that
  -- agrees with its fields by typing a valid email and a valid password and tapping the button: when
  -- Firebase accepts under that id and answers with the saved entry, the main screen is presented with
  -- no alert, the current user is the one of the sign-up, and Firebase was asked for that sign-in
  -- and that entry; nothing was written.
  pub run-signs_in :
      (s : SignIn) (w v : World db) (user : User) (others : List User) (email password id : Text)
      → IsConsistent s
      → validate_email email ≡ true
      → validate_password password ≡ true
      → All (λ u. u.id ≢ id) others
      → v.store ≡ save_all db others (signed_up db user id w).store
      → let (s', v') = run db (sign_in_events email password id v) (s, v) in
        (s'.tabbar_presented ≡ true)
        × (s'.alerts ≡ s.alerts)
        × (v'.user ≡ some (record user { id = id; content = none }))
        × (v'.calls ≡ (v.calls ++ (sign_in_user email password ∷ [])) ++ (observe_user id ∷ []))
        × (v'.store ≡ v.store)
  run-signs_in s w v user others email password id h ve vp apart same =
      let saved = loaded_user-signed_up db user id w v others apart same in
      presents s v (record user { id = id; content = none }) email password id h ve vp saved
