-- ===== src/App/SignUp/Account.antt =====
-- From the first screen to an account: the sign-up that goes through, the check of the second password, and
-- the second screen when it is opened again.
use between_us.Prelude.{
  ◌≡◌, refl, ◌∙◌, Bool, true, false, ◌||◌, zero, List, [], ◌∷◌, ◌++◌, none, some, arith,
}
use between_us.App.Regex.{Text}
use between_us.App.Validation.{validate_email, validate_password}
use between_us.App.User.{User, Database, save_new_user}
use between_us.App.Auth.{create_user, sign_out, World, sign_up, sign_up_reply}
use between_us.App.SignUp.{SignUp, set_email, set_password, set_check_password, is_empty}
use between_us.App.SignUp.Events.{
  push_information, Event, edit_email, edit_password, edit_check_password, tap_user_info, edit_name,
  edit_nick_name, pick_date, tap_done, tap_sign_up, answered, State, step, run, entered_user,
}
use between_us.App.SignUp.Consistent.{IsConsistent}

-- The first screen is on top.
pub record IsOnTop (s : SignUp) : Type 0 where
  pub alone : s.information ≡ none
  pub present : s.dismissed ≡ false

-- The first screen filled in, the second one opened and filled in.
abbrev pub fill_in : Text → Text → Text → List Event
fill_in email password check =
    edit_email (some email) ∷ edit_password (some password) ∷ edit_check_password (some check) ∷ []

abbrev pub inform : Text → Text → Text → Text → List Event
inform today name nick_name birthday =
    tap_user_info today
    ∷ edit_name (some name)
    ∷ edit_nick_name (some nick_name)
    ∷ pick_date birthday
    ∷ tap_done
    ∷ []

-- The sign-up, which Firebase accepts under an id.
abbrev pub submit : Text → List Event
submit id = tap_sign_up ∷ answered zero (record { result = some id; error = none }) ∷ []

module _ (same_text : Text → Text → Bool) (db : Database) where
  -- The first screen is on top, and its button can be tapped.
  pub record IsReady (email password : Text) (s : SignUp) : Type 0 where
    pub top : IsOnTop s
    pub enabled : s.user_info_enabled ≡ true
    pub email_is : s.view_model.email ≡ email
    pub password_is : s.view_model.password ≡ password

  fill_in-IsReady :
      (s : SignUp) (w : World db) (email password check : Text)
      → IsConsistent s
      → IsOnTop s
      → validate_email email ≡ true
      → validate_password password ≡ true
      → same_text password check ≡ true
      → let (s', w') = run same_text db (fill_in email password check) (s, w) in
        IsReady email password s' × (w' ≡ w) × (s'.pending ≡ s.pending)
  unfolding run set_email set_password set_check_password
  fill_in-IsReady s w email password check h top ve vp same = ground (arith, top, ve, vp, same)

  pub record IsEntered (user : User) (password : Text) (s : SignUp) : Type 0 where
    pub present : s.dismissed ≡ false
    pub email_is : s.view_model.email ≡ user.email
    pub password_is : s.view_model.password ≡ password
    pub name_is : s.name ≡ user.name
    pub nick_name_is : s.nick_name ≡ user.nick_name
    pub birthday_is : s.birth_day ≡ user.birthday
    pub shown :
        s.information
        ≡ some (record { birthday_text = user.birthday; sign_up_enabled = true; bound = true })

  inform-IsEntered :
      (s : SignUp) (w : World db) (user : User) (password today : Text)
      → IsReady user.email password s
      → (is_empty user.name || is_empty user.nick_name || is_empty user.birthday) ≡ false
      → let (s', w') =
          run same_text db (inform today user.name user.nick_name user.birthday) (s, w) in
        IsEntered user password s' × (w' ≡ w) × (s'.pending ≡ s.pending)
  unfolding run push_information
  inform-IsEntered s w user password today h full = ground (arith, full)

  -- What the sign-up leaves when Firebase accepts it under an id.
  pub record IsSignedUp (user : User) (password id : Text) (w : World db) (st : State same_text db)
      : Type 0 where
    pub calls : st.1.calls ≡ (w.calls ++ (sign_out ∷ [])) ++ (create_user user.email password ∷ [])
    pub store : st.1.store ≡ save_new_user db (record user { id = id; content = none }) w.store
    pub dismissed : st.0.dismissed ≡ true
    pub pending : st.0.pending ≡ []

  submit-IsSignedUp :
      (s : SignUp) (w : World db) (user : User) (password id : Text)
      → IsEntered user password s
      → s.pending ≡ []
      → IsSignedUp user password id w (run same_text db (submit id) (s, w))
  unfolding run sign_up_reply sign_up entered_user
  submit-IsSignedUp s w user password id h idle = ground (arith, idle)

  IsSignedUp-from :
      (user : User) (password id : Text) {v w : World db} {st : State same_text db}
      → v ≡ w
      → IsSignedUp user password id v st
      → IsSignedUp user password id w st
  IsSignedUp-from user password id e h = rw⁻¹ e h

  run-append :
      (es fs : List Event) (st : State same_text db)
      → run same_text db (es ++ fs) st ≡ run same_text db fs (run same_text db es st)
  unfolding run
  run-append [] fs st = refl
  run-append (e ∷ es) fs st = run-append es fs (step same_text db e st)

  -- From a first screen that has got ready.
  pub run-finishes :
      (first : List Event) (s : SignUp) (w : World db) (user : User) (password today id : Text)
      → (let (s1, w1) = run same_text db first (s, w) in
          IsReady user.email password s1 × (w1 ≡ w) × (s1.pending ≡ s.pending))
      → s.pending ≡ []
      → (is_empty user.name || is_empty user.nick_name || is_empty user.birthday) ≡ false
      → IsSignedUp user password id w (
          run same_text db
            (first ++ (inform today user.name user.nick_name user.birthday ++ submit id))
            (s, w))
  run-finishes first s w user password today id (ready, w1_is, pending1) idle full =
      let second = inform today user.name user.nick_name user.birthday in
      let (s1, w1) = run same_text db first (s, w) in
      let (s2, w2) = run same_text db second (s1, w1) in
      let (entered, w2_is, pending2) = inform-IsEntered s1 w1 user password today ready full in
      let signed = submit-IsSignedUp s2 w2 user password id entered (pending2 ∙ pending1 ∙ idle) in
      let both =
        run-append first (second ++ submit id) (s, w) ∙ run-append second (submit id) (s1, w1) in
      rw both (IsSignedUp-from user password id (w2_is ∙ w1_is) signed)

  -- Both screens, filled in one after the other, on whatever day, from a first screen that agrees with its fields, with a
  -- valid email, a valid password, the same password again and three texts that are not empty: Firebase is
  -- asked, once and after a sign-out, for that account, and when it accepts under some id, the entered
  -- user is saved under that id, the screens are dismissed and nothing is left pending.
  pub run-signs_up :
      (s : SignUp) (w : World db) (user : User) (password check today id : Text)
      → IsConsistent s
      → IsOnTop s
      → s.pending ≡ []
      → validate_email user.email ≡ true
      → validate_password password ≡ true
      → same_text password check ≡ true
      → (is_empty user.name || is_empty user.nick_name || is_empty user.birthday) ≡ false
      → IsSignedUp user password id w (
          run same_text db
            (fill_in user.email password check
              ++ (inform today user.name user.nick_name user.birthday ++ submit id))
            (s, w))
  run-signs_up s w user password check today id h top idle ve vp same full =
      run-finishes (fill_in user.email password check) s w user password today id
        (fill_in-IsReady s w user.email password check h top ve vp same) idle full
