-- ===== src/App/SignUp/Edits.antt =====
-- What an edit does to a button that an earlier edit has enabled: the check of the second password, and the
-- second screen when it is opened again.
use between_us.Prelude.{
  ◌≡◌, Bool, true, false, ◌&&◌, ◌||◌, [], ◌∷◌, ◌++◌, Option, none, some, arith,
}
use between_us.App.Regex.{Text}
use between_us.App.Validation.{validate_email, validate_password}
use between_us.App.User.{User, Database}
use between_us.App.Auth.{World}
use between_us.App.SignUp.{SignUp, set_email, set_password, set_check_password, is_empty, not_empty}
use between_us.App.SignUp.Events.{
  push_information, edit_email, edit_password, edit_check_password, tap_user_info, edit_name,
  tap_done, tap_sign_up, step, run,
}
use between_us.App.SignUp.Consistent.{IsConsistent}
use between_us.App.SignUp.Account.{
  IsOnTop, IsReady, fill_in, inform, submit, IsSignedUp, run-finishes,
}

unfoldable pub can_sign_up : SignUp → Bool
can_sign_up s = elim s.information [ none ↦ false | some screen ↦ screen.sign_up_enabled ]

unfoldable pub date_shown : SignUp → Option Text
date_shown s = elim s.information [ none ↦ none | some screen ↦ some (screen.birthday_text) ]

module _ (same_text : Text → Text → Bool) (db : Database) where
  -- On a first screen that agrees with its fields, each edit enables the button from the tests of the other
  -- two fields and its own: the edit of the second password compares it with the password, and an edit
  -- of the password keeps the outcome of the last comparison.
  pub user_info_enabled-edits :
      (s : SignUp) (w : World db) (text : Text)
      → IsConsistent s
      → IsOnTop s
      → let v = s.view_model in
        ((step same_text db (edit_email (some text)) (s, w)).0.user_info_enabled
          ≡ (validate_email text && validate_password v.password && v.check_password_valid))
        × ((step same_text db (edit_password (some text)) (s, w)).0.user_info_enabled
            ≡ (validate_email v.email && validate_password text && v.check_password_valid))
        × ((step same_text db (edit_check_password (some text)) (s, w)).0.user_info_enabled
            ≡ (validate_email v.email && validate_password v.password && same_text v.password text))
  unfolding step set_email set_password set_check_password
  user_info_enabled-edits s w text h top = ground (arith, top)

  changed-IsReady :
      (s : SignUp) (w : World db) (email p q check : Text)
      → IsConsistent s
      → IsOnTop s
      → validate_email email ≡ true
      → validate_password q ≡ true
      → same_text p check ≡ true
      → let (s', w') =
          run same_text db (fill_in email p check ++ (edit_password (some q) ∷ [])) (s, w) in
        IsReady same_text db email q s' × (w' ≡ w) × (s'.pending ≡ s.pending)
  unfolding run set_email set_password set_check_password
  changed-IsReady s w email p q check h top ve vq same = ground (arith, top, ve, vq, same)

  -- The second screen is opened with three texts that are there from before. Its date field shows the
  -- day of the opening, while the birthday that is kept is the one from before; the button of its date
  -- picker makes that day the birthday. Its own button is disabled though nothing is missing, so a tap
  -- does nothing, and it is enabled when the field of the name next sends a text that is not empty.
  pub reopened-disabled :
      (s : SignUp) (w : World db) (today name : Text)
      → IsOnTop s
      → s.user_info_enabled ≡ true
      → not_empty s ≡ true
      → is_empty name ≡ false
      → let opened = step same_text db (tap_user_info today) (s, w) in
        let edited = step same_text db (edit_name (some name)) opened in
        let done = step same_text db tap_done opened in
        (date_shown opened.0 ≡ some today)
        × (opened.0.birth_day ≡ s.birth_day)
        × (done.0.birth_day ≡ today)
        × (not_empty opened.0 ≡ true)
        × (can_sign_up opened.0 ≡ false)
        × (step same_text db tap_sign_up opened ≡ opened)
        × (can_sign_up edited.0 ≡ true)
  unfolding step push_information can_sign_up date_shown
  reopened-disabled s w today name top on full given = ground (arith, top, on, full, given)

  -- A password is checked, and is changed after that to a valid one that differs from the second password: the
  -- account is asked for with the changed password all the same, and the user is saved under the id that
  -- Firebase gives it.
  pub run-unchecked_password :
      (s : SignUp) (w : World db) (user : User) (p q check today id : Text)
      → IsConsistent s
      → IsOnTop s
      → s.pending ≡ []
      → validate_email user.email ≡ true
      → validate_password q ≡ true
      → same_text p check ≡ true
      → same_text q check ≡ false
      → (is_empty user.name || is_empty user.nick_name || is_empty user.birthday) ≡ false
      → IsSignedUp same_text db user q id w (
          run same_text db
            ((fill_in user.email p check ++ (edit_password (some q) ∷ []))
              ++ (inform today user.name user.nick_name user.birthday ++ submit id))
            (s, w))
  run-unchecked_password s w user p q check today id h top idle ve vq same differ full =
      let first = fill_in user.email p check ++ (edit_password (some q) ∷ []) in
      run-finishes same_text db first s w user q today id
        (changed-IsReady s w user.email p q check h top ve vq same) idle full
