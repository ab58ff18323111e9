-- ===== src/App/Examples/Screens.antt =====
-- The theorems about the screens at concrete inputs.
use between_us.Prelude.{◌≡◌, refl, true, false, ◌&&◌, List, [], ◌∷◌, ◌++◌, none, some, All}
use between_us.App.Regex.{matches, accepts}
use between_us.App.Validation.{validate_email, validate_password}
use between_us.App.Auth.{sign_in_user, observe_user}
use between_us.App.Auth.Valid.{IsValidCall}
use between_us.App.Login.{label_text}
use between_us.App.Examples.{
  same_text, example_db, empty_world, email, password, changed_password, kim, other_user, kim_id,
  day, apart, signed_up_world, refused, email-valid, password-valid, changed_password-valid,
  passwords-differ, same_text_refl,
}
use between_us.App.SignIn
use between_us.App.SignIn.Consistent.{run-sign_in_agrees, view_did_load-IsConsistent}
use between_us.App.SignIn.Feedback.{
  signed_in-error, run-signs_in, sign_in_events, texts_of, known_errors,
}
use between_us.App.SignUp
use between_us.App.SignUp.Events
use between_us.App.SignUp.Consistent
use between_us.App.SignUp.Requests
use between_us.App.SignUp.Account.{IsOnTop, fill_in, inform, submit, IsSignedUp, run-signs_up}
use between_us.App.SignUp.Edits.{
  user_info_enabled-edits, reopened-disabled, can_sign_up, date_shown, run-unchecked_password,
}

abbrev sign_in_screen : SignIn.SignIn
sign_in_screen = SignIn.view_did_load SignIn.new_screen

abbrev typed : List SignIn.Event
typed =
    SignIn.edit_email (some email)
    ∷ SignIn.edit_password (some password)
    ∷ SignIn.tap_sign_in
    ∷ SignIn.signed_in refused
    ∷ []

run-sign_in_agrees_example :
    let (s, v) = SignIn.run example_db typed (sign_in_screen, empty_world) in
    (s.sign_in_enabled
      ≡ (validate_email s.view_model.email && validate_password s.view_model.password))
    × (s.email_label ≡ label_text (validate_email s.view_model.email))
    × (s.password_label ≡ label_text (validate_password s.view_model.password))
    × All IsValidCall v.calls
run-sign_in_agrees_example = run-sign_in_agrees example_db typed empty_world tt

signed_in-error_example :
    SignIn.step example_db
      (SignIn.signed_in (record { result = none; error = some 17009 }))
      (sign_in_screen, empty_world)
    ≡ (
      record sign_in_screen { alerts = sign_in_screen.alerts ++ texts_of 17009 known_errors },
      empty_world,
    )
signed_in-error_example = signed_in-error example_db sign_in_screen empty_world 17009

run-signs_in_example :
    let (s', v') =
      SignIn.run example_db
        (sign_in_events example_db email password kim_id signed_up_world)
        (sign_in_screen, signed_up_world) in
    (s'.tabbar_presented ≡ true)
    × (s'.alerts ≡ sign_in_screen.alerts)
    × (v'.user ≡ some (record kim { id = kim_id; content = none }))
    × (v'.calls
        ≡ (signed_up_world.calls ++ (sign_in_user email password ∷ []))
          ++ (observe_user kim_id ∷ []))
    × (v'.store ≡ signed_up_world.store)
run-signs_in_example =
    run-signs_in example_db sign_in_screen empty_world signed_up_world kim (other_user ∷ []) email
      password kim_id view_did_load-IsConsistent email-valid password-valid apart refl

abbrev sign_up_screen : SignUp.SignUp
sign_up_screen = SignUp.view_did_load same_text SignUp.new_screen

sign_up_screen-IsConsistent : Consistent.IsConsistent sign_up_screen
sign_up_screen-IsConsistent = Consistent.view_did_load-IsConsistent same_text

sign_up_screen-IsOnTop : IsOnTop sign_up_screen
unfolding SignUp.view_did_load
sign_up_screen-IsOnTop = record { alone = refl; present = refl }

sign_up_screen-pending : sign_up_screen.pending ≡ []
unfolding SignUp.view_did_load
sign_up_screen-pending = refl

abbrev signing_up : List Events.Event
signing_up =
    fill_in email password password
    ++ (inform day kim.name kim.nick_name kim.birthday ++ submit kim_id)

run-sign_up_agrees_example :
    let (s, v) = Events.run same_text example_db signing_up (sign_up_screen, empty_world) in
    (s.user_info_enabled ≡ (
      validate_email s.view_model.email
      && validate_password s.view_model.password
      && s.view_model.check_password_valid))
    × (s.email_label ≡ label_text (validate_email s.view_model.email))
    × (s.password_label ≡ label_text (validate_password s.view_model.password))
    × (s.check_password_label ≡ label_text s.view_model.check_password_valid)
    × All IsValidCall v.calls
    × All Requests.IsComplete s.pending
run-sign_up_agrees_example =
    Requests.run-sign_up_agrees same_text example_db signing_up empty_world tt

run-signs_up_example :
    IsSignedUp same_text example_db kim password kim_id empty_world
      (Events.run same_text example_db signing_up (sign_up_screen, empty_world))
run-signs_up_example =
    run-signs_up same_text example_db sign_up_screen empty_world kim password password day kim_id
      sign_up_screen-IsConsistent sign_up_screen-IsOnTop sign_up_screen-pending email-valid
      password-valid (same_text_refl password) refl

run-unchecked_password_example :
    IsSignedUp same_text example_db kim changed_password kim_id empty_world (
      Events.run same_text example_db
        ((fill_in email password password ++ (Events.edit_password (some changed_password) ∷ []))
          ++ (inform day kim.name kim.nick_name kim.birthday ++ submit kim_id))
        (sign_up_screen, empty_world))
run-unchecked_password_example =
    run-unchecked_password same_text example_db sign_up_screen empty_world kim password
      changed_password password day kim_id sign_up_screen-IsConsistent sign_up_screen-IsOnTop
      sign_up_screen-pending email-valid changed_password-valid (same_text_refl password)
      passwords-differ refl

user_info_enabled-edits_example :
    let v = sign_up_screen.view_model in
    ((Events.step same_text example_db
        (Events.edit_email (some email))
        (sign_up_screen, empty_world)).0.user_info_enabled
      ≡ (validate_email email && validate_password v.password && v.check_password_valid))
    × ((Events.step same_text example_db
          (Events.edit_password (some email))
          (sign_up_screen, empty_world)).0.user_info_enabled
        ≡ (validate_email v.email && validate_password email && v.check_password_valid))
    × ((Events.step same_text example_db
          (Events.edit_check_password (some email))
          (sign_up_screen, empty_world)).0.user_info_enabled
        ≡ (validate_email v.email && validate_password v.password && same_text v.password email))
user_info_enabled-edits_example =
    user_info_enabled-edits same_text example_db sign_up_screen empty_world email
      sign_up_screen-IsConsistent sign_up_screen-IsOnTop

-- The first screen, after the second one has been filled in and left.
abbrev back_screen : SignUp.SignUp
back_screen =
    (Events.run same_text example_db
      (fill_in email password password
        ++ (inform day kim.name kim.nick_name kim.birthday ++ (Events.tap_back ∷ [])))
      (sign_up_screen, empty_world)).0

back_screen-IsOnTop : IsOnTop back_screen
unfolding Events.run SignUp.view_did_load SignUp.set_email SignUp.set_password
    SignUp.set_check_password Events.push_information same_text validate_email validate_password
    matches accepts
back_screen-IsOnTop = record { alone = refl; present = refl }

back_screen-filled : (back_screen.user_info_enabled ≡ true) × (SignUp.not_empty back_screen ≡ true)
unfolding Events.run SignUp.view_did_load SignUp.set_email SignUp.set_password
    SignUp.set_check_password Events.push_information same_text validate_email validate_password
    matches accepts
back_screen-filled = (refl, refl)

reopened-disabled_example :
    let opened =
      Events.step same_text example_db (Events.tap_user_info day) (back_screen, empty_world) in
    let edited = Events.step same_text example_db (Events.edit_name (some (kim.name))) opened in
    let done = Events.step same_text example_db Events.tap_done opened in
    (date_shown opened.0 ≡ some day)
    × (opened.0.birth_day ≡ back_screen.birth_day)
    × (done.0.birth_day ≡ day)
    × (SignUp.not_empty opened.0 ≡ true)
    × (can_sign_up opened.0 ≡ false)
    × (Events.step same_text example_db Events.tap_sign_up opened ≡ opened)
    × (can_sign_up edited.0 ≡ true)
reopened-disabled_example =
    reopened-disabled same_text example_db back_screen empty_world day (kim.name)
      back_screen-IsOnTop back_screen-filled.0 back_screen-filled.1 refl
