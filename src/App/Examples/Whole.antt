-- ===== src/App/Examples/Whole.antt =====
-- The theorems about the application as a whole at concrete inputs.
use between_us.Prelude.{◌≡◌, refl, false, List, [], ◌∷◌, some, none}
use between_us.App.Examples.{
  same_text, example_db, empty_world, email, password, kim, kim_id, day, refused, email-valid,
  password-valid, same_text_refl,
}
use between_us.App.SignIn
use between_us.App.SignIn.Consistent.{view_did_load-IsConsistent}
use between_us.App.SignUp.Events
use between_us.App.Application.{
  Event, on_sign_in, tap_sign_up, on_sign_up, is_busy, covers, launch, run,
}
use between_us.App.Application.Sound.{IsSound, run-launch-IsSound}
use between_us.App.Application.Account.{IsRegistered, register_events, return_events, run-registers}

-- A sign-up, a second one that is given up, and a sign-in that is refused.
abbrev visits : List Event
visits =
    tap_sign_up
    ∷ on_sign_up 0 Events.tap_dismiss
    ∷ tap_sign_up
    ∷ on_sign_up 1 (Events.edit_email (some email))
    ∷ on_sign_up 0 (Events.edit_email (some email))
    ∷ on_sign_in (SignIn.signed_in refused)
    ∷ []

run-launch-IsSound_example :
    IsSound example_db
      (run example_db false same_text visits (launch example_db none empty_world.store))
run-launch-IsSound_example =
    run-launch-IsSound example_db false same_text none empty_world.store visits

abbrev front_screen : SignIn.SignIn
front_screen = SignIn.view_did_load SignIn.new_screen

front_screen-idle : is_busy front_screen [] ≡ false
unfolding SignIn.view_did_load covers
front_screen-idle = refl

run-registers_example :
    let a =
      run example_db false same_text
        (register_events kim password password day kim_id)
        (record { sign_in = some front_screen; sign_ups = []; world = empty_world }) in
    IsRegistered example_db kim password kim_id empty_world
      (run example_db false same_text (return_events example_db email password kim_id a) a)
run-registers_example =
    run-registers example_db false same_text front_screen [] empty_world kim password password day
      kim_id view_did_load-IsConsistent front_screen-idle email-valid password-valid
      (same_text_refl password) refl
