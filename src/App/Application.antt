-- ===== src/App/Application.antt =====
-- The application as a whole: BetweenUS/BetweenUS/Application, and the sign-up screens that
-- BetweenUS/BetweenUS/ViewController/Rogin/SignIn/SignInViewController.swift presents over the sign-in
-- screen. The screens share one `AuthManager`, one database and one `UserInformation`.
pub mod Screens
pub mod Sound
pub mod Runs
pub mod Account
use between_us.Prelude.{
  Bool, true, false, ℕ, zero, suc, List, [], ◌∷◌, Option, none, some, ◌||◌, not, if◌then◌else◌,
}
use between_us.App.Regex.{Text}
use between_us.App.User.{Database}
use between_us.App.Auth.{World, is_login, logout}
use between_us.App.SignIn
use between_us.App.SignUp
use between_us.App.SignUp.Events

-- An event of the sign-in screen, a tap of its other button, and an event of the sign-up screens that were
-- presented at a place in time, the latest at 0.
pub data Event : Type 0 where
  on_sign_in : SignIn.Event → Event
  tap_sign_up : Event
  on_sign_up : ℕ → Events.Event → Event

-- Answers of Firebase arrive on any screen; all other events are touches, which the screen in front gets.
unfoldable pub is_answer : SignIn.Event → Bool
is_answer (SignIn.signed_in reply) = true
is_answer (SignIn.observed snapshot) = true
is_answer e = false

unfoldable pub is_sign_up_answer : Events.Event → Bool
is_sign_up_answer (Events.answered n reply) = true
is_sign_up_answer e = false

-- Whether sign-up screens stand over the sign-in screen.
unfoldable pub covers : List SignUp.SignUp → Bool
covers [] = false
covers (s ∷ ss) = not s.dismissed || covers ss

unfoldable pub nth_screen : ℕ → List SignUp.SignUp → Option SignUp.SignUp
nth_screen n [] = none
nth_screen zero (s ∷ ss) = some s
nth_screen (suc n) (s ∷ ss) = nth_screen n ss

unfoldable pub put_screen : ℕ → SignUp.SignUp → List SignUp.SignUp → List SignUp.SignUp
put_screen n t [] = []
put_screen zero t (s ∷ ss) = t ∷ ss
put_screen (suc n) t (s ∷ ss) = s ∷ put_screen n t ss

-- Whether a screen is presented on the sign-in screen.
abbrev pub is_busy : SignIn.SignIn → List SignUp.SignUp → Bool
is_busy s sign_ups = s.tabbar_presented || covers sign_ups

-- Whether the main screen is in front.
unfoldable pub shows_main : Option SignIn.SignIn → Bool
shows_main none = true
shows_main (some s) = s.tabbar_presented

module _ (db : Database) where
  -- The root is the sign-in screen, or else the main one. Sign-up screens that are dismissed stay in the list
  -- for their requests that Firebase has still to answer.
  pub record Application : Type 0 where
    pub sign_in : Option SignIn.SignIn
    pub sign_ups : List SignUp.SignUp
    pub world : World db

  -- `application(_:didFinishLaunchingWithOptions:)`, then `scene(_:willConnectTo:options:)`, for the user
  -- that Firebase has behind the sign-out.
  unfoldable pub launch : Option Text → db.Store → Application
  unfolding is_login logout SignIn.view_did_load
  launch current store = record {
    sign_in = if is_login current then none else some (SignIn.view_did_load SignIn.new_screen);
    sign_ups = [];
    world = logout db (record { store = store; user = none; calls = [] });
  }

  -- Whether UIKit presents a screen on one that presents another is a parameter.
  module _ (presents_busy : Bool) (same_text : Text → Text → Bool) where
    -- What is asked of Firebase and loaded from it stays, also where the screen cannot present what follows.
    unfoldable pub sign_in_step : SignIn.Event → SignIn.SignIn → Application → Application
    unfolding is_answer covers SignIn.step
    sign_in_step e s a =
        let (s', w') = SignIn.step db e (s, a.world) in
        if not (is_busy s a.sign_ups)
        then record a { sign_in = some s'; world = w' }
        else if is_answer e
        then record a { sign_in = some (if presents_busy then s' else s); world = w' }
        else a

    -- `presentSignUpViewController`: a new screen, with a view model of its own.
    unfoldable pub present_sign_up : SignIn.SignIn → Application → Application
    unfolding covers SignUp.view_did_load
    present_sign_up s a =
        if is_busy s a.sign_ups
        then a
        else record a { sign_ups = SignUp.view_did_load same_text SignUp.new_screen ∷ a.sign_ups }

    unfoldable pub sign_up_step : ℕ → Events.Event → SignUp.SignUp → Application → Application
    unfolding is_sign_up_answer put_screen shows_main Events.step
    sign_up_step n e s a =
        let (s', w') = Events.step same_text db e (s, a.world) in
        if is_sign_up_answer e || not (shows_main a.sign_in)
        then record a { sign_ups = put_screen n s' a.sign_ups; world = w' }
        else a

    unfoldable pub step : Event → Application → Application
    unfolding sign_in_step present_sign_up nth_screen sign_up_step
    step (on_sign_in e) a = elim a.sign_in [ none ↦ a | some s ↦ sign_in_step e s a ]
    step tap_sign_up a = elim a.sign_in [ none ↦ a | some s ↦ present_sign_up s a ]
    step (on_sign_up n e) a = elim (nth_screen n a.sign_ups) [
      | none ↦ a
      | some s ↦ sign_up_step n e s a
    ]

    unfoldable pub run : List Event → Application → Application
    run [] a = a
    run (e ∷ es) a = run es (step e a)
