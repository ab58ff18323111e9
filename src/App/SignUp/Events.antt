-- ===== src/App/SignUp/Events.antt =====
-- What happens to the sign-up screens: SignUpUserInformationViewController.swift, `signUp` of
-- SignUpViewModel.swift, and the taps of SignUpViewController.swift.
use between_us.Prelude.{
  Bool, true, false, ℕ, zero, suc, List, [], ◌∷◌, ◌++◌, Option, none, some, if◌then◌else◌,
}
use between_us.App.Regex.{Text}
use between_us.App.User.{User, Database}
use between_us.App.Auth.{AuthResult, success, failure, Reply, World, sign_up, sign_up_reply}
use between_us.App.SignUp.{
  Information, SignUp, set_email, set_password, set_check_password, set_name, set_nick_name,
  set_birth_day,
}

unfoldable pub select_date : Text → SignUp → SignUp
select_date date s = elim s.information [
  | none ↦ s
  | some screen ↦ record s { information = some (record screen { birthday_text = date }) }
]

-- `createDateSelectKeyboard`: a new picker stands at the current date, and its publisher sends that to
-- the subscription at once.
unfoldable pub create_date_select_keyboard : Text → SignUp → SignUp
unfolding select_date
create_date_select_keyboard today s = select_date today s

-- `viewDidLoad` of the pushed screen, at a date: `configureView`, then `bindingViewProperties`, where the
-- two fields send the texts that they have just got, then `bindingViewModel`, then the date picker.
unfoldable pub push_information : Text → SignUp → SignUp
unfolding set_name set_nick_name create_date_select_keyboard
push_information today s =
    let configured : SignUp = record s {
      information =
          some (record { birthday_text = s.birth_day; sign_up_enabled = false; bound = false });
    } in
    let sent = set_nick_name s.nick_name (set_name s.name configured) in
    let bound : SignUp = elim sent.information [
      | none ↦ sent
      | some screen ↦ record sent { information = some (record screen { bound = true }) }
    ] in
    create_date_select_keyboard today bound

unfoldable pub done_select_date : SignUp → SignUp
unfolding set_birth_day
done_select_date s = elim s.information [
  | none ↦ s
  | some screen ↦ set_birth_day screen.birthday_text s
]

-- The user that `signUp` makes.
unfoldable pub entered_user : SignUp → User
entered_user s = record {
  id = [];
  email = s.view_model.email;
  name = s.name;
  nick_name = s.nick_name;
  birthday = s.birth_day;
  content = none;
}

-- `authCompletion`, with the sinks of the two subjects: only the pushed screen has them.
unfoldable pub auth_completion : AuthResult → SignUp → SignUp
auth_completion r s = elim s.information [
  | none ↦ s
  | some screen ↦ elim r [
    | success ↦ record s { dismissed = true }
    | failure e ↦ record s { alerts = s.alerts ++ (e.message ∷ []) }
  ]
]

-- A screen that is dismissed is gone, with its view model. An alert is taken to be closed by then.
unfoldable pub auth_completions : List AuthResult → SignUp → SignUp
unfolding auth_completion
auth_completions [] s = s
auth_completions (r ∷ rs) s =
    let rest = auth_completions rs (auth_completion r s) in if s.dismissed then s else rest

unfoldable pub nth_user : ℕ → List User → Option User
nth_user n [] = none
nth_user zero (u ∷ us) = some u
nth_user (suc n) (u ∷ us) = nth_user n us

unfoldable pub without_nth : ℕ → List User → List User
without_nth n [] = []
without_nth zero (u ∷ us) = us
without_nth (suc n) (u ∷ us) = u ∷ without_nth n us

-- The events of the first screen, of the pushed one, and the answer to the sign-up at a place among
-- the pending ones. A field sends its text at every editing event, also where it is the same; it may
-- be `nil`. A date is the text that `dateToString` gives; a tap that opens the second screen has the one of
-- that day.
pub data Event : Type 0 where
  edit_email : Option Text → Event
  edit_password : Option Text → Event
  edit_check_password : Option Text → Event
  tap_dismiss : Event
  tap_user_info : Text → Event
  edit_name : Option Text → Event
  edit_nick_name : Option Text → Event
  pick_date : Text → Event
  tap_done : Event
  tap_back : Event
  tap_sign_up : Event
  answered : ℕ → Reply → Event

module _ (same_text : Text → Text → Bool) where
  -- The first screen, on top of nothing.
  unfoldable pub first_step : Event → SignUp → SignUp
  unfolding set_email set_password set_check_password push_information
  first_step (edit_email (some text)) s = set_email text s
  first_step (edit_password (some text)) s = set_password text s
  first_step (edit_check_password (some text)) s = set_check_password same_text text s
  first_step tap_dismiss s = record s { dismissed = true }
  first_step (tap_user_info today) s = if s.user_info_enabled then push_information today s else s
  first_step e s = s

  -- The fields of the pushed screen.
  unfoldable pub information_step : Event → SignUp → SignUp
  unfolding set_name set_nick_name select_date done_select_date
  information_step (edit_name (some text)) s = set_name text s
  information_step (edit_nick_name (some text)) s = set_nick_name text s
  information_step (pick_date text) s = select_date text s
  information_step tap_done s = done_select_date s
  information_step tap_back s = record s { information = none }
  information_step e s = s

  module _ (db : Database) where
    abbrev pub State : Type 0
    State = SignUp × World db

    -- `SignUpViewModel.signUp`
    unfoldable pub start_sign_up : State → State
    unfolding entered_user sign_up
    start_sign_up (s, w) = (
      record s { pending = s.pending ++ (entered_user s ∷ []) },
      sign_up db s.view_model.email s.view_model.password w,
    )

    -- The manager is shared, so it saves the user also when the screens are gone.
    unfoldable pub answer : ℕ → Reply → State → State
    unfolding nth_user without_nth auth_completions
    answer n reply (s, w) = elim (nth_user n s.pending) [
      | none ↦ (s, w)
      | some user ↦
          let (w', told) = sign_up_reply db user reply w in
          (auth_completions told (record s { pending = without_nth n s.pending }), w')
    ]

    -- The pushed screen; a button that is disabled is not tapped.
    unfoldable pub touch_information : Information → Event → State → State
    unfolding information_step start_sign_up
    touch_information screen tap_sign_up (s, w) =
        if screen.sign_up_enabled then start_sign_up (s, w) else (s, w)
    touch_information screen e (s, w) = (information_step e s, w)

    -- The screen on top gets the event.
    unfoldable pub touch : Event → State → State
    unfolding first_step touch_information
    touch e (s, w) = elim s.information [
      | none ↦ (first_step e s, w)
      | some screen ↦ touch_information screen e (s, w)
    ]

    unfoldable pub step : Event → State → State
    unfolding answer touch
    step (answered n reply) st = answer n reply st
    step e (s, w) = if s.dismissed then (s, w) else touch e (s, w)

    unfoldable pub run : List Event → State → State
    unfolding step
    run [] st = st
    run (e ∷ es) st = run es (step e st)
