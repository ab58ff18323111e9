-- ===== src/App/SignUp/Requests.antt =====
-- What the sign-up screens show and ask of Firebase, over all sequences of events.
use between_us.Prelude.{
  ◌≡◌, refl, ◌∙◌, Bool, true, false, ◌&&◌, ◌||◌, ℕ, zero, suc, List, [], ◌∷◌, none, some, All,
  arith, if_intro, option_intro, All-snoc,
}
use between_us.App.Regex.{Text}
use between_us.App.Validation.{validate_email, validate_password}
use between_us.App.User.{User, Database}
use between_us.App.Auth.{AuthResult, sign_out, Reply, World, sign_up, sign_up_reply}
use between_us.App.Auth.Valid.{IsValidCall}
use between_us.App.Login.{label_text}
use between_us.App.SignUp.{Information, SignUp, new_screen, view_did_load, is_empty}
use between_us.App.SignUp.Events.{
  entered_user, auth_completion, auth_completions, nth_user, without_nth, Event, edit_email,
  edit_password, edit_check_password, tap_dismiss, tap_user_info, edit_name, edit_nick_name,
  pick_date, tap_done, tap_back, tap_sign_up, answered, first_step, information_step, State,
  start_sign_up, answer, touch_information, touch, step, run,
}
use between_us.App.SignUp.Consistent.{
  is_backed, IsConsistent, view_did_load-IsConsistent, set_check_password-IsConsistent,
  set_email-IsConsistent, set_password-IsConsistent, push_information-IsConsistent,
  set_name-IsConsistent, set_nick_name-IsConsistent, select_date-IsConsistent,
  done_select_date-IsConsistent, auth_completions-IsConsistent,
}

-- A user that is asked for has a valid email, and a name, a nickname and a birthday that are not empty.
pub record IsComplete (user : User) : Type 0 where
  pub email : validate_email user.email ≡ true
  pub texts : (is_empty user.name || is_empty user.nick_name || is_empty user.birthday) ≡ false

All-without_nth : (n : ℕ) (us : List User) → All IsComplete us → All IsComplete (without_nth n us)
unfolding without_nth
All-without_nth n [] h = h
All-without_nth zero (u ∷ us) h = h.1
All-without_nth (suc n) (u ∷ us) h = (h.0, All-without_nth n us h.1)

auth_completions-pending :
    (rs : List AuthResult) (s : SignUp) → (auth_completions rs s).pending ≡ s.pending
unfolding auth_completions auth_completion
auth_completions-pending [] s = refl
auth_completions-pending (r ∷ rs) s =
    let kept : (auth_completion r s).pending ≡ s.pending = ground arith in
    if_intro (λ (x : SignUp). x.pending ≡ s.pending) s.dismissed (λ gone. refl)
      λ here. auth_completions-pending rs (auth_completion r s) ∙ kept

with_pending-IsConsistent :
    (us : List User) (s : SignUp) → IsConsistent s → IsConsistent (record s { pending = us })
unfolding is_backed
with_pending-IsConsistent us s h = ground arith

-- A button of the pushed screen that is enabled stands on a complete user and a valid password.
entered_user-IsComplete :
    (s : SignUp) (screen : Information)
    → IsConsistent s
    → s.information ≡ some screen
    → screen.sign_up_enabled ≡ true
    → IsComplete (entered_user s) × (validate_password s.view_model.password ≡ true)
unfolding entered_user is_backed
entered_user-IsComplete s screen h shown on = ground (arith, shown, on)

module _ (same_text : Text → Text → Bool) where
  first_step-IsConsistent :
      (e : Event) (s : SignUp)
      → s.information ≡ none
      → IsConsistent s
      → IsConsistent (first_step same_text e s)
  unfolding first_step is_backed
  first_step-IsConsistent (edit_email (some text)) s top h = set_email-IsConsistent text s top h
  first_step-IsConsistent (edit_password (some text)) s top h =
      set_password-IsConsistent text s top h
  first_step-IsConsistent (edit_check_password (some text)) s top h =
      set_check_password-IsConsistent same_text text s top h
  first_step-IsConsistent tap_dismiss s top h = ground (arith, top)
  first_step-IsConsistent (tap_user_info today) s top h =
      if_intro IsConsistent s.user_info_enabled (λ on. push_information-IsConsistent today s on h)
        λ off. h
  first_step-IsConsistent e s top h = h

  information_step-IsConsistent :
      (e : Event) (s : SignUp) → IsConsistent s → IsConsistent (information_step same_text e s)
  unfolding information_step is_backed
  information_step-IsConsistent (edit_name (some text)) s h = set_name-IsConsistent text s h
  information_step-IsConsistent (edit_nick_name (some text)) s h =
      set_nick_name-IsConsistent text s h
  information_step-IsConsistent (pick_date text) s h = select_date-IsConsistent text s h
  information_step-IsConsistent tap_done s h = done_select_date-IsConsistent s h
  information_step-IsConsistent tap_back s h = ground arith
  information_step-IsConsistent e s h = h

  steps-pending :
      (e : Event) (s : SignUp)
      → ((first_step same_text e s).pending ≡ s.pending)
        × ((information_step same_text e s).pending ≡ s.pending)
  unfolding first_step information_step
  steps-pending e s = ground arith

  module _ (db : Database) where
    -- The screens are consistent, and the sign-ups that are asked for are complete.
    pub record IsSound (st : State same_text db) : Type 0 where
      pub shown : IsConsistent st.0
      pub pending : All IsComplete st.0.pending
      pub calls : All IsValidCall st.1.calls

    start_sign_up-IsSound :
        (s : SignUp) (w : World db)
        → IsSound (s, w)
        → IsComplete (entered_user s) × (validate_password s.view_model.password ≡ true)
        → IsSound (start_sign_up same_text db (s, w))
    unfolding start_sign_up sign_up
    start_sign_up-IsSound s w h (complete, valid) = record {
      shown = with_pending-IsConsistent _ s h.shown;
      pending = All-snoc IsComplete s.pending _ h.pending complete;
      calls =
          All-snoc IsValidCall _ _ (All-snoc IsValidCall w.calls sign_out h.calls tt)
            (complete.email, valid);
    }

    sign_up_reply-calls :
        (user : User) (reply : Reply) (w : World db)
        → (sign_up_reply db user reply w).0.calls ≡ w.calls
    unfolding sign_up_reply
    sign_up_reply-calls user reply w = ground arith

    answer-IsSound :
        (n : ℕ) (reply : Reply) (st : State same_text db)
        → IsSound st
        → IsSound (answer same_text db n reply st)
    unfolding answer
    answer-IsSound n reply (s, w) h =
        option_intro IsSound (nth_user n s.pending) (s, w)
          (λ user.
            let (w', told) = sign_up_reply db user reply w in
            (auth_completions told (record s { pending = without_nth n s.pending }), w'))
          (λ missing. h)
          λ user found.
            let told = (sign_up_reply db user reply w).1 in
            let left = without_nth n s.pending in
            let s' : SignUp = record s { pending = left } in
            record {
              shown =
                  auth_completions-IsConsistent told s' (with_pending-IsConsistent left s h.shown);
              pending =
                  rw (auth_completions-pending told s') (All-without_nth n s.pending h.pending);
              calls = rw (sign_up_reply-calls user reply w) h.calls;
            }

    touch_information-IsSound :
        (screen : Information) (e : Event) (s : SignUp) (w : World db)
        → s.information ≡ some screen
        → IsSound (s, w)
        → IsSound (touch_information same_text db screen e (s, w))
    unfolding touch_information
    touch_information-IsSound screen tap_sign_up s w top h =
        if_intro IsSound screen.sign_up_enabled
          (λ on. start_sign_up-IsSound s w h (entered_user-IsComplete s screen h.shown top on))
          λ off. h
    touch_information-IsSound screen e s w top h = record {
      shown = information_step-IsConsistent e s h.shown;
      pending = rw ((steps-pending e s).1) h.pending;
      calls = h.calls;
    }

    touch-IsSound :
        (e : Event) (s : SignUp) (w : World db)
        → IsSound (s, w)
        → IsSound (touch same_text db e (s, w))
    unfolding touch
    touch-IsSound e s w h =
        option_intro IsSound s.information (first_step same_text e s, w)
          (λ screen. touch_information same_text db screen e (s, w))
          (λ top. record {
            shown = first_step-IsConsistent e s top h.shown;
            pending = rw ((steps-pending e s).0) h.pending;
            calls = h.calls;
          })
          λ screen top. touch_information-IsSound screen e s w top h

    pub step-IsSound :
        (e : Event) (st : State same_text db) → IsSound st → IsSound (step same_text db e st)
    unfolding step
    step-IsSound (answered n reply) st h = answer-IsSound n reply st h
    step-IsSound e (s, w) h = if_intro IsSound s.dismissed (λ gone. h) λ here. touch-IsSound e s w h

    run-IsSound :
        (es : List Event) (st : State same_text db) → IsSound st → IsSound (run same_text db es st)
    unfolding run
    run-IsSound [] st h = h
    run-IsSound (e ∷ es) st h = run-IsSound es (step same_text db e st) (step-IsSound e st h)

    loaded-IsSound :
        (w : World db) → All IsValidCall w.calls → IsSound (view_did_load same_text new_screen, w)
    unfolding view_did_load
    loaded-IsSound w h = record {
      shown = view_did_load-IsConsistent same_text;
      pending = tt;
      calls = h;
    }

    -- From the moment the first screen has loaded, whatever is typed, tapped and answered in whatever order:
    -- the second screen can be opened exactly when the email and the password are valid and the last check of
    -- the second password has succeeded, and each label shows its message exactly when its own test has
    -- failed. Every sign-in and sign-up asked of Firebase so far had a valid email and a valid password, if
    -- the ones before had, and every user that is still to be saved has a valid email, and a name, a
    -- nickname and a birthday that are not empty.
    pub run-sign_up_agrees :
        (es : List Event) (w : World db)
        → All IsValidCall w.calls
        → let (s, v) = run same_text db es (view_did_load same_text new_screen, w) in
          (s.user_info_enabled ≡ (
            validate_email s.view_model.email
            && validate_password s.view_model.password
            && s.view_model.check_password_valid))
          × (s.email_label ≡ label_text (validate_email s.view_model.email))
          × (s.password_label ≡ label_text (validate_password s.view_model.password))
          × (s.check_password_label ≡ label_text s.view_model.check_password_valid)
          × All IsValidCall v.calls
          × All IsComplete s.pending
    run-sign_up_agrees es w h =
        let sound = run-IsSound es (view_did_load same_text new_screen, w) (loaded-IsSound w h) in
        let s = sound.shown in
        (s.enabled, s.email_label, s.password_label, s.check_label, sound.calls, sound.pending)
