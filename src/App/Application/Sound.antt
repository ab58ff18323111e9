-- ===== src/App/Application/Sound.antt =====
-- What holds of the screens together, and of what they share, over all sequences of events.
use between_us.Prelude.{
  ◌≡◌, refl, Bool, true, false, ℕ, List, [], ◌∷◌, Option, none, some, ◌||◌, not, All, arith,
  if_intro, option_intro,
}
use mathlib.Core.Path.{subst}
use between_us.App.Regex.{Text}
use between_us.App.User.{User, Database}
use between_us.App.Auth.{World, sign_in, sign_in_reply, user_loaded, report_error}
use between_us.App.Auth.Valid.{IsValidCall}
use between_us.App.SignIn
use between_us.App.SignIn.Consistent
use between_us.App.SignUp
use between_us.App.SignUp.Events
use between_us.App.SignUp.Consistent as Backed
use between_us.App.SignUp.Requests
use between_us.App.Application.{
  Event, on_sign_in, tap_sign_up, on_sign_up, is_answer, covers, nth_screen, Application, launch,
  sign_in_step, present_sign_up, sign_up_step, step, run,
}
use between_us.App.Application.Screens.{
  IsSoundScreen, is_alone, All-nth_screen, All-put_screen, is_alone-put_screen, step-user,
  step-dismissed,
}

unfoldable pub has_user : Option User → Bool
has_user none = false
has_user (some user) = true

module _ (db : Database) where
  -- The main screen is on the sign-in screen only with a current user.
  abbrev pub is_loaded : SignIn.SignIn → World db → Bool
  is_loaded s w = not s.tabbar_presented || has_user w.user

  step-is_loaded :
      (e : SignIn.Event) (s : SignIn.SignIn) (w : World db)
      → is_loaded s w ≡ true
      → let (s', w') = SignIn.step db e (s, w) in (is_loaded s' w' ≡ true) × (is_loaded s w' ≡ true)
  unfolding SignIn.step SignIn.set_email SignIn.set_password SignIn.auth_completions sign_in
      sign_in_reply user_loaded report_error has_user
  step-is_loaded e s w h = ground (arith, h)

  abbrev pub IsSoundRoot : Option SignIn.SignIn → World db → Type 0
  IsSoundRoot none w = Unit {0}
  IsSoundRoot (some s) w = Consistent.IsConsistent s × (is_loaded s w ≡ true)

  pub record IsSound (a : Application db) : Type 0 where
    pub root : IsSoundRoot a.sign_in a.world
    pub sign_ups : All IsSoundScreen a.sign_ups
    pub alone : is_alone a.sign_ups ≡ true
    pub calls : All IsValidCall a.world.calls

  IsSoundRoot-user :
      (o : Option SignIn.SignIn) (w w' : World db)
      → w'.user ≡ w.user
      → IsSoundRoot o w
      → IsSoundRoot o w'
  IsSoundRoot-user none w w' e h = h
  IsSoundRoot-user (some s) w w' e h = (h.0, rw e h.1)

  IsSoundRoot-some :
      {o : Option SignIn.SignIn} {s : SignIn.SignIn} (w : World db)
      → o ≡ some s
      → IsSoundRoot o w
      → IsSoundRoot (some s) w
  IsSoundRoot-some w e h = subst (λ o. IsSoundRoot o w) e h

  answered-IsSound :
      (s : SignIn.SignIn) (w : World db) (a : Application db)
      → IsSoundRoot (some s) w
      → All IsValidCall w.calls
      → IsSound a
      → IsSound (record a { sign_in = some s; world = w })
  answered-IsSound s w a root calls h = record {
    root = root;
    sign_ups = h.sign_ups;
    alone = h.alone;
    calls = calls;
  }

  launch-IsSound : (current : Option Text) (store : db.Store) → IsSound (launch db current store)
  unfolding launch has_user
  launch-IsSound none store = record {
    root = (Consistent.view_did_load-IsConsistent, refl);
    sign_ups = tt;
    alone = refl;
    calls = (tt, tt);
  }
  launch-IsSound (some id) store = record {
    root = tt;
    sign_ups = tt;
    alone = refl;
    calls = (tt, tt);
  }

  module _ (presents_busy : Bool) (same_text : Text → Text → Bool) where
    sign_up_step-IsSound :
        (n : ℕ) (e : Events.Event) (s : SignUp.SignUp) (a : Application db)
        → nth_screen n a.sign_ups ≡ some s
        → IsSound a
        → IsSound (sign_up_step db presents_busy same_text n e s a)
    unfolding sign_up_step
    sign_up_step-IsSound n e s a found h =
        let (shown, complete) = All-nth_screen n s a.sign_ups found h.sign_ups in
        let stepped =
          Requests.step-IsSound same_text db e (s, a.world)
            (record { shown = shown; pending = complete; calls = h.calls }) in
        if_intro IsSound _
          (λ heard. record {
            root = IsSoundRoot-user a.sign_in a.world _ (step-user same_text db e s a.world) h.root;
            sign_ups = All-put_screen n _ a.sign_ups (stepped.shown, stepped.pending) h.sign_ups;
            alone =
                is_alone-put_screen n s _ a.sign_ups found (step-dismissed same_text db e s a.world)
                  h.alone;
            calls = stepped.calls;
          })
          λ hidden. h

    sign_in_step-IsSound :
        (e : SignIn.Event) (s : SignIn.SignIn) (a : Application db)
        → a.sign_in ≡ some s
        → IsSound a
        → IsSound (sign_in_step db presents_busy same_text e s a)
    unfolding sign_in_step
    sign_in_step-IsSound e s a shown h =
        let (consistent, loaded) = IsSoundRoot-some a.world shown h.root in
        let (consistent', calls) =
          Consistent.step-IsSound db e (s, a.world) (consistent, h.calls) in
        let (loaded', kept) = step-is_loaded e s a.world loaded in
        let (s', w') = SignIn.step db e (s, a.world) in
        let told = answered-IsSound s' w' a (consistent', loaded') calls h in
        let busy = answered-IsSound s w' a (consistent, kept) calls h in
        if_intro IsSound (not (s.tabbar_presented || covers a.sign_ups)) (λ idle. told)
          λ over.
            if_intro IsSound (is_answer e)
              (λ answered.
                if_intro
                  (λ (t : SignIn.SignIn). IsSound (record a { sign_in = some t; world = w' }))
                  presents_busy (λ anyway. told) (λ not_now. busy))
              λ touched. h

    present_sign_up-IsSound :
        (s : SignIn.SignIn) (a : Application db)
        → IsSound a
        → IsSound (present_sign_up db presents_busy same_text s a)
    unfolding present_sign_up SignUp.view_did_load
    present_sign_up-IsSound s a h =
        if_intro IsSound (s.tabbar_presented || covers a.sign_ups) (λ busy. h)
          λ idle.
            let none_left : not (covers a.sign_ups) ≡ true = ground (arith, idle) in
            record {
              root = h.root;
              sign_ups = ((Backed.view_did_load-IsConsistent same_text, tt), h.sign_ups);
              alone = none_left;
              calls = h.calls;
            }

    step-IsSound :
        (e : Event) (a : Application db) → IsSound a → IsSound (step db presents_busy same_text e a)
    unfolding step
    step-IsSound (on_sign_in e) a h =
        option_intro IsSound a.sign_in a (λ s. sign_in_step db presents_busy same_text e s a)
          (λ main. h) λ s shown. sign_in_step-IsSound e s a shown h
    step-IsSound tap_sign_up a h =
        option_intro IsSound a.sign_in a (λ s. present_sign_up db presents_busy same_text s a)
          (λ main. h) λ s shown. present_sign_up-IsSound s a h
    step-IsSound (on_sign_up n e) a h =
        option_intro IsSound (nth_screen n a.sign_ups) a
          (λ s. sign_up_step db presents_busy same_text n e s a) (λ missing. h)
          λ s found. sign_up_step-IsSound n e s a found h

    run-IsSound :
        (es : List Event) (a : Application db)
        → IsSound a
        → IsSound (run db presents_busy same_text es a)
    unfolding run
    run-IsSound [] a h = h
    run-IsSound (e ∷ es) a h =
        run-IsSound es (step db presents_busy same_text e a) (step-IsSound e a h)

    -- From the launch on, for whichever user Firebase has then and whatever is typed, tapped and answered on
    -- the sign-in screen and on the sign-up screens, in whatever order: each screen shows what its fields
    -- call for, at most the latest sign-up screens are not dismissed, every sign-in and sign-up that
    -- Firebase was asked for had a valid email and a valid password, every user that is still to be saved
    -- is complete, and the sign-in screen has presented the main one only with a current user.
    pub run-launch-IsSound :
        (current : Option Text) (store : db.Store) (es : List Event)
        → IsSound (run db presents_busy same_text es (launch db current store))
    run-launch-IsSound current store es =
        run-IsSound es (launch db current store) (launch-IsSound current store)
