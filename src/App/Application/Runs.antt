-- ===== src/App/Application/Runs.antt =====
-- Runs of the application that stay on one screen.
use between_us.Prelude.{
  ◌≡◌, refl, ◌∙◌, ap, Bool, true, false, ◌||◌, not, zero, List, [], ◌∷◌, ◌++◌, Option, some, All,
  arith, if_intro,
}
use mathlib.Core.List.{map}
use between_us.App.Regex.{Text}
use between_us.App.User.{Database}
use between_us.App.Auth.{World, sign_in_reply, report_error}
use between_us.App.SignIn
use between_us.App.SignUp
use between_us.App.SignUp.Events
use between_us.App.Application.{
  on_sign_in, on_sign_up, is_sign_up_answer, Application, is_busy, shows_main, step, run,
}

-- Everything but the answer of the database leaves the main screen as it is.
unfoldable pub is_observed : SignIn.Event → Bool
is_observed (SignIn.observed snapshot) = true
is_observed e = false

module _ (db : Database) where
  abbrev pub whole : Option SignIn.SignIn → List SignUp.SignUp → World db → Application db
  whole root screens w = record { sign_in = root; sign_ups = screens; world = w }

module _ (db : Database) (presents_busy : Bool) (same_text : Text → Text → Bool) where
  step-on_sign_up :
      (e : Events.Event) (root : Option SignIn.SignIn) (s : SignUp.SignUp) (ss : List SignUp.SignUp)
      (w : World db)
      → shows_main root ≡ false
      → let (s', w') = Events.step same_text db e (s, w) in
        step db presents_busy same_text (on_sign_up zero e) (whole db root (s ∷ ss) w)
        ≡ whole db root (s' ∷ ss) w'
  unfolding step
  step-on_sign_up e root s ss w h =
      let (s', w') = Events.step same_text db e (s, w) in
      if_intro (λ x. x ≡ whole db root (s' ∷ ss) w') (is_sign_up_answer e || not (shows_main root))
        (λ heard. refl) λ hidden. ground (arith, h, hidden)

  -- Events of the latest sign-up screens are a run of these screens.
  pub run-on_sign_up :
      (es : List Events.Event) (root : Option SignIn.SignIn) (s : SignUp.SignUp)
      (ss : List SignUp.SignUp) (w : World db)
      → shows_main root ≡ false
      → let (s', w') = Events.run same_text db es (s, w) in
        run db presents_busy same_text (map (on_sign_up zero) es) (whole db root (s ∷ ss) w)
        ≡ whole db root (s' ∷ ss) w'
  unfolding run Events.run
  run-on_sign_up [] root s ss w h = refl
  run-on_sign_up (e ∷ es) root s ss w h =
      let (s', w') = Events.step same_text db e (s, w) in
      ap (run db presents_busy same_text (map (on_sign_up zero) es))
        (step-on_sign_up e root s ss w h)
      ∙ run-on_sign_up es root s' ss w' h

  step-on_sign_in :
      (e : SignIn.Event) (s : SignIn.SignIn) (ss : List SignUp.SignUp) (w : World db)
      → is_busy s ss ≡ false
      → let (s', w') = SignIn.step db e (s, w) in
        step db presents_busy same_text (on_sign_in e) (whole db (some s) ss w)
        ≡ whole db (some s') ss w'
  unfolding step
  step-on_sign_in e s ss w h =
      let (s', w') = SignIn.step db e (s, w) in
      if_intro (λ x. x ≡ whole db (some s') ss w') (not (is_busy s ss)) (λ idle. refl)
        λ busy. ground (arith, h, busy)

  step-tabbar :
      (e : SignIn.Event) (s : SignIn.SignIn) (w : World db)
      → is_observed e ≡ false
      → (SignIn.step db e (s, w)).0.tabbar_presented ≡ s.tabbar_presented
  unfolding is_observed SignIn.step SignIn.set_email SignIn.set_password SignIn.auth_completions
      sign_in_reply report_error
  step-tabbar e s w h = ground (arith, h)

  -- Events of the sign-in screen are a run of it, up to the first that the database answers.
  pub run-on_sign_in :
      (es : List SignIn.Event) (e : SignIn.Event) (s : SignIn.SignIn) (ss : List SignUp.SignUp)
      (w : World db)
      → All (λ e'. is_observed e' ≡ false) es
      → is_busy s ss ≡ false
      → let (s', w') = SignIn.run db (es ++ (e ∷ [])) (s, w) in
        run db presents_busy same_text (map on_sign_in (es ++ (e ∷ []))) (whole db (some s) ss w)
        ≡ whole db (some s') ss w'
  unfolding run SignIn.run
  run-on_sign_in [] e s ss w quiet h = step-on_sign_in e s ss w h
  run-on_sign_in (e' ∷ es) e s ss w quiet h =
      let (s', w') = SignIn.step db e' (s, w) in
      let still : is_busy s' ss ≡ false = rw (step-tabbar e' s w quiet.0) h in
      ap (run db presents_busy same_text (map on_sign_in (es ++ (e ∷ []))))
        (step-on_sign_in e' s ss w h)
      ∙ run-on_sign_in es e s' ss w' quiet.1 still
