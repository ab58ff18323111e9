-- ===== src/App/Application/Account.antt =====
-- A new user's way through the whole application: from the sign-in screen to the sign-up screens that it
-- presents, back, and on to the main screen.
use between_us.Prelude.{
  ◌≡◌, refl, sym, ◌∙◌, ap, Bool, true, false, ◌||◌, zero, List, [], ◌∷◌, ◌++◌, none, some, arith,
}
use mathlib.Core.Path.{subst}
use mathlib.Core.List.{map}
use between_us.App.Regex.{Text}
use between_us.App.Validation.{validate_email, validate_password}
use between_us.App.User.{User, Database, users_child, save_new_user}
use between_us.App.Auth.{
  World, create_user, sign_out, sign_in_user, observe_user, report_error, sign_up_reply,
}
use between_us.App.Auth.Account.{save_all, signed_up}
use between_us.App.SignIn
use between_us.App.SignIn.Consistent
use between_us.App.SignIn.Feedback.{sign_in_events, run-signs_in, accepted_events}
use between_us.App.SignUp
use between_us.App.SignUp.{is_empty}
use between_us.App.SignUp.Events
use between_us.App.SignUp.Consistent as Backed
use between_us.App.SignUp.Account.{fill_in, inform, submit, IsSignedUp, IsOnTop, run-signs_up}
use between_us.App.Application.Runs.{is_observed, whole, run-on_sign_up, run-on_sign_in}
use between_us.App.Application.{
  Event, on_sign_in, tap_sign_up, on_sign_up, covers, Application, is_busy, present_sign_up,
  shows_main, step, run,
}

-- The taps and entries of the sign-up.
abbrev pub register_events : User → Text → Text → Text → Text → List Event
register_events user password check today id =
    tap_sign_up
    ∷ map (on_sign_up zero) (
        fill_in user.email password check
        ++ (inform today user.name user.nick_name user.birthday ++ submit id))

module _ (db : Database) where
  -- What a sign-up and the sign-in behind it leave.
  pub record IsRegistered (user : User) (password id : Text) (w : World db) (a : Application db)
      : Type 0 where
    pub main : shows_main a.sign_in ≡ true
    pub uncovered : covers a.sign_ups ≡ false
    pub current : a.world.user ≡ some (record user { id = id; content = none })
    pub store : a.world.store ≡ save_new_user db (record user { id = id; content = none }) w.store
    pub calls : a.world.calls ≡ (
        (((w.calls ++ (sign_out ∷ [])) ++ (create_user user.email password ∷ []))
          ++ (sign_in_user user.email password ∷ []))
        ++ (observe_user id ∷ []))

  -- The sign-in with the database that the sign-up has left.
  abbrev pub return_events : Text → Text → Text → Application db → List Event
  return_events email password id a = map on_sign_in (sign_in_events db email password id a.world)

module _ (db : Database) (presents_busy : Bool) (same_text : Text → Text → Bool) where
  signed_up_store :
      {s : SignUp.SignUp} {v : World db} (user : User) (password id : Text) (w : World db)
      → IsSignedUp same_text db user password id w (s, v)
      → v.store ≡ save_all db [] (signed_up db (record user { content = none }) id w).store
  unfolding save_all sign_up_reply report_error
  signed_up_store user password id w h = h.store

  signs_in :
      (s : SignIn.SignIn) (t : SignUp.SignUp) (ss : List SignUp.SignUp) (w v : World db)
      (user : User) (password id : Text)
      → Consistent.IsConsistent s
      → is_busy s ss ≡ false
      → validate_email user.email ≡ true
      → validate_password password ≡ true
      → IsSignedUp same_text db user password id w (t, v)
      → let a = whole db (some s) (t ∷ ss) v in
        IsRegistered db user password id w
          (run db presents_busy same_text (return_events db user.email password id a) a)
  unfolding covers is_observed shows_main SignIn.run
  signs_in s t ss w v user password id h idle ve vp signed =
      let saved = signed_up_store user password id w signed in
      let (presented, silent, loaded, calls, kept) =
        run-signs_in db s w v (record user { content = none }) [] user.email password id h ve vp tt
          saved in
      let free : is_busy s (t ∷ ss) ≡ false = rw (signed.dismissed) idle in
      let closed : covers (t ∷ ss) ≡ false = ground (arith, free) in
      let answer = SignIn.observed (db.value (users_child id) v.store) in
      let ran =
        run-on_sign_in db presents_busy same_text (accepted_events user.email password id) answer s
          (t ∷ ss) v (refl, (refl, (refl, (refl, tt)))) free in
      subst (IsRegistered db user password id w) (sym ran) (record {
        main = presented;
        uncovered = closed;
        current = loaded;
        store = kept ∙ signed.store;
        calls = rw (← signed.calls) calls;
      })

  new_screen-IsOnTop : IsOnTop (SignUp.view_did_load same_text SignUp.new_screen)
  unfolding SignUp.view_did_load
  new_screen-IsOnTop = record { alone = refl; present = refl }

  new_screen-pending : (SignUp.view_did_load same_text SignUp.new_screen).pending ≡ []
  unfolding SignUp.view_did_load
  new_screen-pending = refl

  present_sign_up-idle :
      (s : SignIn.SignIn) (ss : List SignUp.SignUp) (w : World db)
      → is_busy s ss ≡ false
      → step db presents_busy same_text tap_sign_up (whole db (some s) ss w)
        ≡ whole db (some s) (SignUp.view_did_load same_text SignUp.new_screen ∷ ss) w
  unfolding step present_sign_up
  present_sign_up-idle s ss w h = rw h refl

  -- From a sign-in screen that agrees with its fields and is in front, a new user gets to the main screen:
  -- a tap of the sign-up button, the two sign-up screens filled in with a valid email, a valid password,
  -- the same password again and three texts that are not empty, the sign-up, which Firebase accepts under
  -- some id, then the same email and password on the sign-in screen, which Firebase accepts under that id,
  -- and the entry that the database has for it. The main screen is in front then, the sign-up screens
  -- are dismissed, and the current user is the one that was entered, with that id. What was written to
  -- the database is that user's entry alone. Besides, Firebase was asked for a sign-out, the account,
  -- the sign-in and the reading of that entry, in this order and for nothing else.
  pub run-registers :
      (s : SignIn.SignIn) (ss : List SignUp.SignUp) (w : World db) (user : User)
      (password check today id : Text)
      → Consistent.IsConsistent s
      → is_busy s ss ≡ false
      → validate_email user.email ≡ true
      → validate_password password ≡ true
      → same_text password check ≡ true
      → (is_empty user.name || is_empty user.nick_name || is_empty user.birthday) ≡ false
      → let a =
          run db presents_busy same_text
            (register_events user password check today id)
            (record { sign_in = some s; sign_ups = ss; world = w }) in
        IsRegistered db user password id w
          (run db presents_busy same_text (return_events db user.email password id a) a)
  unfolding run shows_main
  run-registers s ss w user password check today id h idle ve vp same full =
      let t = SignUp.view_did_load same_text SignUp.new_screen in
      let es =
        fill_in user.email password check
        ++ (inform today user.name user.nick_name user.birthday ++ submit id) in
      let (t', v) = Events.run same_text db es (t, w) in
      let signed =
        run-signs_up same_text db t w user password check today id
          (Backed.view_did_load-IsConsistent same_text) new_screen-IsOnTop new_screen-pending ve vp
          same full in
      let hidden : shows_main (some s) ≡ false = ground (arith, idle) in
      let ran =
        ap (run db presents_busy same_text (map (on_sign_up zero) es))
          (present_sign_up-idle s ss w idle)
        ∙ run-on_sign_up db presents_busy same_text es (some s) t ss w hidden in
      subst
        (λ (a : Application db).
          IsRegistered db user password id w
            (run db presents_busy same_text (return_events db user.email password id a) a))
        (sym ran) (signs_in s t' ss w v user password id h idle ve vp signed)
