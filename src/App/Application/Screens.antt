-- ===== src/App/Application/Screens.antt =====
-- Single screens of the application, in the list of the sign-up screens.
use between_us.Prelude.{
  ◌≡◌, refl, Bool, true, false, ℕ, zero, suc, List, [], ◌∷◌, some, not, All, arith,
}
use between_us.App.Regex.{Text}
use between_us.App.User.{Database}
use between_us.App.Auth.{World, sign_up_reply}
use between_us.App.SignUp
use between_us.App.SignUp.Events
use between_us.App.SignUp.Consistent.{IsConsistent}
use between_us.App.SignUp.Requests.{IsComplete}
use between_us.App.Application.{covers, nth_screen, put_screen}

-- Sign-up screens that agree with their fields, with complete users still to be saved.
abbrev pub IsSoundScreen : SignUp.SignUp → Type 0
IsSoundScreen s = IsConsistent s × All IsComplete s.pending

-- All sign-up screens but the latest are gone.
abbrev pub is_alone : List SignUp.SignUp → Bool
is_alone [] = true
is_alone (s ∷ ss) = not (covers ss)

pub All-nth_screen :
    (n : ℕ) (s : SignUp.SignUp) (ss : List SignUp.SignUp)
    → nth_screen n ss ≡ some s
    → All IsSoundScreen ss
    → IsSoundScreen s
unfolding nth_screen
All-nth_screen n s [] found h = cc
All-nth_screen zero s (t ∷ ts) found h = let same : s ≡ t = cc in rw same h.0
All-nth_screen (suc n) s (t ∷ ts) found h = All-nth_screen n s ts found h.1

pub All-put_screen :
    (n : ℕ) (s : SignUp.SignUp) (ss : List SignUp.SignUp)
    → IsSoundScreen s
    → All IsSoundScreen ss
    → All IsSoundScreen (put_screen n s ss)
unfolding put_screen
All-put_screen n s [] g h = h
All-put_screen zero s (t ∷ ts) g h = (g, h.1)
All-put_screen (suc n) s (t ∷ ts) g h = (h.0, All-put_screen n s ts g h.1)

-- What a screen becomes covers no more than the screen did.
covers-put_screen :
    (n : ℕ) (s t : SignUp.SignUp) (ss : List SignUp.SignUp)
    → nth_screen n ss ≡ some s
    → (s.dismissed ≡ true → t.dismissed ≡ true)
    → covers ss ≡ false
    → covers (put_screen n t ss) ≡ false
unfolding nth_screen put_screen covers
covers-put_screen n s t [] found k h = refl
covers-put_screen zero s t (u ∷ us) found k h =
    let same : s ≡ u = cc in
    let gone : s.dismissed ≡ true = rw same ground arith in
    let closed = k gone in ground (arith, h, closed)
covers-put_screen (suc n) s t (u ∷ us) found k h =
    ground (arith, covers-put_screen n s t us found k)

pub is_alone-put_screen :
    (n : ℕ) (s t : SignUp.SignUp) (ss : List SignUp.SignUp)
    → nth_screen n ss ≡ some s
    → (s.dismissed ≡ true → t.dismissed ≡ true)
    → is_alone ss ≡ true
    → is_alone (put_screen n t ss) ≡ true
unfolding nth_screen put_screen
is_alone-put_screen n s t [] found k h = h
is_alone-put_screen zero s t (u ∷ us) found k h = h
is_alone-put_screen (suc n) s t (u ∷ us) found k h =
    let rest : covers us ≡ false = ground (arith, h) in
    rw (covers-put_screen n s t us found k rest) refl

module _ (same_text : Text → Text → Bool) (db : Database) where
  pub step-user :
      (e : Events.Event) (s : SignUp.SignUp) (w : World db)
      → (Events.step same_text db e (s, w)).1.user ≡ w.user
  unfolding Events.step sign_up_reply
  step-user e s w = ground arith

  pub step-dismissed :
      (e : Events.Event) (s : SignUp.SignUp) (w : World db)
      → s.dismissed ≡ true
      → (Events.step same_text db e (s, w)).0.dismissed ≡ true
  unfolding Events.step sign_up_reply
  step-dismissed e s w h = ground (arith, h)
