-- ===== src/App/Validation/Laws.antt =====
-- What `validateEmail` and `validatePassword` accept, said without patterns.
use between_us.Prelude.{
  ℕ, ◌≤◌, ◌≡◌, refl, sym, ap, ◌∙◌, ◌↔◌, inl, inr, Bool, true, [], ◌∷◌, ◌++◌, length, length-append,
  All, Any, arith,
}
use mathlib.Core.Path.{subst}
use mathlib.Core.List.{append-nil}
use between_us.App.Regex.{
  Text, Item, dot, accepts, at_end, match_then, matches, one_then, repeat_then,
}
use between_us.App.Regex.Laws.{repeat_then_sound, repeat_then_complete}
use between_us.App.Validation.{letter, digit, validate_password}

abbrev pub Accepts : Item → ℕ → Type 0
Accepts p c = accepts p c ≡ true

at_end_iff : (s : Text) → (at_end s ≡ true) ↔ (s ≡ [])
unfolding at_end
at_end_iff [] = (λ h. refl, λ h. refl)
at_end_iff (c ∷ s) = (λ h. cc, λ h. cc)

All-append : (P : ℕ → Type 0) (xs ys : Text) → All P xs → All P (xs ++ ys) → All P ys
All-append P [] ys h k = k
All-append P (x ∷ xs) ys h k = All-append P xs ys h.1 k.1

-- A repetition that ends the pattern takes the whole text.
pub repeat_at_end :
    (p : Item) (lo hi : ℕ) (s : Text)
    → repeat_then p lo hi at_end s ≡ true
    → All (Accepts p) s × (lo ≤ length s) × (length s ≤ hi)
repeat_at_end p lo hi s h =
    let found = repeat_then_sound p lo hi at_end s h in
    let nothing_left = (at_end_iff found.rest).0 found.continued in
    let same : s ≡ found.front =
      found.whole ∙ ap (λ t. found.front ++ t) nothing_left ∙ append-nil found.front in
    rw same (found.accepted, found.at_least, found.at_most)

pub repeat_to_end :
    (p : Item) (lo hi : ℕ) (s : Text)
    → All (Accepts p) s
    → lo ≤ length s
    → length s ≤ hi
    → repeat_then p lo hi at_end s ≡ true
repeat_to_end p lo hi s a l m =
    subst (λ t. repeat_then p lo hi at_end t ≡ true) (append-nil s)
      (repeat_then_complete p lo hi at_end s [] a l m ((at_end_iff []).1 refl))

Any-middle : (P : ℕ → Type 0) (front rest : Text) (c : ℕ) → P c → Any P (front ++ (c ∷ rest))
Any-middle P [] rest c h = inl h
Any-middle P (x ∷ front) rest c h = inr (Any-middle P front rest c h)

-- The lookahead `(?=.*[...])`.
abbrev has : Item → Text → Bool
has p s = repeat_then dot 0 (length s) (one_then p (λ _. true)) s

first_item :
    (p : Item) (front rest : Text)
    → one_then p (λ _. true) rest ≡ true
    → Any (Accepts p) (front ++ rest)
unfolding one_then
first_item p front [] h = cc
first_item p front (c ∷ rest) h = Any-middle (Accepts p) front rest c (ground arith)

has_sound : (p : Item) (s : Text) → has p s ≡ true → Any (Accepts p) s
has_sound p s h =
    let found = repeat_then_sound dot 0 (length s) _ s h in
    rw found.whole (first_item p found.front found.rest found.continued)

-- The part of a text before the place where a property holds.
record Found (P : ℕ → Type 0) (Q : ℕ → Type 0) (s : Text) : Type 0 where
  front : Text
  c : ℕ
  rest : Text
  whole : s ≡ front ++ (c ∷ rest)
  holds : P c
  before : All Q front

find_first : (P Q : ℕ → Type 0) (s : Text) → Any P s → All Q s → Found P Q s
find_first P Q [] h q = absurd h
find_first P Q (x ∷ s) (inl h) q = record {
  front = [];
  c = x;
  rest = s;
  whole = refl;
  holds = h;
  before = tt;
}
find_first P Q (x ∷ s) (inr h) q =
    let found = find_first P Q s h q.1 in
    record {
      front = x ∷ found.front;
      c = found.c;
      rest = found.rest;
      whole = ap (λ t. x ∷ t) found.whole;
      holds = found.holds;
      before = (q.0, found.before);
    }

has_complete : (p : Item) (s : Text) → Any (Accepts p) s → All (Accepts dot) s → has p s ≡ true
unfolding one_then
has_complete p s h all =
    let found = find_first (Accepts p) (Accepts dot) s h all in
    let bound : length found.front ≤ length s =
      omega (arith, ap length found.whole, length-append found.front (found.c ∷ found.rest)) in
    subst (λ t. repeat_then dot 0 (length s) (one_then p (λ _. true)) t ≡ true) (sym found.whole)
      (repeat_then_complete dot 0 (length s) _ found.front (found.c ∷ found.rest) found.before
        (omega arith) bound (ground (arith, found.holds)))

-- 7 to 50 code points, none of them a line terminator, and among them a letter and a digit.
pub record IsPassword (s : Text) : Type 0 where
  pub at_least : 7 ≤ length s
  pub at_most : length s ≤ 50
  pub one_line : All (Accepts dot) s
  pub has_letter : Any (Accepts letter) s
  pub has_digit : Any (Accepts digit) s

-- `validatePassword` accepts exactly the texts of 7 to 50 code points on one line that have an ASCII
-- letter and an ASCII digit.
pub validate_password_iff : (s : Text) → (validate_password s ≡ true) ↔ IsPassword s
unfolding validate_password matches match_then
validate_password_iff s = (sound, complete)
  where
    sound : validate_password s ≡ true → IsPassword s
    sound h =
        let letters : has letter s ≡ true = ground arith in
        let digits : has digit s ≡ true = ground arith in
        let (all, l, m) = repeat_at_end dot 7 50 s (ground arith) in
        record {
          at_least = l;
          at_most = m;
          one_line = all;
          has_letter = has_sound letter s letters;
          has_digit = has_sound digit s digits;
        }

    complete : IsPassword s → validate_password s ≡ true
    complete v = ground (
      arith,
      has_complete letter s v.has_letter v.one_line,
      has_complete digit s v.has_digit v.one_line,
      repeat_to_end dot 7 50 s v.one_line v.at_least v.at_most,
    )
