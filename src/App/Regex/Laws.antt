-- ===== src/App/Regex/Laws.antt =====
-- What a match of the parts of a pattern means for the text.
use between_us.Prelude.{
  ℕ, ◌-◌, ◌≤◌, ◌<◌, ◌≡◌, refl, ap, inl, inr, Bool, true, ◌&&◌, [], ◌∷◌, ◌++◌, ◌==◌, length, All,
  Bool-cases, arith,
}
use between_us.App.Regex.{Text, Item, accepts, repeat_then}

-- A text that starts with items that are accepted, as many as the bounds allow.
pub record Splits (p : Item) (lo hi : ℕ) (k : Text → Bool) (s : Text) : Type 0 where
  pub front : Text
  pub rest : Text
  pub whole : s ≡ front ++ rest
  pub accepted : All (λ c. accepts p c ≡ true) front
  pub at_least : lo ≤ length front
  pub at_most : length front ≤ hi
  pub continued : k rest ≡ true

stop :
    (p : Item) (lo hi : ℕ) (k : Text → Bool) (s : Text) → lo ≡ 0 → k s ≡ true → Splits p lo hi k s
stop p lo hi k s none_due h = record {
  front = [];
  rest = s;
  whole = refl;
  accepted = tt;
  at_least = omega arith;
  at_most = omega arith;
  continued = h;
}

further :
    (p : Item) (lo hi : ℕ) (k : Text → Bool) (c : ℕ) (s : Text)
    → accepts p c ≡ true
    → 0 < hi
    → Splits p (lo - 1) (hi - 1) k s
    → Splits p lo hi k (c ∷ s)
further p lo hi k c s first some_left more = record {
  front = c ∷ more.front;
  rest = more.rest;
  whole = ap (λ t. c ∷ t) more.whole;
  accepted = (first, more.accepted);
  at_least = omega (arith, more.at_least);
  at_most = omega (arith, more.at_most);
  continued = more.continued;
}

pub repeat_then_sound :
    (p : Item) (lo hi : ℕ) (k : Text → Bool) (s : Text)
    → repeat_then p lo hi k s ≡ true
    → Splits p lo hi k s
unfolding repeat_then
repeat_then_sound p lo hi k [] h = stop p lo hi k [] (ground arith) (ground arith)
repeat_then_sound p lo hi k (c ∷ s) h = elim (Bool-cases (lo == 0 && k (c ∷ s))) [
  | inl here ↦ stop p lo hi k (c ∷ s) (ground arith) (ground arith)
  | inr later ↦
      let more : repeat_then p (lo - 1) (hi - 1) k s ≡ true = ground arith in
      let first : accepts p c ≡ true = ground arith in
      let some_left : 0 < hi = ground arith in
      further p lo hi k c s first some_left (repeat_then_sound p (lo - 1) (hi - 1) k s more)
]

pub repeat_then_complete :
    (p : Item) (lo hi : ℕ) (k : Text → Bool) (front rest : Text)
    → All (λ c. accepts p c ≡ true) front
    → lo ≤ length front
    → length front ≤ hi
    → k rest ≡ true
    → repeat_then p lo hi k (front ++ rest) ≡ true
unfolding repeat_then
repeat_then_complete p lo hi k [] [] a l m h = ground arith
repeat_then_complete p lo hi k [] (c ∷ rest) a l m h = ground arith
repeat_then_complete p lo hi k (c ∷ front) rest (first, others) l m h = ground (
  arith,
  repeat_then_complete p (lo - 1) (hi - 1) k front rest others (omega arith) (omega arith) h,
)
