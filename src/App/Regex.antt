-- ===== src/App/Regex.antt =====
-- Regular expressions as `NSPredicate(format: "SELF MATCHES %@", regex)` reads them: what the patterns
-- of BetweenUS/BetweenUS/ViewController/Rogin/loginViewModel.swift use. A text is a list of code points.
pub mod Laws
use between_us.Prelude.{
  ℕ, ◌-◌, ◌≡◌, Bool, true, false, not, ◌&&◌, ◌||◌, List, [], ◌∷◌, leb, ◌==◌, length, All,
}
use mathlib.Core.Option.{Option, none, some, get_or}

abbrev pub Text : Type 0
Text = List ℕ

-- A class in brackets is a list of ranges; `.` is any code point but a line terminator.
pub data Item : Type 0 where
  class : List (ℕ × ℕ) → Item
  dot : Item

-- `r{lo,hi}`, `r+` and `r*` apply to items only; `(?=r)` is a lookahead.
pub data Regex : Type 0 where
  one : Item → Regex
  repeated : Item → ℕ → Option ℕ → Regex
  seq : Regex → Regex → Regex
  ahead : Regex → Regex

unfoldable pub in_ranges : List (ℕ × ℕ) → ℕ → Bool
in_ranges [] c = false
in_ranges ((lo, hi) ∷ ranges) c = (leb lo c && leb c hi) || in_ranges ranges c

unfoldable pub is_line_terminator : ℕ → Bool
is_line_terminator c = (leb 0x0a c && leb c 0x0d) || c == 0x85 || c == 0x2028 || c == 0x2029

unfoldable pub accepts : Item → ℕ → Bool
unfolding in_ranges is_line_terminator
accepts (class ranges) c = in_ranges ranges c
accepts dot c = not (is_line_terminator c)

-- Matching with what is left to match: `k` is asked at every place where the repetition may stop.
unfoldable pub repeat_then : Item → ℕ → ℕ → (Text → Bool) → Text → Bool
repeat_then p lo hi k [] = lo == 0 && k []
repeat_then p lo hi k (c ∷ s) =
    let more = repeat_then p (lo - 1) (hi - 1) k s in
    (lo == 0 && k (c ∷ s)) || (not (hi == 0) && accepts p c && more)

unfoldable pub one_then : Item → (Text → Bool) → Text → Bool
one_then p k [] = false
one_then p k (c ∷ s) = accepts p c && k s

-- An upper bound that is not there is that of the text.
unfoldable pub match_then : Regex → (Text → Bool) → Text → Bool
unfolding one_then repeat_then
match_then (one p) k s = one_then p k s
match_then (repeated p lo hi) k s = repeat_then p lo (get_or hi (length s)) k s
match_then (seq r t) k s = match_then r (match_then t k) s
match_then (ahead r) k s = match_then r (λ _. true) s && k s

unfoldable pub at_end : Text → Bool
at_end [] = true
at_end (c ∷ s) = false

-- `MATCHES`: the whole text.
unfoldable pub matches : Regex → Text → Bool
unfolding match_then at_end
matches r s = match_then r at_end s
