-- ===== src/Nanopb/Output/Counts.antt =====
-- A call on a stream over a buffer and on a stream that only counts: what the first one writes, the
-- second one counts.
use between_us.Prelude.{
  ℕ, ◌+◌, ◌^◌, ◌<◌, ◌≡◌, refl, Bool, true, false, if◌then◌else◌, List, ◌++◌, length, arith,
}
use between_us.Prelude.Outcome.{Outcome, ok, fail, M, pure, ◌>>=◌}
use between_us.Nanopb.Error.{Error}
use between_us.Nanopb.Output.{Ostream, buffer, sizing, add_size, return_error, pb_write, call}
use between_us.Nanopb.Output.Scalars.{
  varint_bytes, pb_encode_varint, pb_encode_svarint, pb_encode_tag, zigzag, tag_value,
  fixed32_bytes, fixed64_bytes, pb_encode_fixed32, pb_encode_fixed64, pb_encode_string,
}
use between_us.Nanopb.Output.Laws.{IsBounded, length-varint_bytes, pb_write_fits, pb_write_full}
use native.Mathlib.Decide.{dec_le}

-- `s` writes to a buffer within its size, `t` only counts, and `s` is ahead by `k`.
pub record Pair (k : ℕ) (s t : Ostream) : Type 0 where
  pub written : List ℕ
  pub stored : s.sink ≡ buffer written
  pub bounded : IsBounded s
  pub counts : t.sink ≡ sizing
  pub ahead : t.bytes_written + k ≡ s.bytes_written

-- Where the call on the buffer has succeeded, the counting call has too, with the same distance.
abbrev pub Agree : ℕ → Outcome Ostream (Unit {0}) → Outcome Ostream (Unit {0}) → Type 0
Agree k (ok a s) (ok b t) = Pair k s t
Agree k (ok a s) (fail t) = ⊥
Agree k (fail s) o = Unit {0}

pub record Same (k : ℕ) (o o' : Outcome Ostream (Unit {0})) : Type 0 where
  pub agree : Agree k o o'

-- A call with this property may be made on any two streams.
pub record Counting (m : M Ostream (Unit {0})) : Type 0 where
  pub run : (k : ℕ) (s t : Ostream) → Pair k s t → Same k (m s) (m t)

pub Counting-pure : Counting (pure tt)
Counting-pure = record { run = λ k s t p. record { agree = p } }

pub Counting-fail : Counting fail
Counting-fail = record { run = λ k s t p. record { agree = tt } }

pub Counting-return_error : (e : Error) → Counting (return_error e)
Counting-return_error e = record { run = λ k s t p. record { agree = tt } }

pub Counting->>= :
    (m : M Ostream (Unit {0})) (f : Unit {0} → M Ostream (Unit {0}))
    → Counting m
    → ((a : Unit {0}) → Counting (f a))
    → Counting (m >>= f)
Counting->>= m f first rest = record { run = λ k s t p. by_cases k (m s) (m t) (first.run k s t p) }
  where
    by_cases :
        (k : ℕ) (o o' : Outcome Ostream (Unit {0}))
        → Same k o o'
        → Same k
            (elim o as (λ x. Outcome Ostream (Unit {0})) [ ok a s ↦ f a s | fail s ↦ fail s ])
            (elim o' as (λ x. Outcome Ostream (Unit {0})) [ ok a s ↦ f a s | fail s ↦ fail s ])
    by_cases k (ok a s) (ok b t) h = (rest a).run k s t h.agree
    by_cases k (ok a s) (fail t) h = absurd h.agree
    by_cases k (fail s) o h = record { agree = tt }

pub Counting-if :
    (b : Bool) (m n : M Ostream (Unit {0}))
    → Counting m
    → Counting n
    → Counting (if b then m else n)
Counting-if true m n f g = f
Counting-if false m n f g = g

pub Same-if :
    (b : Bool) (k : ℕ) (x y x' y' : Outcome Ostream (Unit {0}))
    → Same k x x'
    → Same k y y'
    → Same k (if b then x else y) (if b then x' else y')
Same-if true k x y x' y' f g = f
Same-if false k x y x' y' f g = g

pub pb_write-sizing :
    (buf : List ℕ) (t : Ostream)
    → t.sink ≡ sizing
    → pb_write buf t ≡ ok tt (record t { bytes_written = add_size t.bytes_written (length buf) })
unfolding pb_write call
pb_write-sizing buf t h = ground (arith, h)

pb_write-Same :
    (buf : List ℕ) (k : ℕ) (s t : Ostream)
    → length buf < 2 ^ 64
    → Pair k s t
    → Same k (pb_write buf s) (pb_write buf t)
pb_write-Same buf k s t short p = elim (dec_le (s.bytes_written + length buf) s.max_size) [
  | yes room ↦
      rw (pb_write_fits buf p.written s p.stored p.bounded room, pb_write-sizing buf t p.counts)
        (record {
          agree = record {
            written = p.written ++ buf;
            stored = refl;
            bounded = record { fits = room; size = p.bounded.size };
            counts = p.counts;
            ahead = omega arith;
          };
        })
  | no full ↦
      rw (pb_write_full buf p.written s p.stored p.bounded short (omega arith))
        (record { agree = tt })
]

pub pb_write-Counting : (buf : List ℕ) → length buf < 2 ^ 64 → Counting (pb_write buf)
pb_write-Counting buf short = record { run = λ k s t p. pb_write-Same buf k s t short p }

pub pb_encode_varint-Counting : (v : ℕ) → Counting (pb_encode_varint v)
unfolding pb_encode_varint
pb_encode_varint-Counting v =
    pb_write-Counting (varint_bytes v) (omega (arith, length-varint_bytes v))

pub pb_encode_svarint-Counting : (v : ℕ) → Counting (pb_encode_svarint v)
unfolding pb_encode_svarint
pb_encode_svarint-Counting v = pb_encode_varint-Counting (zigzag v)

pub pb_encode_tag-Counting : (wiretype number : ℕ) → Counting (pb_encode_tag wiretype number)
unfolding pb_encode_tag
pb_encode_tag-Counting wiretype number = pb_encode_varint-Counting (tag_value wiretype number)

pub pb_encode_fixed32-Counting : (v : ℕ) → Counting (pb_encode_fixed32 v)
unfolding pb_encode_fixed32
pb_encode_fixed32-Counting v =
    pb_write-Counting (fixed32_bytes v) (unfold fixed32_bytes in omega arith)

pub pb_encode_fixed64-Counting : (v : ℕ) → Counting (pb_encode_fixed64 v)
unfolding pb_encode_fixed64
pb_encode_fixed64-Counting v =
    pb_write-Counting (fixed64_bytes v) (unfold fixed64_bytes in omega arith)

pub pb_encode_string-Counting :
    (bytes : List ℕ) → length bytes < 2 ^ 64 → Counting (pb_encode_string bytes)
unfolding pb_encode_string
pb_encode_string-Counting bytes short =
    Counting->>= (pb_encode_varint (length bytes)) (λ _. pb_write bytes)
      (pb_encode_varint-Counting (length bytes)) (λ _. pb_write-Counting bytes short)

pub ruleset counting = (
  Counting-pure, Counting-fail, Counting-return_error, Counting->>=, Counting-if,
  pb_encode_varint-Counting, pb_encode_svarint-Counting, pb_encode_tag-Counting,
  pb_encode_fixed32-Counting, pb_encode_fixed64-Counting, pb_encode_string-Counting,
)
