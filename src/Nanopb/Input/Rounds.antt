-- ===== src/Nanopb/Input/Rounds.antt =====
-- The loops of pb_decode.c that read one byte in each round end: more rounds than there are bytes left
-- change nothing.
use between_us.Prelude.{
  ℕ, zero, suc, ◌+◌, ◌/◌, ◌%◌, ◌<◌, ◌≡◌, refl, Bool, true, false, ◌&&◌, not, if◌then◌else◌, [],
  get_or, leb, ltb, ◌==◌, arith, if_intro,
}
use mathlib.Core.Path.{subst}
use between_us.Prelude.Outcome.{Outcome, ok, fail, M, pure, ◌>>=◌, >>=_same}
use between_us.Nanopb.Error.{varint_overflow}
use between_us.Nanopb.Input.{Istream, return_error, call, take_from_source, pb_read, pb_readbyte}
use between_us.Nanopb.Input.Varint.{
  continues, or_group, bad_extension, varint32_loop, varint32_rest, pb_decode_varint32_eof,
}
use between_us.Nanopb.Input.Fields.{Header, field, eof, error, pb_decode_tag, skip_varint_loop}

else_same :
    {S A : Type 0} (b : Bool) (m n n' : M S A) (s : S)
    → n s ≡ n' s
    → (if b then m else n) s ≡ (if b then m else n') s
else_same true m n n' s e = refl
else_same false m n n' s e = e

then_same :
    {S A : Type 0} (b : Bool) (m m' n : M S A) (s : S)
    → m s ≡ m' s
    → (if b then m else n) s ≡ (if b then m' else n) s
then_same true m m' n s e = e
then_same false m m' n s e = refl

-- A call that succeeds has counted a byte at least.
abbrev pub IsShorter : {A : Type 0} → Istream → Outcome Istream A → Type 0
IsShorter s (ok a t) = t.bytes_left < s.bytes_left
IsShorter s (fail t) = Unit {0}

take_from_source-IsShorter :
    (s : Istream) → (s.bytes_left == 0) ≡ false → IsShorter s (take_from_source 1 s)
take_from_source-IsShorter s h =
    if_intro (IsShorter s) (call s.source 1).0 (λ good. ground (arith, h)) λ bad. tt

IsShorter-pure :
    {A B : Type 0} (s : Istream) (f : A → B) (o : Outcome Istream A)
    → IsShorter s o
    → IsShorter s (elim o as (λ x. Outcome Istream B) [ ok a t ↦ ok (f a) t | fail t ↦ fail t ])
IsShorter-pure s f (ok a t) h = h
IsShorter-pure s f (fail t) h = tt

pub pb_readbyte-IsShorter : (s : Istream) → IsShorter s (pb_readbyte s)
unfolding pb_readbyte
pb_readbyte-IsShorter s =
    if_intro (IsShorter s) (s.bytes_left == 0) (λ none_left. tt)
      λ h.
        IsShorter-pure s (λ bytes. get_or bytes 0 0) (take_from_source 1 s)
          (take_from_source-IsShorter s h)

pb_read-IsShorter : (s : Istream) → IsShorter s (pb_read 1 s)
unfolding pb_read
pb_read-IsShorter s =
    if_intro (IsShorter s) (ltb s.bytes_left 1) (λ short. tt)
      λ h. take_from_source-IsShorter s (ground (arith, h))

-- The multibyte loop of `pb_decode_varint32_eof` on any stream: every number of rounds above `bytes_left` gives
-- the same outcome, so the rounds that the model gives it never run out.
pub varint32_loop_enough :
    (m n bitpos result : ℕ) (s : Istream)
    → s.bytes_left < m
    → s.bytes_left < n
    → varint32_loop m bitpos result s ≡ varint32_loop n bitpos result s
unfolding varint32_loop
varint32_loop_enough zero n bitpos result s h k = absurd (omega arith)
varint32_loop_enough (suc m) zero bitpos result s h k = absurd (omega arith)
varint32_loop_enough (suc m) (suc n) bitpos result s h k = >>=_same pb_readbyte _ _ s λ byte t e.
    let fewer : t.bytes_left < s.bytes_left = subst (IsShorter s) e (pb_readbyte-IsShorter s) in
    let result' : ℕ = if leb 32 bitpos then result else or_group 32 result byte bitpos in
    let bitpos' : ℕ = (bitpos + 7) % 256 in
    let more : ℕ → M Istream ℕ = λ rounds. varint32_loop rounds bitpos' result' in
    let ends : M Istream ℕ =
      if bitpos' == 35 && not (byte / 16 % 8 == 0)
      then return_error varint_overflow
      else pure result' in
    else_same (leb 32 bitpos && bad_extension bitpos result byte) (return_error varint_overflow)
      (if continues byte then more m else ends) (if continues byte then more n else ends) t
      (then_same (continues byte) (more m) (more n) ends t
        (varint32_loop_enough m n bitpos' result' t (omega arith) (omega arith)))

-- The loop of `pb_skip_varint`, likewise: every number of rounds above `bytes_left` gives the same outcome, on
-- any stream.
pub skip_varint_loop_enough :
    (m n : ℕ) (s : Istream)
    → s.bytes_left < m
    → s.bytes_left < n
    → skip_varint_loop m s ≡ skip_varint_loop n s
unfolding skip_varint_loop
skip_varint_loop_enough zero n s h k = absurd (omega arith)
skip_varint_loop_enough (suc m) zero s h k = absurd (omega arith)
skip_varint_loop_enough (suc m) (suc n) s h k = >>=_same (pb_read 1) _ _ s λ bytes t e.
    let fewer : t.bytes_left < s.bytes_left = subst (IsShorter s) e (pb_read-IsShorter s) in
    then_same (continues (get_or bytes 0 0)) (skip_varint_loop m) (skip_varint_loop n) (pure []) t
      (skip_varint_loop_enough m n t (omega arith) (omega arith))

IsShorter->>= :
    {A B : Type 0} (s : Istream) (m : M Istream A) (f : A → M Istream B)
    → IsShorter s (m s)
    → ((a : A) (t : Istream) → t.bytes_left < s.bytes_left → IsShorter s (f a t))
    → IsShorter s ((m >>= f) s)
IsShorter->>= {A} {B} s m f first rest = by_cases (m s) first
  where
    by_cases :
        (o : Outcome Istream A)
        → IsShorter s o
        → IsShorter s (elim o as (λ x. Outcome Istream B) [ ok a t ↦ f a t | fail t ↦ fail t ])
    by_cases (ok a t) h = rest a t h
    by_cases (fail t) h = tt

IsShorter-trans :
    {A : Type 0} (s t : Istream) (o : Outcome Istream A)
    → t.bytes_left < s.bytes_left
    → IsShorter t o
    → IsShorter s o
IsShorter-trans s t (ok a u) h k = omega (arith, h, k)
IsShorter-trans s t (fail u) h k = tt

IsShorter-if :
    {A : Type 0} (b : Bool) (s t : Istream) (m n : M Istream A)
    → IsShorter s (m t)
    → IsShorter s (n t)
    → IsShorter s ((if b then m else n) t)
IsShorter-if true s t m n f g = f
IsShorter-if false s t m n f g = g

varint32_loop-IsShorter :
    (m bitpos result : ℕ) (s : Istream) → IsShorter s (varint32_loop m bitpos result s)
unfolding varint32_loop
varint32_loop-IsShorter zero bitpos result s = tt
varint32_loop-IsShorter (suc m) bitpos result s =
    IsShorter->>= s pb_readbyte _ (pb_readbyte-IsShorter s) λ byte t fewer.
      let result' : ℕ = if leb 32 bitpos then result else or_group 32 result byte bitpos in
      let bitpos' : ℕ = (bitpos + 7) % 256 in
      let more : M Istream ℕ = varint32_loop m bitpos' result' in
      let last : M Istream ℕ =
        if bitpos' == 35 && not (byte / 16 % 8 == 0)
        then return_error varint_overflow
        else pure result' in
      IsShorter-if (leb 32 bitpos && bad_extension bitpos result byte) s t
        (return_error varint_overflow) (if continues byte then more else last) tt
        (IsShorter-if (continues byte) s t more last
          (IsShorter-trans s t (more t) fewer (varint32_loop-IsShorter m bitpos' result' t))
          (IsShorter-if (bitpos' == 35 && not (byte / 16 % 8 == 0)) s t
            (return_error varint_overflow) (pure result') tt fewer))

pb_decode_varint32_eof-IsShorter : (s : Istream) → IsShorter s (pb_decode_varint32_eof s).1
unfolding pb_decode_varint32_eof
pb_decode_varint32_eof-IsShorter s = by_byte (pb_readbyte s) (pb_readbyte-IsShorter s)
  where
    by_byte :
        (o : Outcome Istream ℕ)
        → IsShorter s o
        → IsShorter s
            (elim o as (λ x. Bool × Outcome Istream ℕ) [
              | ok byte s' ↦ (false, varint32_rest byte s')
              | fail s' ↦ (s'.bytes_left == 0, fail s')
            ]).1
    by_byte (ok byte t) h =
        if_intro (IsShorter s) (continues byte)
          (λ more.
            IsShorter-trans s t _ h (varint32_loop-IsShorter (suc t.bytes_left) 7 (byte % 128) t))
          λ last. h
    by_byte (fail t) h = tt

-- A header that has been read is counted.
abbrev pub IsCounted : Istream → Header → Type 0
IsCounted s (field tag wire_type t) = t.bytes_left < s.bytes_left
IsCounted s h = Unit {0}

pub pb_decode_tag-IsCounted : (s : Istream) → IsCounted s (pb_decode_tag s)
unfolding pb_decode_tag
pb_decode_tag-IsCounted s =
    by_outcome (pb_decode_varint32_eof s) (pb_decode_varint32_eof-IsShorter s)
  where
    by_outcome :
        (r : Bool × Outcome Istream ℕ)
        → IsShorter s r.1
        → IsCounted s (elim r.1 as (λ x. Header) [
          | ok temp s' ↦ if temp == 0 then eof s' else field (temp / 8) (temp % 8) s'
          | fail s' ↦ if r.0 then eof s' else error s'
        ])
    by_outcome (at_end, ok temp t) h = if_intro (IsCounted s) (temp == 0) (λ end. tt) λ tag. h
    by_outcome (at_end, fail t) h = if_intro (IsCounted s) at_end (λ end. tt) λ bad. tt
