-- ===== src/Nanopb/Input/Laws.antt =====
-- What a call may do to an input stream over memory: it takes bytes from the front, and it never takes
-- more than `bytes_left` allows.
use between_us.Prelude.{
  ℕ, zero, suc, ◌+◌, ◌-◌, ◌≤◌, ◌≡◌, refl, ap, ◌∙◌, Bool, true, false, if◌then◌else◌, List, [], ◌∷◌,
  drop, ltb, inl, inr, Bool-cases, ◌==◌, arith,
}
use between_us.Prelude.Outcome.{Outcome, ok, fail, M, pure, ◌>>=◌, final, final->>=}
use between_us.Nanopb.Error.{Error, end_of_stream}
use between_us.Nanopb.Input.{
  Istream, memory, return_error, call, buf_read, take_from_source, pb_read, is_buffer, skip_blocks,
  pb_skip, pb_readbyte,
}

-- The stream `t` comes of `s`, which stands at `bytes`, by taking bytes within `bytes_left`.
pub record Takes (s : Istream) (bytes : List ℕ) (t : Istream) : Type 0 where
  pub taken : ℕ
  pub stands : t.source ≡ memory (drop taken bytes)
  pub within : taken + t.bytes_left ≤ s.bytes_left

abbrev pub Consumes : Istream → Istream → Type 0
Consumes s t = (bytes : List ℕ) → s.source ≡ memory bytes → Takes s bytes t

-- A call with this property may be made on any stream.
pub record Consuming {A : Type 0} (m : M Istream A) : Type 0 where
  pub run : (s : Istream) → Consumes s (final (m s))

drop_nil : (n : ℕ) → drop {A = ℕ} n [] ≡ []
drop_nil zero = refl
drop_nil (suc n) = refl

drop-drop : (m n : ℕ) (xs : List ℕ) → drop n (drop m xs) ≡ drop (m + n) xs
drop-drop zero n xs = let e : n ≡ 0 + n = omega arith in ap (λ (k : ℕ). drop k xs) e
drop-drop (suc m) n [] = rw (drop_nil n, drop_nil (suc m + n)) refl
drop-drop (suc m) n (x ∷ xs) =
    let e : suc (m + n) ≡ suc m + n = omega arith in
    drop-drop m n xs ∙ ap (λ (k : ℕ). drop k (x ∷ xs)) e

pub nothing_taken :
    (s t : Istream) → t.source ≡ s.source → t.bytes_left ≤ s.bytes_left → Consumes s t
nothing_taken s t same left bytes stands = record {
  taken = 0;
  stands = same ∙ stands;
  within = omega arith;
}

pub Consumes-refl : (s : Istream) → Consumes s s
Consumes-refl s = nothing_taken s s refl (omega arith)

pub Consumes-trans : (s t u : Istream) → Consumes s t → Consumes t u → Consumes s u
Consumes-trans s t u f g bytes stands =
    let first = f bytes stands in
    let rest = g (drop first.taken bytes) first.stands in
    record {
      taken = first.taken + rest.taken;
      stands = rest.stands ∙ ap memory (drop-drop first.taken rest.taken bytes);
      within = omega (arith, first.within, rest.within);
    }

pub Consuming-pure : {A : Type 0} (a : A) → Consuming (pure a)
Consuming-pure a = record { run = λ s. Consumes-refl s }

pub Consuming-fail : (A : Type 0) → Consuming {A = A} fail
Consuming-fail A = record { run = λ s. Consumes-refl s }

pub Consuming-return_error : (A : Type 0) (e : Error) → Consuming (return_error {A = A} e)
Consuming-return_error A e = record { run = λ s. nothing_taken s _ refl (omega arith) }

pub Consuming->>= :
    {A B : Type 0} (m : M Istream A) (f : A → M Istream B)
    → Consuming m
    → ((a : A) → Consuming (f a))
    → Consuming (m >>= f)
Consuming->>= m f first rest = record {
  run = λ s.
      final->>= Consumes m f s (λ x y z. Consumes-trans x y z) (first.run s)
        (λ a t. (rest a).run t);
}

pub Consuming-if :
    {A : Type 0} (b : Bool) (m n : M Istream A)
    → Consuming m
    → Consuming n
    → Consuming (if b then m else n)
Consuming-if true m n f g = f
Consuming-if false m n f g = g

pub Consumes-if :
    {A : Type 0} (b : Bool) (s : Istream) (x y : Outcome Istream A)
    → Consumes s (final x)
    → Consumes s (final y)
    → Consumes s (final (if b then x else y))
Consumes-if true s x y f g = f
Consumes-if false s x y f g = g

-- A call of `buf_read` that is within `bytes_left`.
take-Takes :
    (count : ℕ) (s : Istream) (bytes : List ℕ)
    → count ≤ s.bytes_left
    → s.source ≡ memory bytes
    → Takes s bytes (final (take_from_source count s))
unfolding call buf_read
take-Takes count s bytes room stands = record {
  taken = count;
  stands = ground (arith, stands);
  within = ground (arith, stands);
}

pub pb_read-Consuming : (count : ℕ) → Consuming (pb_read count)
unfolding pb_read
pb_read-Consuming count = record {
  run = λ s.
      Consumes-if (count == 0) s (ok [] s) _ (Consumes-refl s)
        (elim (Bool-cases (ltb s.bytes_left count)) [
          | inl short ↦ rw short ((Consuming-return_error (List ℕ) end_of_stream).run s)
          | inr room ↦ rw room (λ bytes. take-Takes count s bytes (ground (arith, room)))
        ]);
}

skip_blocks-Consuming : (rounds count : ℕ) → Consuming (skip_blocks rounds count)
unfolding skip_blocks
skip_blocks-Consuming zero count = pb_read-Consuming count
skip_blocks-Consuming (suc rounds) count =
    Consuming-if (ltb 16 count) _ _
      (Consuming->>= (pb_read 16) _ (pb_read-Consuming 16)
        (λ bytes. skip_blocks-Consuming rounds (count - 16)))
      (pb_read-Consuming count)

pub pb_skip-Consuming : (count : ℕ) → Consuming (pb_skip count)
unfolding pb_skip
pb_skip-Consuming count = record {
  run = λ s. Consumes-if (count == 0) s (ok [] s) _ (Consumes-refl s) (
      Consumes-if (is_buffer s.source) s _ _ ((pb_read-Consuming count).run s)
        ((skip_blocks-Consuming count count).run s));
}

pub pb_readbyte-Consuming : Consuming pb_readbyte
unfolding pb_readbyte
pb_readbyte-Consuming = record {
  run = λ s. elim (Bool-cases (s.bytes_left == 0)) [
    | inl none_left ↦ rw none_left ((Consuming-return_error ℕ end_of_stream).run s)
    | inr some_left ↦ rw some_left (
        final->>= Consumes (take_from_source 1) _ s (λ x y z. Consumes-trans x y z)
          (λ bytes. take-Takes 1 s bytes (ground (arith, some_left))) (λ bytes t. Consumes-refl t))
  ];
}
