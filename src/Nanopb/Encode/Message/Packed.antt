-- ===== src/Nanopb/Encode/Message/Packed.antt =====
-- The size of a packed array is what its entries come to.
use between_us.Prelude.{
  List, ℕ, zero, suc, ◌+◌, ◌*◌, ◌%◌, ◌^◌, ◌<◌, ◌≡◌, refl, sym, ap, ◌∙◌, true, false, arith,
}
use between_us.Prelude.{◌==◌, inl, inr, Bool-cases}
use between_us.Prelude.Outcome.{Outcome, ok, fail, M, final, >>=_ok}
use between_us.Nanopb.Output.{buffer, Ostream, sizing, sizing_stream, count_only, add_size}
use between_us.Nanopb.Output.Scalars.{
  pb_encode_fixed32, pb_encode_fixed64, fixed32_bytes, fixed64_bytes,
}
use between_us.Nanopb.Output.Counts.{
  Pair, Same, Counting, Counting-pure, Counting->>=, pb_write-sizing,
}
use between_us.Nanopb.Field.{Field, ltype, Memory}
use between_us.Nanopb.Field.Ltype
use between_us.Nanopb.Encode.Value.{encode_value, pb_enc_fixed32, pb_enc_fixed64}
use between_us.Nanopb.Encode.Message.{Externals, encode_each, packed_size, write_packed}

pub encode_each-Counting :
    (value : ℕ → M Ostream (Unit {0})) (step count p : ℕ)
    → ((q : ℕ) → Counting (value q))
    → Counting (encode_each value step count p)
unfolding encode_each
encode_each-Counting value step zero p h = Counting-pure
encode_each-Counting value step (suc count) p h =
    Counting->>= _ _ (h p) (λ _. encode_each-Counting value step count (p + step) h)

counted :
    (t : Ostream) {a b : ℕ}
    → a ≡ b
    → ok tt (record t { bytes_written = a }) ≡ ok tt (record t { bytes_written = b })
counted t e = ap (λ (c : ℕ). ok tt (record t { bytes_written = c })) e

-- Entries of one width, on a stream that only counts.
encode_each-width :
    (value : ℕ → M Ostream (Unit {0})) (n step count p : ℕ) (t : Ostream)
    → ((q : ℕ) (u : Ostream)
        → u.sink ≡ sizing
        → value q u ≡ ok tt (record u { bytes_written = add_size u.bytes_written n }))
    → t.sink ≡ sizing
    → t.bytes_written < 2 ^ 64
    → encode_each value step count p t
      ≡ ok tt (record t { bytes_written = (t.bytes_written + n * count) % 2 ^ 64 })
unfolding encode_each
encode_each-width value n step zero p t h empty small = counted t (omega (arith, small))
encode_each-width value n step (suc count) p t h empty small =
    let u : Ostream = record t { bytes_written = add_size t.bytes_written n } in
    let rest = encode_each-width value n step count (p + step) u h empty (omega arith) in
    let more : n * suc count ≡ n + n * count = grind arith in
    >>=_ok (value p) _ t u tt (h p t empty) ∙ rest ∙ counted t (omega (arith, more))

-- The entries of a packed array on the two streams: written, and counted by the size.
pub each-Same :
    (value : ℕ → M Ostream (Unit {0})) (step count p k size : ℕ) (s t v : Ostream)
    → ((q : ℕ) → Counting (value q))
    → encode_each value step count p sizing_stream ≡ ok tt v
    → v.bytes_written % 2 ^ 64 ≡ size % 2 ^ 64
    → Pair k s t
    → Same k (encode_each value step count p s) (count_only size t)
unfolding count_only
each-Same value step count p k size s t v h e total pair =
    let ahead : Pair s.bytes_written s sizing_stream = record {
      written = pair.written;
      stored = pair.stored;
      bounded = pair.bounded;
      counts = refl;
      ahead = omega arith;
    } in
    let both =
      (encode_each-Counting value step count p h).run s.bytes_written s sizing_stream ahead in
    by_written (encode_each value step count p s) (rw⁻¹ e both)
  where
    by_written :
        (o : Outcome Ostream (Unit {0}))
        → Same s.bytes_written o (ok tt v)
        → Same k o (count_only size t)
    by_written (fail u) both = record { agree = tt }
    by_written (ok a u) both =
        let q : Pair s.bytes_written u v = both.agree in
        record {
          agree = record {
            written = q.written;
            stored = q.stored;
            bounded = q.bounded;
            counts = pair.counts;
            ahead = omega (arith, q.ahead, pair.ahead, total, q.bounded.fits, q.bounded.size);
          };
        }

module _ (ext : Externals) (m : Memory) (depth : ℕ) (sub : ℕ → ℕ → M Ostream (Unit {0})) where
  fixed32_width :
      (f : Field) (q : ℕ) (u : Ostream)
      → (ltype f == Ltype.fixed32) ≡ true
      → u.sink ≡ sizing
      → encode_value m sub f q u ≡ ok tt (record u { bytes_written = add_size u.bytes_written 4 })
  unfolding encode_value pb_enc_fixed32 pb_encode_fixed32 fixed32_bytes
  fixed32_width f q u e h =
      let four : f.type % 16 ≡ 4 = ground (arith, e) in rw four (pb_write-sizing _ u h)

  fixed64_width :
      (f : Field) (q : ℕ) (u : Ostream)
      → (ltype f == Ltype.fixed64) ≡ true
      → u.sink ≡ sizing
      → encode_value m sub f q u ≡ ok tt (record u { bytes_written = add_size u.bytes_written 8 })
  unfolding encode_value pb_enc_fixed64 pb_encode_fixed64 fixed64_bytes
  fixed64_width f q u e h =
      let five : f.type % 16 ≡ 5 = ground (arith, e) in rw five (pb_write-sizing _ u h)

  -- The entries of a packed array on a counting stream come to its size.
  pub record Counted (f : Field) (a count size : ℕ) : Type 0 where
    pub behind : Ostream
    pub counts : encode_each (encode_value m sub f) f.data_size count a sizing_stream ≡ ok tt behind
    pub total : behind.bytes_written % 2 ^ 64 ≡ size % 2 ^ 64

  packed_size-fixed32 :
      (f : Field) (a count : ℕ)
      → (ltype f == Ltype.fixed32) ≡ true
      → packed_size ext m depth sub f a count
        ≡ ok tt (record sizing_stream { bytes_written = 4 * count })
  unfolding packed_size
  packed_size-fixed32 f a count e = rw e refl

  packed_size-fixed64 :
      (f : Field) (a count : ℕ)
      → (ltype f == Ltype.fixed64) ≡ true
      → packed_size ext m depth sub f a count
        ≡ ok tt (record sizing_stream { bytes_written = 8 * count })
  unfolding packed_size
  packed_size-fixed64 f a count e = let five : f.type % 16 ≡ 5 = ground (arith, e) in rw five refl

  packed_size-others :
      (f : Field) (a count : ℕ)
      → (ltype f == Ltype.fixed32) ≡ false
      → (ltype f == Ltype.fixed64) ≡ false
      → packed_size ext m depth sub f a count
        ≡ encode_each (encode_value m sub f) f.data_size count a sizing_stream
  unfolding packed_size
  packed_size-others f a count e e' = rw (e, e') refl

  -- What is announced for entries of `n` bytes.
  width-Counted :
      (n : ℕ) (f : Field) (a count : ℕ) (u : Ostream)
      → ((q : ℕ) (t : Ostream)
          → t.sink ≡ sizing
          → encode_value m sub f q t
            ≡ ok tt (record t { bytes_written = add_size t.bytes_written n }))
      → ok tt u ≡ ok tt (record sizing_stream { bytes_written = n * count })
      → Counted f a count u.bytes_written
  width-Counted n f a count u h e = record {
    behind = _;
    counts =
        encode_each-width (encode_value m sub f) n f.data_size count a sizing_stream h refl
          (omega arith);
    total = omega (arith, ap (λ (o : Outcome Ostream (Unit {0})). (final o).bytes_written) e);
  }

  pub packed_size-Counted :
      (f : Field) (a count : ℕ) (u : Ostream)
      → packed_size ext m depth sub f a count ≡ ok tt u
      → Counted f a count u.bytes_written
  packed_size-Counted f a count u e = elim (Bool-cases (ltype f == Ltype.fixed32)) [
    | inl four ↦
        width-Counted 4 f a count u (λ q t h. fixed32_width f q t four h)
          (sym e ∙ packed_size-fixed32 f a count four)
    | inr not_four ↦ elim (Bool-cases (ltype f == Ltype.fixed64)) [
      | inl eight ↦
          width-Counted 8 f a count u (λ q t h. fixed64_width f q t eight h)
            (sym e ∙ packed_size-fixed64 f a count eight)
      | inr not_eight ↦ record {
        behind = u;
        counts = sym (packed_size-others f a count not_four not_eight) ∙ e;
        total = refl;
      }
    ]
  ]

  -- What follows the size, on the two streams.
  pub write_packed-stored :
      (f : Field) (a count size : ℕ) (s : Ostream) (w : List ℕ)
      → s.sink ≡ buffer w
      → write_packed ext m depth sub f a count size s
        ≡ encode_each (encode_value m sub f) f.data_size count a s
  unfolding write_packed
  write_packed-stored f a count size s w stored = rw stored

  pub write_packed-sizing :
      (f : Field) (a count size : ℕ) (t : Ostream)
      → t.sink ≡ sizing
      → write_packed ext m depth sub f a count size t ≡ count_only size t
  unfolding write_packed
  write_packed-sizing f a count size t h = rw h refl
