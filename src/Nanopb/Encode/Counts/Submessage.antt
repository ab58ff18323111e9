-- ===== src/Nanopb/Encode/Counts/Submessage.antt =====
-- What a submessage writes, its first pass counts.
use between_us.Prelude.{ℕ, ◌+◌, ◌^◌, ◌≤◌, ◌<◌, ◌≡◌, refl}
use between_us.Prelude.{arith}
use between_us.Prelude.Outcome.{Outcome, ok, fail, M, ◌>>=◌, final}
use between_us.Nanopb.Error.{invalid_field_type}
use between_us.Nanopb.Output.{Ostream, sizing, sizing_stream, count_only}
use between_us.Nanopb.Output.Scalars.{pb_encode_varint}
use between_us.Nanopb.Output.Counts.{
  Pair, Same, Counting, Counting-if, Counting-return_error, Counting->>=, pb_encode_varint-Counting,
  counting,
}
use native.Mathlib.Decide.{dec_le}
use between_us.Nanopb.Field.{Field, Memory}
use between_us.Nanopb.Encode.Grow.{
  IsMemory, inner_stream, write_submessage_room, write_submessage_full,
}
use between_us.Nanopb.Encode.Value.{
  finish_submessage, write_submessage, pb_encode_submessage, pb_enc_submessage, encode_value,
}
use between_us.Nanopb.Encode.Counts.{
  pb_enc_bool-Counting, pb_enc_varint-Counting, pb_enc_uvarint-Counting, pb_enc_svarint-Counting,
  pb_enc_fixed32-Counting, pb_enc_fixed64-Counting, pb_enc_bytes-Counting, pb_enc_string-Counting,
  pb_enc_fixed_length_bytes-Counting,
}

-- How submessages are encoded: what a pass writes, the other one counts, and none has 2 ^ 63 bytes or more.
pub record IsCounter (sub : ℕ → ℕ → M Ostream (Unit {0})) : Type 0 where
  pub counts : (fields src : ℕ) → Counting (sub fields src)
  pub small :
      (fields src : ℕ) (t : Ostream)
      → sub fields src sizing_stream ≡ ok tt t
      → t.bytes_written < 2 ^ 63

Same-ok :
    (k : ℕ) (s t : Ostream) (o o' : Outcome Ostream (Unit {0}))
    → o ≡ ok tt s
    → o' ≡ ok tt t
    → Pair k s t
    → Same k o o'
Same-ok k s t o o' e e' p = rw (e, e') (record { agree = p })

Same-fail : (k : ℕ) (s : Ostream) (o o' : Outcome Ostream (Unit {0})) → o ≡ fail s → Same k o o'
Same-fail k s o o' e = rw e (record { agree = tt })

-- A second pass that fails makes the whole fail.
finish_submessage_fail :
    (size : ℕ) (v s : Ostream)
    → finish_submessage size (fail v) s ≡ fail (final (finish_submessage size (fail v) s))
unfolding finish_submessage
finish_submessage_fail size v s = ground arith

finish_submessage_ok :
    (size : ℕ) (v s : Ostream)
    → v.bytes_written ≡ size
    → s.bytes_written + size < 2 ^ 64
    → finish_submessage size (ok tt v) s
      ≡ ok tt
          (record s { sink = v.sink; bytes_written = s.bytes_written + size; errmsg = v.errmsg })
unfolding finish_submessage
finish_submessage_ok size v s e room = ground (arith, e)

-- The first pass counted `u`; the second one writes through `inner_stream s size`.
finish_submessage-Same :
    (k size : ℕ) (s t u : Ostream) (o : Outcome Ostream (Unit {0}))
    → Pair k s t
    → s.bytes_written + size ≤ s.max_size
    → u.bytes_written ≡ size
    → Same 0 o (ok tt u)
    → Same k (finish_submessage size o s) (count_only size t)
unfolding count_only
finish_submessage-Same k size s t u (fail v) p room e h =
    Same-fail k _ _ _ (finish_submessage_fail size v s)
finish_submessage-Same k size s t u (ok a v) p room e h =
    let inner : Pair 0 v u = h.agree in
    let same : v.bytes_written ≡ size = omega (arith, inner.ahead, e) in
    let sum : s.bytes_written + size < 2 ^ 64 = omega (arith, p.bounded.size) in
    Same-ok k _ _ _ _ (finish_submessage_ok size v s same sum) refl (record {
      written = inner.written;
      stored = inner.stored;
      bounded = record { fits = room; size = p.bounded.size };
      counts = p.counts;
      ahead = omega (arith, p.ahead);
    })

module _ (m : Memory) (sub : ℕ → ℕ → M Ostream (Unit {0})) (is_counter : IsCounter sub) where
  write_submessage-sizing :
      (fields src size : ℕ) (t : Ostream)
      → t.sink ≡ sizing
      → write_submessage m sub fields src size t ≡ count_only size t
  unfolding write_submessage
  write_submessage-sizing fields src size t h = rw h refl

  write_submessage-Same :
      (fields src k : ℕ) (s t u : Ostream)
      → sub fields src sizing_stream ≡ ok tt u
      → Pair k s t
      → Same k
          (write_submessage m sub fields src u.bytes_written s)
          (write_submessage m sub fields src u.bytes_written t)
  write_submessage-Same fields src k s t u e p =
      let size = u.bytes_written in
      let small = is_counter.small fields src u e in
      elim (dec_le (s.bytes_written + size) s.max_size) [
        | yes room ↦
            let inner : Pair 0 (inner_stream s size) sizing_stream = record {
              written = p.written;
              stored = p.stored;
              bounded = record { fits = omega arith; size = small };
              counts = refl;
              ahead = refl;
            } in
            let passes =
              (is_counter.counts fields src).run 0 (inner_stream s size) sizing_stream inner in
            rw
              (
                write_submessage_room m sub fields src size s p.written p.stored p.bounded room,
                write_submessage-sizing fields src size t p.counts,
              )
              (finish_submessage-Same k size s t u _ p room refl (rw⁻¹ e passes))
        | no full ↦ Same-fail k _ _ _ (
            write_submessage_full m sub fields src size s p.written p.stored p.bounded small
              (omega arith))
      ]

  by_first_pass :
      (fields src k : ℕ) (s t : Ostream) (o : Outcome Ostream (Unit {0}))
      → sub fields src sizing_stream ≡ o
      → Pair k s t
      → Same k
          (elim o as (λ x. Outcome Ostream (Unit {0})) [
            | fail u ↦ fail (record s { errmsg = u.errmsg })
            | ok a u ↦
                (pb_encode_varint u.bytes_written >>= λ _.
                write_submessage m sub fields src u.bytes_written)
                  s
          ])
          (elim o as (λ x. Outcome Ostream (Unit {0})) [
            | fail u ↦ fail (record t { errmsg = u.errmsg })
            | ok a u ↦
                (pb_encode_varint u.bytes_written >>= λ _.
                write_submessage m sub fields src u.bytes_written)
                  t
          ])
  by_first_pass fields src k s t (fail u) e p = record { agree = tt }
  by_first_pass fields src k s t (ok a u) e p =
      let rest : Counting (write_submessage m sub fields src u.bytes_written) = record {
        run = λ k' s' t' p'. write_submessage-Same fields src k' s' t' u e p';
      } in
      (Counting->>= _ _ (pb_encode_varint-Counting u.bytes_written) (λ _. rest)).run k s t p

  pb_encode_submessage-Counting :
      (fields src : ℕ) → Counting (pb_encode_submessage m sub fields src)
  unfolding pb_encode_submessage
  pb_encode_submessage-Counting fields src = record {
    run = λ k s t p. by_first_pass fields src k s t (sub fields src sizing_stream) refl p;
  }

  pb_enc_submessage-Counting : (f : Field) (src : ℕ) → Counting (pb_enc_submessage m sub f src)
  unfolding pb_enc_submessage
  pb_enc_submessage-Counting f src = search (counting, pb_encode_submessage-Counting)

  -- Every field encoder counts what it writes, for a field whose size is a `pb_size_t`.
  pub encode_value-Counting :
      IsMemory m
      → (f : Field) (src : ℕ) → f.data_size < 2 ^ 32
      → Counting (encode_value m sub f src)
  unfolding encode_value
  encode_value-Counting is_memory f src small = Counting-if _ _ _ (pb_enc_bool-Counting m src) (
      Counting-if _ _ _ (pb_enc_varint-Counting m f src) (
        Counting-if _ _ _ (pb_enc_uvarint-Counting m f src) (
          Counting-if _ _ _ (pb_enc_svarint-Counting m f src) (
            Counting-if _ _ _ (pb_enc_fixed32-Counting m src) (
              Counting-if _ _ _ (pb_enc_fixed64-Counting m src) (
                Counting-if _ _ _ (pb_enc_bytes-Counting m is_memory f src) (
                  Counting-if _ _ _ (pb_enc_string-Counting m f src small) (
                    Counting-if _ _ _ (pb_enc_submessage-Counting f src) (
                      Counting-if _ _ _ (pb_enc_fixed_length_bytes-Counting m f src small)
                        (Counting-return_error invalid_field_type))))))))))
