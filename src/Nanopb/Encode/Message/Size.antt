-- ===== src/Nanopb/Encode/Message/Size.antt =====
-- `pb_encode` on a buffer writes as many bytes as `pb_get_encoded_size` counts.
use between_us.Prelude.{ℕ, zero, suc, ◌+◌, ◌≡◌, refl, List, arith}
use between_us.Prelude.Outcome.{Outcome, ok, fail}
use between_us.Nanopb.Output.{Ostream, buffer, sizing_stream}
use between_us.Nanopb.Output.Laws.{IsBounded}
use between_us.Nanopb.Output.Counts.{Pair, Same, Counting-fail}
use between_us.Nanopb.Field.{Memory}
use between_us.Nanopb.Encode.Grow.{IsMemory}
use between_us.Nanopb.Encode.Counts.Submessage.{IsCounter}
use between_us.Nanopb.Encode.Message.{Externals, pb_encode, pb_get_encoded_size}
use between_us.Nanopb.Encode.Message.Grow.{IsSmall}
use between_us.Nanopb.Encode.Message.Counts.{IsSteady, encode_message-Counting}

pb_encode-IsCounter :
    (ext : Externals) (m : Memory) (depth : ℕ)
    → IsMemory m
    → IsSteady ext m
    → IsSmall ext m
    → IsCounter (pb_encode ext m depth)
unfolding pb_encode
pb_encode-IsCounter ext m zero is_memory is_steady is_small = record {
  counts = λ fields src. Counting-fail;
  small = is_small 0;
}
pb_encode-IsCounter ext m (suc depth) is_memory is_steady is_small =
    let inner = pb_encode-IsCounter ext m depth is_memory is_steady is_small in
    record {
      counts = λ fields src.
          encode_message-Counting ext m depth (pb_encode ext m depth) is_memory is_steady inner
            (ext.descriptor fields) src (is_steady.sized fields);
      small = is_small (suc depth);
    }

-- Where `pb_encode` succeeds on a stream over a buffer, `pb_get_encoded_size` succeeds for the same message,
-- and what it answers is the number of bytes that have been written. The stream has not passed its size
-- before and that is below 2 ^ 63 bytes, as each message is; a callback writes as many bytes as it
-- counts, and the sizes in the descriptors are of the type `pb_size_t`.
pub pb_get_encoded_size-pb_encode :
    (ext : Externals) (m : Memory) (depth fields src : ℕ) (s s' : Ostream) (w : List ℕ)
    → IsMemory m
    → IsSteady ext m
    → IsSmall ext m
    → s.sink ≡ buffer w
    → IsBounded s
    → pb_encode ext m depth fields src s ≡ ok tt s'
    → (t : Ostream) × (pb_get_encoded_size ext m depth fields src ≡ ok t.bytes_written t)
      × (s'.bytes_written ≡ s.bytes_written + t.bytes_written)
unfolding pb_get_encoded_size
pb_get_encoded_size-pb_encode ext m depth fields src s s' w is_memory is_steady is_small stored v
      e =
    by_count (pb_encode ext m depth fields src sizing_stream) (
      rw⁻¹ e (
        ((pb_encode-IsCounter ext m depth is_memory is_steady is_small).counts fields src).run
          s.bytes_written s sizing_stream ahead))
  where
    ahead : Pair s.bytes_written s sizing_stream
    ahead = record { written = w; stored = stored; bounded = v; counts = refl; ahead = omega arith }

    by_count :
        (o : Outcome Ostream (Unit {0}))
        → Same s.bytes_written (ok tt s') o
        → (t : Ostream) × ((elim o as (λ x. Outcome Ostream ℕ) [
          | ok _ u ↦ ok u.bytes_written u
          | fail u ↦ fail u
        ])
            ≡ ok t.bytes_written t)
          × (s'.bytes_written ≡ s.bytes_written + t.bytes_written)
    by_count (ok _ t) h =
        let p : Pair s.bytes_written s' t = h.agree in (t, refl, omega (arith, p.ahead))
    by_count (fail t) h = absurd h.agree
