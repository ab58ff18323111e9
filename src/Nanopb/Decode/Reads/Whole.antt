-- ===== src/Nanopb/Decode/Reads/Whole.antt =====
-- `pb_decode` of pb_decode.c stays within the stream.
use between_us.Prelude.{ℕ, zero, suc, ◌≡◌, List}
use between_us.Prelude.Outcome.{Outcome, ok, fail, M, final}
use between_us.Nanopb.Input.{memory}
use between_us.Nanopb.Input.Laws.{Takes}
use between_us.Nanopb.Decode.State.{Externals, Decoder}
use between_us.Nanopb.Decode.Reset.{pb_release}
use between_us.Nanopb.Decode.Message.{with_count, decode_with, pb_decode_noinit, pb_decode}
use between_us.Nanopb.Decode.Reads.{Reads, Reading, Reads-fail}
use between_us.Nanopb.Decode.Reads.Message.{IsReading, decode_message-Reading}

with_count-Reading : (run : M Decoder (Unit {0})) → Reading run → Reading (with_count run)
unfolding with_count
with_count-Reading run h = record {
  run = λ d. by_case d (run (record d { count = 0 })) (h.run (record d { count = 0 }));
}
  where
    by_case :
        (d : Decoder) (o : Outcome Decoder (Unit {0}))
        → Reads d.stream o
        → Reads d.stream (elim o as (λ x. Outcome Decoder (Unit {0})) [
          | ok _ d' ↦ ok tt (record d' { count = d.count })
          | fail d' ↦ fail (record d' { count = d.count })
        ])
    by_case d (ok _ d') r = record { runs = r.runs }
    by_case d (fail d') r = record { runs = r.runs }

pub decode_with-Reading :
    (ext : Externals) (depth : ℕ) (noinit : ℕ → ℕ → M Decoder (Unit {0})) (fields dest : ℕ)
    → Reading (noinit fields dest)
    → Reading (decode_with ext depth noinit fields dest)
unfolding decode_with
decode_with-Reading ext depth noinit fields dest h = record {
  run = λ d. by_case d _ (h.run (record d { mem = _ }));
}
  where
    by_case :
        (d : Decoder) (o : Outcome Decoder (Unit {0}))
        → Reads d.stream o
        → Reads d.stream (elim o as (λ x. Outcome Decoder (Unit {0})) [
          | ok _ d' ↦ ok tt d'
          | fail d' ↦ fail (record d' { mem = pb_release ext depth fields dest d'.mem })
        ])
    by_case d (ok _ d') r = record { runs = r.runs }
    by_case d (fail d') r = record { runs = r.runs }

pub pb_decode_noinit-Reading :
    (ext : Externals) (depth fields dest : ℕ)
    → IsReading ext
    → Reading (pb_decode_noinit ext depth fields dest)
unfolding pb_decode_noinit
pb_decode_noinit-Reading ext zero fields dest h = record { run = λ d. Reads-fail d }
pb_decode_noinit-Reading ext (suc depth) fields dest h =
    let noinits = λ (f a : ℕ). pb_decode_noinit-Reading ext depth f a h in
    with_count-Reading _ (
      decode_message-Reading ext depth (decode_with ext depth (pb_decode_noinit ext depth))
        (pb_decode_noinit ext depth)
        (λ f a. decode_with-Reading ext depth (pb_decode_noinit ext depth) f a (noinits f a))
        noinits h (ext.descriptor fields) dest)

-- Whatever the bytes and the memory are, `pb_decode` on a stream over memory takes bytes from its
-- front only, and never more than `bytes_left` allows, where it succeeds and where it fails. The
-- functions of the caller, for callback fields and extensions, keep to that themselves.
pub pb_decode-Takes :
    (ext : Externals) (depth fields dest : ℕ) (d : Decoder) (bytes : List ℕ)
    → IsReading ext
    → d.stream.source ≡ memory bytes
    → Takes d.stream bytes (final (pb_decode ext depth fields dest d)).stream
unfolding pb_decode
pb_decode-Takes ext depth fields dest d bytes h =
    let noinit = pb_decode_noinit-Reading ext depth fields dest h in
    ((decode_with-Reading ext depth (pb_decode_noinit ext depth) fields dest noinit).run d).runs
      bytes
