-- ===== src/Nanopb/Message/Missing.antt =====
-- `pb_decode` of fields in any order, any number of times, with all required fields among them or not.
use between_us.Prelude.{
  ℕ, zero, suc, ◌+◌, ◌≤◌, ◌<◌, ◌≡◌, refl, ap, ◌∙◌, Bool, true, false, List, [], ◌∷◌, ◌++◌, All,
  Option, none, some, length, length-append, if◌then◌else◌, arith,
}
use between_us.Prelude.Outcome.{Outcome, ok, fail, M, >>=_ok}
use between_us.Nanopb.Error.{Error, missing_required_field}
use between_us.Nanopb.Field.{Field, Memory}
use between_us.Nanopb.Input.{pb_istream_from_buffer}
use between_us.Nanopb.Iter.{field_at, begin}
use between_us.Nanopb.Iter.Walk.{nth}
use between_us.Nanopb.Encode.Grow.{IsMemory}
use between_us.Nanopb.Decode.State.{Externals, Decoder, throw}
use between_us.Nanopb.Decode.Seen.{Locals}
use between_us.Nanopb.Decode.Reset.{pb_message_set_to_defaults, pb_release}
use between_us.Nanopb.Decode.Required.{mark, mark_all}
use between_us.Nanopb.Decode.Message.{
  message_loop, check_complete, decode_message, with_count, decode_with, pb_decode_noinit,
  pb_decode,
}
use between_us.Nanopb.Decode.Scalars.{over}
use between_us.Nanopb.Message.Scalar.{IsScalar, field_bytes, put_value}
use between_us.Nanopb.Message.Decode.{IsUnique}
use between_us.Nanopb.Message.Loop.{iter-mark, round_scalar, length-field_bytes}
use between_us.Nanopb.Message.Orders.{
  bytes_of, iters_of, put_of, all_among, check_complete-all_among,
}

length-bytes_of :
    (m : Memory) (fields : List Field) (src : ℕ) (ks : List ℕ)
    → length ks ≤ length (bytes_of m fields src ks)
unfolding bytes_of
length-bytes_of m fields src [] = omega arith
length-bytes_of m fields src (k ∷ ks) =
    let f = field_at fields k in
    let a = (nth fields src k).p_data in
    omega (
      arith,
      length-field_bytes m f a,
      length-append (field_bytes m f a) (bytes_of m fields src ks),
      length-bytes_of m fields src ks,
    )

module _ (ext : Externals) (depth : ℕ) (decode noinit : ℕ → ℕ → M Decoder (Unit {0})) (m : Memory)
    (fields : List Field) (src dest : ℕ) (is_memory : IsMemory m) (scalars : All IsScalar fields)
    (unique : IsUnique fields) where
  message_loop_of :
      (ks : List ℕ) (fuel origin : ℕ) (l : Locals) (e : Option Error) (d : Decoder)
      → All (λ k. k < length fields) ks
      → length ks < fuel
      → origin < length fields
      → l.iter ≡ nth fields dest origin
      → let bytes = bytes_of m fields src ks in
        message_loop ext depth decode noinit fuel l (over d bytes (length bytes) e)
        ≡ ok
            (mark_all (iters_of fields dest ks) l)
            (record (over d [] 0 e) { mem = put_of m fields src dest ks d.mem })
  unfolding bytes_of iters_of put_of mark_all message_loop
  message_loop_of [] zero origin l e d below enough from stands = absurd (omega arith)
  message_loop_of [] (suc fuel) origin l e d below enough from stands = refl
  message_loop_of (k ∷ ks) zero origin l e d below enough from stands = absurd (omega arith)
  message_loop_of (k ∷ ks) (suc fuel) origin l e d below enough from stands =
      let f = field_at fields k in
      let a = (nth fields src k).p_data in
      let it = nth fields dest k in
      let bytes = field_bytes m f a in
      let others = bytes_of m fields src ks in
      let d' : Decoder = record d { mem = put_value m f a it.p_data d.mem } in
      let split : over d (bytes ++ others) (length (bytes ++ others)) e
          ≡ over d (bytes ++ others) (length bytes + length others) e =
        ap (λ (n : ℕ). over d (bytes ++ others) n e) (length-append bytes others) in
      ap (message_loop ext depth decode noinit (suc fuel) l) split
      ∙ round_scalar ext depth decode noinit m is_memory fields src dest scalars unique fuel origin
          k l others (length others) e d from below.0 stands
      ∙ message_loop_of ks fuel k (mark it l) e d' below.1 (omega arith) below.0 (iter-mark it l)

  decode_message_of :
      (ks : List ℕ) (d : Decoder)
      → All (λ k. k < length fields) ks
      → 1 ≤ length fields
      → length fields ≤ 64
      → let bytes = bytes_of m fields src ks in
        let d' : Decoder = record (over d [] 0 none) { mem = put_of m fields src dest ks d.mem } in
        decode_message ext depth decode noinit fields dest (over d bytes (length bytes) none)
        ≡ (if all_among (length fields) ks then ok tt d' else throw missing_required_field d')
  unfolding decode_message nth
  decode_message_of ks d below some_field few =
      let bytes = bytes_of m fields src ks in
      let l : Locals = record {
        seen_low = 0;
        seen_high = 0;
        extension_range_start = 0;
        iter = begin fields dest;
        fixed_count_field = none;
      } in
      let enough = length-bytes_of m fields src ks in
      let loop =
        message_loop_of ks (suc (length bytes)) 0 l none d below (omega (arith, enough))
          (omega arith) refl in
      >>=_ok (message_loop ext depth decode noinit (suc (length bytes)) l)
        (check_complete ext depth decode noinit) (over d bytes (length bytes) none) _ _ loop
      ∙ check_complete-all_among ext depth decode noinit fields dest ks l _ scalars below some_field
          few refl refl refl refl

if-map :
    {A B : Type 0} (g : A → B) (b : Bool) (x y : A)
    → g (if b then x else y) ≡ (if b then g x else g y)
if-map g true x y = refl
if-map g false x y = refl

-- The layers of `pb_decode` around a message that succeeds or fails by a test.
with_count-if :
    (run : M Decoder (Unit {0})) (d x y : Decoder) (b : Bool)
    → run (record d { count = 0 }) ≡ (if b then ok tt x else fail y)
    → with_count run d
      ≡ (if b then ok tt (record x { count = d.count }) else fail (record y { count = d.count }))
unfolding with_count
with_count-if run d x y b e =
    let after : Outcome Decoder (Unit {0}) → Outcome Decoder (Unit {0}) = λ o.
      elim o as (λ x. Outcome Decoder (Unit {0})) [
        | ok _ t ↦ ok tt (record t { count = d.count })
        | fail t ↦ fail (record t { count = d.count })
      ] in
    ap after e ∙ if-map after b (ok tt x) (fail y)

decode_with-if :
    (ext : Externals) (depth : ℕ) (noinit : ℕ → ℕ → M Decoder (Unit {0})) (address dest : ℕ)
    (d x y : Decoder) (b : Bool)
    → noinit address dest
        (record d { mem = pb_message_set_to_defaults ext depth address dest d.mem })
      ≡ (if b then ok tt x else fail y)
    → decode_with ext depth noinit address dest d
      ≡ (if b then ok tt x else fail (record y { mem = pb_release ext depth address dest y.mem }))
unfolding decode_with
decode_with-if ext depth noinit address dest d x y b e =
    let after : Outcome Decoder (Unit {0}) → Outcome Decoder (Unit {0}) = λ o.
      elim o as (λ x. Outcome Decoder (Unit {0})) [
        | ok _ t ↦ ok tt t
        | fail t ↦ fail (record t { mem = pb_release ext depth address dest t.mem })
      ] in
    ap after e ∙ if-map after b (ok tt x) (fail y)

-- A buffer with fields of a message in any order, each any number of times, each with the value that a
-- memory of bytes has for it. The message has from 1 to 64 fields, all required, of scalar types and
-- with different tags. Where all of them are in the buffer, `pb_decode` succeeds, has used up the
-- stream, and leaves in memory what storing the fields of the buffer one behind the other over the
-- defaults leaves. Where one of them never comes, it fails with "missing required field" at the end of
-- the stream, and the message has been released.
pub pb_decode-bytes_of :
    (ext : Externals) (m : Memory) (depth address src dest : ℕ) (ks : List ℕ) (d : Decoder)
    → IsMemory m
    → All IsScalar (ext.descriptor address)
    → IsUnique (ext.descriptor address)
    → 1 ≤ length (ext.descriptor address)
    → length (ext.descriptor address) ≤ 64
    → All (λ k. k < length (ext.descriptor address)) ks
    → let fields = ext.descriptor address in
      let bytes = bytes_of m fields src ks in
      let defaults = pb_message_set_to_defaults ext (suc depth) address dest d.mem in
      let written = put_of m fields src dest ks defaults in
      let ended = pb_istream_from_buffer [] 0 in
      pb_decode ext
        (suc depth)
        address
        dest
        (record d { stream = pb_istream_from_buffer bytes (length bytes) })
      ≡ (if all_among (length fields) ks
          then ok tt (record d { stream = ended; mem = written })
          else fail (record d {
            stream = record ended { errmsg = some missing_required_field };
            mem = pb_release ext (suc depth) address dest written;
          }))
unfolding pb_decode pb_decode_noinit pb_istream_from_buffer
pb_decode-bytes_of ext m depth address src dest ks d is_memory scalars unique some_field few below =
    let fields = ext.descriptor address in
    let bytes = bytes_of m fields src ks in
    let noinit = pb_decode_noinit ext depth in
    let decode = decode_with ext depth noinit in
    let mem' = pb_message_set_to_defaults ext (suc depth) address dest d.mem in
    let start : Decoder = record (over d bytes (length bytes) none) { mem = mem' } in
    let inner =
      decode_message_of ext depth decode noinit m fields src dest is_memory scalars unique ks
        (record { stream = d.stream; mem = mem'; count = 0 }) below some_field few in
    decode_with-if ext (suc depth) (pb_decode_noinit ext (suc depth)) address dest
      (over d bytes (length bytes) none) _ _ (all_among (length fields) ks)
      (with_count-if (decode_message ext depth decode noinit fields dest) start _ _
        (all_among (length fields) ks) inner)
