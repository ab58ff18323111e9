-- ===== src/Nanopb/Message/Loop.antt =====
-- The loop of `pb_decode_noinit` in pb_decode.c over a whole message of required scalar fields.
use between_us.Prelude.{
  ℕ, zero, suc, ◌+◌, ◌^◌, ◌≤◌, ◌<◌, ◌≡◌, refl, ap, ◌∙◌, false, List, [], ◌∷◌, All, ◌++◌, Option,
  length, length-append, ◌==◌, arith,
}
use mathlib.Core.Path.{ap₂}
use mathlib.Core.List.{append_assoc}
use between_us.Prelude.Outcome.{ok, M}
use between_us.Nanopb.Error.{Error}
use between_us.Nanopb.Field.{Field, Memory}
use between_us.Nanopb.Iter.{Iter, field_at}
use between_us.Nanopb.Iter.Walk.{nth}
use between_us.Nanopb.Output.Scalars.{tag_value}
use between_us.Nanopb.Wire.Groups.{varint_bytes_shape}
use between_us.Nanopb.Wire.Header.{pb_decode_tag-tag_value}
use between_us.Nanopb.Encode.Grow.{IsMemory}
use between_us.Nanopb.Decode.State.{Externals, Decoder}
use between_us.Nanopb.Decode.Seen.{Locals, mark_seen}
use between_us.Nanopb.Decode.Required.{mark, mark_all}
use between_us.Nanopb.Decode.Message.{message_loop}
use between_us.Nanopb.Decode.Scalars.{over}
use between_us.Nanopb.Message.Scalar.{
  IsScalar, wire_type_of, tag_bytes, field_bytes, value_bytes, put_value,
}
use between_us.Nanopb.Message.Encode.{All-field_at, bytes_from}
use between_us.Nanopb.Message.Decode.{IsUnique, decode_tagged_scalar, message_loop-field}

-- The iterator at the fields from `k` on, and the memory with these fields at their places.
unfoldable pub iters_from : List Field → ℕ → ℕ → ℕ → List Iter
iters_from fields dest k zero = []
iters_from fields dest k (suc rounds) = nth fields dest k ∷ iters_from fields dest (suc k) rounds

unfoldable pub put_from : Memory → List Field → ℕ → ℕ → ℕ → ℕ → Memory → Memory
put_from m fields src dest k zero m' = m'
put_from m fields src dest k (suc rounds) m' =
    put_from m fields src dest (suc k) rounds
      (put_value m (field_at fields k) (nth fields src k).p_data (nth fields dest k).p_data m')

wire_type_lt : (f : Field) → wire_type_of f < 8
wire_type_lt f = ground arith

pub tag_small : (f : Field) → tag_value (wire_type_of f) f.tag < 2 ^ 64
unfolding tag_value
tag_small f = omega (arith, wire_type_lt f)

-- A field has a byte at least.
pub length-field_bytes : (m : Memory) (f : Field) (a : ℕ) → 1 ≤ length (field_bytes m f a)
length-field_bytes m f a =
    let (are_bytes, some_byte, few) =
      varint_bytes_shape (tag_value (wire_type_of f) f.tag) (tag_small f) in
    omega (arith, some_byte, length-append (tag_bytes f) (value_bytes m f a))

pub iter-mark : (it : Iter) (l : Locals) → (mark it l).iter ≡ it
unfolding mark mark_seen
iter-mark it l = ground arith

module _ (ext : Externals) (depth : ℕ) (decode noinit : ℕ → ℕ → M Decoder (Unit {0})) (m : Memory)
    (is_memory : IsMemory m) (fields : List Field) (src dest : ℕ) (scalars : All IsScalar fields)
    (unique : IsUnique fields) where
  -- A field with its tag in front.
  pub round_scalar :
      (fuel origin k : ℕ) (l : Locals) (rest : List ℕ) (left : ℕ) (e : Option Error) (d : Decoder)
      → origin < length fields
      → k < length fields
      → l.iter ≡ nth fields dest origin
      → let f = field_at fields k in
        let a = (nth fields src k).p_data in
        let it = nth fields dest k in
        let bytes = field_bytes m f a in
        message_loop ext depth decode noinit
          (suc fuel)
          l
          (over d (bytes ++ rest) (length bytes + left) e)
        ≡ message_loop ext depth decode noinit fuel
            (mark it l)
            (record (over d rest left e) { mem = put_value m f a it.p_data d.mem })
  round_scalar fuel origin k l rest left e d from below stands =
      let f = field_at fields k in
      let h = All-field_at IsScalar fields k scalars below in
      let a = (nth fields src k).p_data in
      let it = nth fields dest k in
      let wt = wire_type_of f in
      let tag = tag_bytes f in
      let value = value_bytes m f a in
      let after = value ++ rest in
      let len = length value + left in
      let split : over d ((tag ++ value) ++ rest) (length (tag ++ value) + left) e
          ≡ over d (tag ++ after) (length tag + len) e =
        ap₂ (λ (b : List ℕ) (n : ℕ). over d b n e) (append_assoc tag value rest)
          (omega (arith, length-append tag value)) in
      let (are_bytes, some_byte, few) = varint_bytes_shape (tag_value wt f.tag) (tag_small f) in
      let more : (length tag + len == 0) ≡ false = ground (arith, some_byte) in
      let read = pb_decode_tag-tag_value wt f.tag after len e (wire_type_lt f) h.positive h.small in
      let done =
        decode_tagged_scalar ext depth decode noinit m is_memory fields wt a dest origin k l rest
          left e d scalars unique from below stands in
      rw split (
        message_loop-field ext depth decode noinit fuel f.tag wt l (mark it l)
          (over d (tag ++ after) (length tag + len) e) _ _ more read done)

  pub message_loop_scalars :
      (rounds fuel origin k : ℕ) (l : Locals) (e : Option Error) (d : Decoder)
      → k + rounds ≡ length fields
      → rounds < fuel
      → origin < length fields
      → l.iter ≡ nth fields dest origin
      → let bytes = bytes_from m fields src k rounds in
        message_loop ext depth decode noinit fuel l (over d bytes (length bytes) e)
        ≡ ok
            (mark_all (iters_from fields dest k rounds) l)
            (record (over d [] 0 e) { mem = put_from m fields src dest k rounds d.mem })
  unfolding bytes_from iters_from put_from mark_all message_loop
  message_loop_scalars zero zero origin k l e d total enough from stands = absurd (omega arith)
  message_loop_scalars zero (suc fuel) origin k l e d total enough from stands = refl
  message_loop_scalars (suc rounds) zero origin k l e d total enough from stands =
      absurd (omega arith)
  message_loop_scalars (suc rounds) (suc fuel) origin k l e d total enough from stands =
      let f = field_at fields k in
      let a = (nth fields src k).p_data in
      let it = nth fields dest k in
      let bytes = field_bytes m f a in
      let others = bytes_from m fields src (suc k) rounds in
      let d' : Decoder = record d { mem = put_value m f a it.p_data d.mem } in
      let below : k < length fields = omega arith in
      let split : over d (bytes ++ others) (length (bytes ++ others)) e
          ≡ over d (bytes ++ others) (length bytes + length others) e =
        ap (λ (n : ℕ). over d (bytes ++ others) n e) (length-append bytes others) in
      ap (message_loop ext depth decode noinit (suc fuel) l) split
      ∙ round_scalar fuel origin k l others (length others) e d from below stands
      ∙ message_loop_scalars rounds fuel k (suc k) (mark it l) e d' (omega arith) (omega arith)
          below (iter-mark it l)
