-- ===== src/Nanopb/Message/Scalar.antt =====
-- One required scalar field: what `encode_field` of pb_encode.c writes and what `pb_decode_noinit` of
-- pb_decode.c makes of it.
use between_us.Prelude.{
  ℕ, ◌+◌, ◌^◌, ◌≤◌, ◌<◌, ◌≡◌, refl, true, false, not, ◌||◌, List, [], ◌++◌, Option, none, length,
  ◌==◌, if◌then◌else◌, ap, ◌∙◌, arith,
}
use between_us.Prelude.Outcome.{Outcome, ok, fail, M, ◌>>=◌, >>=_ok}
use native.Mathlib.Nat.{mod-eq_of_lt}
use between_us.Nanopb.Error.{Error}
use between_us.Nanopb.Field.{Field, ltype, htype, atype, Memory, load}
use between_us.Nanopb.Field.Ltype
use between_us.Nanopb.Field.Htype
use between_us.Nanopb.Field.Atype
use between_us.Nanopb.Output.{Ostream, pb_write}
use between_us.Nanopb.Output.Scalars.{
  varint_bytes, zigzag, tag_value, pb_encode_tag, pb_encode_varint, pb_encode_svarint,
  fixed32_bytes, fixed64_bytes, pb_encode_fixed32, pb_encode_fixed64,
}
use between_us.Nanopb.Input.{Istream}
use between_us.Nanopb.Input.Varint.{pb_decode_varint32, pb_decode_fixed32, pb_decode_fixed64}
use between_us.Nanopb.Input.Fields.{wt_varint, wt_32bit, wt_64bit}
use between_us.Nanopb.Encode.Grow.{IsMemory}
use between_us.Nanopb.Encode.Default.{safe_read_bool}
use between_us.Nanopb.Encode.Value.{
  sign_extend, is_word, encode_value, pb_encode_tag_for_field, pb_enc_bool, pb_enc_varint,
  pb_enc_uvarint, pb_enc_svarint, pb_enc_fixed32, pb_enc_fixed64,
}
use between_us.Nanopb.Wire.RoundTrip.{reading}
use between_us.Nanopb.Wire.Header.{pb_decode_varint32-varint_bytes}
use between_us.Nanopb.Wire.Fixed.{pb_decode_fixed32-fixed32_bytes, pb_decode_fixed64-fixed64_bytes}
use between_us.Nanopb.Decode.State.{Externals, Decoder, store, store_bool, lift, modify}
use between_us.Nanopb.Decode.Stored.{load-store}
use between_us.Nanopb.Decode.Value.{decode_value, pb_dec_bool, pb_dec_fixed32, pb_dec_fixed64}
use between_us.Nanopb.Decode.Scalars.{
  over, load-lt, pb_dec_varint-pb_enc_varint, pb_dec_uvarint-pb_enc_uvarint,
  pb_dec_svarint-pb_enc_svarint,
}

-- The scalar types, with the sizes that their encoders and decoders take.
pub data IsKind (f : Field) : Type 0 where
  flag : ltype f ≡ Ltype.bool → f.data_size ≡ 1 → IsKind f
  signed : ltype f ≡ Ltype.varint → is_word f.data_size ≡ true → IsKind f
  unsigned : ltype f ≡ Ltype.uvarint → is_word f.data_size ≡ true → IsKind f
  zigzagged : ltype f ≡ Ltype.svarint → is_word f.data_size ≡ true → IsKind f
  four_bytes : ltype f ≡ Ltype.fixed32 → f.data_size ≡ 4 → IsKind f
  eight_bytes : ltype f ≡ Ltype.fixed64 → f.data_size ≡ 8 → IsKind f

-- A required field of a scalar type, in the struct itself.
pub record IsScalar (f : Field) : Type 0 where
  pub kind : IsKind f
  pub required : htype f ≡ Htype.required
  pub static : atype f ≡ Atype.static
  pub positive : 1 ≤ f.tag
  pub small : f.tag < 2 ^ 29

-- What a field holds at a place: the truth of a `bool`, and the word of the others.
abbrev pub word_of : Memory → Field → ℕ → ℕ
word_of m f a =
    if ltype f == Ltype.bool then (if safe_read_bool m a then 1 else 0) else load m a f.data_size

-- The integer, as a pattern of 64 bits.
abbrev pub value_of : Memory → Field → ℕ → ℕ
value_of m f a =
    if ltype f == Ltype.varint || ltype f == Ltype.svarint
    then sign_extend f.data_size (word_of m f a)
    else word_of m f a

-- Its bytes, the wire type, and the bytes of the whole field.
abbrev pub value_bytes : Memory → Field → ℕ → List ℕ
value_bytes m f a =
    let v = value_of m f a in
    if ltype f == Ltype.fixed32
    then fixed32_bytes v
    else if ltype f == Ltype.fixed64
    then fixed64_bytes v
    else varint_bytes (if ltype f == Ltype.svarint then zigzag v else v)

abbrev pub wire_type_of : Field → ℕ
wire_type_of f =
    if ltype f == Ltype.fixed32
    then wt_32bit
    else if ltype f == Ltype.fixed64
    then wt_64bit
    else wt_varint

abbrev pub tag_bytes : Field → List ℕ
tag_bytes f = varint_bytes (tag_value (wire_type_of f) f.tag)

abbrev pub field_bytes : Memory → Field → ℕ → List ℕ
field_bytes m f a = tag_bytes f ++ value_bytes m f a

-- The memory with the field at another place.
abbrev pub put_value : Memory → Field → ℕ → ℕ → Memory → Memory
put_value m f src dest m' = store dest f.data_size (value_of m f src) m'

pub encode_value-IsKind :
    (m : Memory) (sub : ℕ → ℕ → M Ostream (Unit {0})) (f : Field) (src : ℕ) (s : Ostream)
    → IsKind f
    → encode_value m sub f src s ≡ pb_write (value_bytes m f src) s
unfolding encode_value pb_enc_bool pb_enc_varint pb_enc_uvarint pb_enc_svarint pb_encode_svarint
    pb_encode_varint pb_enc_fixed32 pb_enc_fixed64 pb_encode_fixed32 pb_encode_fixed64
encode_value-IsKind m sub f src s (flag k size) = rw k refl
encode_value-IsKind m sub f src s (signed k word) = rw k ground (arith, word)
encode_value-IsKind m sub f src s (unsigned k word) = rw k ground (arith, word)
encode_value-IsKind m sub f src s (zigzagged k word) = rw k ground (arith, word)
encode_value-IsKind m sub f src s (four_bytes k size) = rw (k, size) refl
encode_value-IsKind m sub f src s (eight_bytes k size) = rw (k, size) refl

pub tag-IsKind :
    (f : Field) (s : Ostream) → IsKind f → pb_encode_tag_for_field f s ≡ pb_write (tag_bytes f) s
unfolding pb_encode_tag_for_field pb_encode_tag pb_encode_varint
tag-IsKind f s (flag k size) = rw k refl
tag-IsKind f s (signed k word) = rw k refl
tag-IsKind f s (unsigned k word) = rw k refl
tag-IsKind f s (zigzagged k word) = rw k refl
tag-IsKind f s (four_bytes k size) = rw k refl
tag-IsKind f s (eight_bytes k size) = rw k refl

-- A scalar field is no extension.
pub not_extension : (f : Field) → IsKind f → (ltype f == Ltype.extension) ≡ false
not_extension f (flag k size) = rw k refl
not_extension f (signed k word) = rw k refl
not_extension f (unsigned k word) = rw k refl
not_extension f (zigzagged k word) = rw k refl
not_extension f (four_bytes k size) = rw k refl
not_extension f (eight_bytes k size) = rw k refl

-- A word that is not sign-extended is stored as it is.
load-store_word :
    (m m' : Memory) (src dest n : ℕ)
    → IsMemory m
    → load (store dest n (load m src n) m') dest n ≡ load m src n
load-store_word m m' src dest n is_memory =
    load-store dest n (load m src n) m' ∙ mod-eq_of_lt (load-lt m src n is_memory)

pub word_of-put_value :
    (m m' : Memory) (f : Field) (src dest : ℕ)
    → IsKind f
    → IsMemory m
    → word_of (put_value m f src dest m') f dest ≡ word_of m f src
unfolding store
word_of-put_value m m' f src dest (flag k size) is_memory = rw (k, size) ground arith
word_of-put_value m m' f src dest (signed k word) is_memory =
    let d : Decoder = record { stream = reading [] 0 none; mem = m'; count = 0 } in
    rw k (pb_dec_varint-pb_enc_varint f m src dest [] 0 none d word is_memory).2
word_of-put_value m m' f src dest (zigzagged k word) is_memory =
    let d : Decoder = record { stream = reading [] 0 none; mem = m'; count = 0 } in
    rw k (pb_dec_svarint-pb_enc_svarint f m src dest [] 0 none d word is_memory).2
word_of-put_value m m' f src dest (unsigned k word) is_memory =
    rw k (load-store_word m m' src dest f.data_size is_memory)
word_of-put_value m m' f src dest (four_bytes k size) is_memory =
    rw k (load-store_word m m' src dest f.data_size is_memory)
word_of-put_value m m' f src dest (eight_bytes k size) is_memory =
    rw k (load-store_word m m' src dest f.data_size is_memory)

-- A word that is read, and stored.
read_then_store :
    (read : M Istream ℕ) (write : ℕ → Memory → Memory) (v : ℕ) (d : Decoder) (s : Istream)
    → read d.stream ≡ ok v s
    → (lift read >>= λ x. modify (write x)) d ≡ ok tt (record d { stream = s; mem = write v d.mem })
read_then_store read write v d s e =
    >>=_ok (lift read) (λ x. modify (write x)) d (record d { stream = s }) v
      (ap
        (λ o. elim o as (λ x. Outcome Decoder ℕ) [
          | ok a t ↦ ok a (record d { stream = t })
          | fail t ↦ fail (record d { stream = t })
        ])
        e)

module _ (ext : Externals) (decode noinit : ℕ → ℕ → M Decoder (Unit {0})) where
  pub decode_value-IsKind :
      (m : Memory) (f : Field) (src dest : ℕ) (rest : List ℕ) (left : ℕ) (e : Option Error)
      (d : Decoder)
      → IsKind f
      → IsMemory m
      → let bytes = value_bytes m f src in
        decode_value ext decode noinit f dest (over d (bytes ++ rest) (length bytes + left) e)
        ≡ ok tt (record (over d rest left e) { mem = put_value m f src dest d.mem })
  unfolding decode_value pb_dec_bool pb_dec_fixed32 pb_dec_fixed64 fixed32_bytes fixed64_bytes
  decode_value-IsKind m f src dest rest left e d (signed k word) is_memory =
      rw k (pb_dec_varint-pb_enc_varint f m src dest rest left e d word is_memory).1
  decode_value-IsKind m f src dest rest left e d (unsigned k word) is_memory =
      rw k (pb_dec_uvarint-pb_enc_uvarint f m src dest rest left e d word is_memory).1
  decode_value-IsKind m f src dest rest left e d (zigzagged k word) is_memory =
      rw k (pb_dec_svarint-pb_enc_svarint f m src dest rest left e d word is_memory).1
  decode_value-IsKind m f src dest rest left e d (flag k size) is_memory =
      let v : ℕ = if safe_read_bool m src then 1 else 0 in
      let read = pb_decode_varint32-varint_bytes v rest left e (ground arith) in
      let same : (if not (v == 0) then 1 else 0) ≡ v = ground arith in
      rw (k, size)
        (read_then_store pb_decode_varint32 (λ x. store_bool dest (not (x == 0))) v
            (over d (varint_bytes v ++ rest) (length (varint_bytes v) + left) e)
            (reading rest left e) read
          ∙ ap (λ (w : ℕ). ok tt (record (over d rest left e) { mem = store dest 1 w d.mem })) same)
  decode_value-IsKind m f src dest rest left e d (four_bytes k size) is_memory =
      let v = load m src 4 in
      let read = pb_decode_fixed32-fixed32_bytes v rest left e (load-lt m src 4 is_memory) in
      rw (k, size)
        (read_then_store pb_decode_fixed32 (store dest 4) v
          (over d (fixed32_bytes v ++ rest) (4 + left) e) (reading rest left e) read)
  decode_value-IsKind m f src dest rest left e d (eight_bytes k size) is_memory =
      let v = load m src 8 in
      let read = pb_decode_fixed64-fixed64_bytes v rest left e (load-lt m src 8 is_memory) in
      rw (k, size)
        (read_then_store pb_decode_fixed64 (store dest 8) v
          (over d (fixed64_bytes v ++ rest) (8 + left) e) (reading rest left e) read)
