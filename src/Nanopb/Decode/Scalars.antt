-- ===== src/Nanopb/Decode/Scalars.antt =====
-- The scalar fields: `pb_dec_varint`, `pb_dec_uvarint` and `pb_dec_svarint` of pb_decode.c on what
-- their counterparts in pb_encode.c write.
use between_us.Prelude.{ℕ, zero, suc, ◌+◌, ◌*◌, ◌%◌, ◌^◌, ◌<◌, ◌≡◌, ap, ◌∙◌}
use between_us.Prelude.{true, ◌⊎◌, List, ◌++◌, Option, ltb, ◌==◌, if◌then◌else◌, length, arith}
use between_us.Prelude.Outcome.{ok, fail}
use between_us.Nanopb.Error.{Error, first_error, integer_too_large}
use between_us.Nanopb.Field.{Field, Memory, load}
use between_us.Nanopb.Output.{pb_write}
use between_us.Nanopb.Output.Scalars.{varint_bytes, zigzag, pb_encode_varint, pb_encode_svarint}
use between_us.Nanopb.Encode.Value.{
  sign_extend, is_word, pb_enc_varint, pb_enc_uvarint, pb_enc_svarint,
}
use between_us.Nanopb.Encode.Grow.{IsMemory}
use between_us.Nanopb.Wire.RoundTrip.{
  reading, pb_decode_varint-varint_bytes, pb_decode_svarint-zigzag,
}
use between_us.Nanopb.Decode.State.{Decoder, store}
use between_us.Nanopb.Decode.Value.{
  store_clamped, store_signed, pb_dec_varint, pb_dec_uvarint, pb_dec_svarint,
}
use between_us.Nanopb.Decode.Stored.{load-store, shift_eight}

-- The widths that the decoders accept.
word_cases : (n : ℕ) → is_word n ≡ true → (n ≡ 1) ⊎ ((n ≡ 2) ⊎ ((n ≡ 4) ⊎ (n ≡ 8)))
word_cases n h = ground arith

-- A decoder that reads from a buffer.
abbrev pub over : Decoder → List ℕ → ℕ → Option Error → Decoder
over d bytes left e = record d { stream = reading bytes left e }

abbrev pub stored : Decoder → ℕ → ℕ → ℕ → Decoder
stored d dest n v = record d { mem = store dest n v d.mem }

-- In a field of 1, 2, 4 or 8 bytes, `pb_dec_uvarint` stores the `uint64_t` that `pb_encode_varint` wrote
-- if it fits, and fails if it does not, with the low bytes stored; both times it has read exactly
-- the bytes that were written.
pub pb_dec_uvarint-varint_bytes :
    (f : Field) (dest v : ℕ) (rest : List ℕ) (left : ℕ) (e : Option Error) (d : Decoder)
    → is_word f.data_size ≡ true
    → v < 2 ^ 64
    → pb_dec_uvarint f dest (over d (varint_bytes v ++ rest) (length (varint_bytes v) + left) e) ≡ (
        if ltb v (2 ^ (8 * f.data_size))
        then ok tt (stored (over d rest left e) dest f.data_size v)
        else fail (stored (over d rest left (first_error e integer_too_large)) dest f.data_size v))
unfolding pb_dec_uvarint store_clamped
pb_dec_uvarint-varint_bytes f dest v rest left e d word lt =
    ground (arith, pb_decode_varint-varint_bytes v rest left e lt, word_cases f.data_size word)

pub load-lt : (m : Memory) (a n : ℕ) → IsMemory m → load m a n < 2 ^ (8 * n)
unfolding load
load-lt m a zero h = omega arith
load-lt m a (suc n) h =
    let ends : 8 * (n + 1) ≡ 8 * suc n = omega arith in
    let place = shift_eight n ∙ ap (λ (k : ℕ). 2 ^ k) ends in
    omega (arith, h a, load-lt m (a + 1) n h, place)

-- Signed values: the pattern of a word, extended, keeps the word, and fits every decoder's casts.
extended : (n x : ℕ) → is_word n ≡ true → x < 2 ^ (8 * n) → sign_extend n x < 2 ^ 64
unfolding sign_extend
extended n x word h = ground (arith, word_cases n word)

extended_again :
    (n x : ℕ)
    → is_word n ≡ true
    → x < 2 ^ (8 * n)
    → sign_extend n (sign_extend n x % 2 ^ (8 * n)) ≡ sign_extend n x
unfolding sign_extend
extended_again n x word h = ground (arith, word_cases n word)

extended_word : (n x : ℕ) → is_word n ≡ true → x < 2 ^ (8 * n) → sign_extend n x % 2 ^ (8 * n) ≡ x
unfolding sign_extend
extended_word n x word h = ground (arith, word_cases n word)

-- The cast to 32 bits in `pb_dec_varint` does not change what a field of at most 32 bits holds.
narrowed :
    (n x : ℕ)
    → is_word n ≡ true
    → x < 2 ^ (8 * n)
    → (if n == 8 then sign_extend n x else sign_extend 4 (sign_extend n x % 2 ^ 32))
      ≡ sign_extend n x
unfolding sign_extend
narrowed n x word h = ground (arith, word_cases n word)

-- What is read of a field, once it is decoded at another place.
kept :
    (n src dest w : ℕ) (m m' : Memory)
    → w % 2 ^ (8 * n) ≡ load m src n
    → load (store dest n w m') dest n ≡ load m src n
kept n src dest w m m' h = load-store dest n w m' ∙ h

-- For a field of an unsigned varint type of 1, 2, 4 or 8 bytes in a memory of bytes, `pb_enc_uvarint` writes bytes
-- from which `pb_dec_uvarint` stores the field's value again, at any place, and it stops behind them.
pub pb_dec_uvarint-pb_enc_uvarint :
    (f : Field) (m : Memory) (src dest : ℕ) (rest : List ℕ) (left : ℕ) (e : Option Error)
    (d : Decoder)
    → is_word f.data_size ≡ true
    → IsMemory m
    → let value = load m src f.data_size in
      let bytes = varint_bytes value in
      let mem' = store dest f.data_size value d.mem in
      (pb_enc_uvarint m f src ≡ pb_write bytes)
      × (pb_dec_uvarint f dest (over d (bytes ++ rest) (length bytes + left) e)
          ≡ ok tt (record (over d rest left e) { mem = mem' }))
      × (load mem' dest f.data_size ≡ value)
unfolding pb_enc_uvarint pb_encode_varint
pb_dec_uvarint-pb_enc_uvarint f m src dest rest left e d word h =
    let value = load m src f.data_size in
    let small = load-lt m src f.data_size h in
    let lt : value < 2 ^ 64 = ground (arith, small, word_cases f.data_size word) in
    let same : value % 2 ^ (8 * f.data_size) ≡ value = ground (arith, small) in
    (
      ground arith,
      ground (arith, small, pb_dec_uvarint-varint_bytes f dest value rest left e d word lt),
      kept f.data_size src dest value m d.mem same,
    )

-- For a field of a signed varint type of 1, 2, 4 or 8 bytes in a memory of bytes, `pb_enc_varint` writes bytes
-- from which `pb_dec_varint` stores the field's value again, at any place, and it stops behind them.
pub pb_dec_varint-pb_enc_varint :
    (f : Field) (m : Memory) (src dest : ℕ) (rest : List ℕ) (left : ℕ) (e : Option Error)
    (d : Decoder)
    → is_word f.data_size ≡ true
    → IsMemory m
    → let value = sign_extend f.data_size (load m src f.data_size) in
      let bytes = varint_bytes value in
      let mem' = store dest f.data_size value d.mem in
      (pb_enc_varint m f src ≡ pb_write bytes)
      × (pb_dec_varint f dest (over d (bytes ++ rest) (length bytes + left) e)
          ≡ ok tt (record (over d rest left e) { mem = mem' }))
      × (load mem' dest f.data_size ≡ load m src f.data_size)
unfolding pb_enc_varint pb_encode_varint pb_dec_varint store_signed store_clamped
pb_dec_varint-pb_enc_varint f m src dest rest left e d word h =
    let x = load m src f.data_size in
    let value = sign_extend f.data_size x in
    let small = load-lt m src f.data_size h in
    let lt = extended f.data_size x word small in
    (
      ground arith,
      ground (
        arith,
        pb_decode_varint-varint_bytes value rest left e lt,
        narrowed f.data_size x word small,
        extended_again f.data_size x word small,
      ),
      kept f.data_size src dest value m d.mem (extended_word f.data_size x word small),
    )

-- For a field of a zigzag varint type of 1, 2, 4 or 8 bytes in a memory of bytes, `pb_enc_svarint` writes bytes
-- from which `pb_dec_svarint` stores the field's value again, at any place, and it stops behind them.
pub pb_dec_svarint-pb_enc_svarint :
    (f : Field) (m : Memory) (src dest : ℕ) (rest : List ℕ) (left : ℕ) (e : Option Error)
    (d : Decoder)
    → is_word f.data_size ≡ true
    → IsMemory m
    → let value = sign_extend f.data_size (load m src f.data_size) in
      let bytes = varint_bytes (zigzag value) in
      let mem' = store dest f.data_size value d.mem in
      (pb_enc_svarint m f src ≡ pb_write bytes)
      × (pb_dec_svarint f dest (over d (bytes ++ rest) (length bytes + left) e)
          ≡ ok tt (record (over d rest left e) { mem = mem' }))
      × (load mem' dest f.data_size ≡ load m src f.data_size)
unfolding pb_enc_svarint pb_encode_svarint pb_encode_varint pb_dec_svarint store_signed
    store_clamped
pb_dec_svarint-pb_enc_svarint f m src dest rest left e d word h =
    let x = load m src f.data_size in
    let value = sign_extend f.data_size x in
    let small = load-lt m src f.data_size h in
    let lt = extended f.data_size x word small in
    (
      ground arith,
      ground (
        arith,
        pb_decode_svarint-zigzag value rest left e lt,
        extended_again f.data_size x word small,
      ),
      kept f.data_size src dest value m d.mem (extended_word f.data_size x word small),
    )
