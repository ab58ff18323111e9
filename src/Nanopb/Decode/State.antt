-- ===== src/Nanopb/Decode/State.antt =====
-- The state of the decoder of pb_decode.c: a stream, the memory, and a local counter.
use between_us.Prelude.{ℕ, ◌+◌, ◌-◌, ◌*◌, ◌/◌, ◌%◌, ◌^◌, Bool, ◌&&◌, ◌||◌, List, ◌==◌, leb, ltb}
use between_us.Prelude.{if◌then◌else◌, get_or, length}
use between_us.Prelude.Outcome.{ok, fail, M}
use between_us.Nanopb.Error.{Error, first_error, invalid_size, size_too_large, realloc_failed}
use between_us.Nanopb.Input.{Istream}
use between_us.Nanopb.Field.{Field, Memory, load, load_pointer, pointer_size}

-- Writes to memory change the places from `a` on, as many as are written.
abbrev pub within : ℕ → ℕ → ℕ → Bool
within a n q = leb a q && ltb q (a + n)

-- A little-endian word of `n` bytes.
unfoldable pub store : ℕ → ℕ → ℕ → Memory → Memory
store a n v m q = if within a n q then v / 2 ^ (8 * (q - a)) % 256 else m q

abbrev pub store_size : ℕ → ℕ → Memory → Memory
store_size a v = store a 4 v

abbrev pub store_pointer : ℕ → ℕ → Memory → Memory
store_pointer a v = store a pointer_size v

abbrev pub store_bool : ℕ → Bool → Memory → Memory
store_bool a b = store a 1 (if b then 1 else 0)

unfoldable pub store_bytes : ℕ → List ℕ → Memory → Memory
store_bytes a bytes m q = if within a (length bytes) q then get_or bytes (q - a) 0 else m q

-- `memset(p, 0, n)` and `memcpy(p, src, n)`
unfoldable pub clear : ℕ → ℕ → Memory → Memory
clear a n m q = if within a n q then 0 else m q

unfoldable pub copy : ℕ → ℕ → ℕ → Memory → Memory
copy a src n m q = if within a n q then m (src + (q - a)) else m q

-- `count` is `fixed_count_size` of the `pb_decode_noinit` that runs.
pub record Decoder : Type 0 where
  pub stream : Istream
  pub mem : Memory
  pub count : ℕ

-- Where `iter->pSize` points: into memory, or to the local counter.
pub data Cell : Type 0 where
  at : ℕ → Cell
  local : Cell

abbrev pub load_cell : Cell → Decoder → ℕ
load_cell (at a) d = load d.mem a 4
load_cell local d = d.count

abbrev pub store_cell : Cell → ℕ → Decoder → Decoder
store_cell (at a) v d = record d { mem = store_size a v d.mem }
store_cell local v d = record d { count = v % 2 ^ 32 }

-- What an address or a function pointer means, and the allocator, which works on memory. `realloc`
-- answers with the null pointer where it fails.
pub record Externals : Type 0 where
  pub descriptor : ℕ → List Field
  pub decode_callback : ℕ → Field → ℕ → M Decoder (Unit {0})
  pub decode_extension : ℕ → ℕ → ℕ → ℕ → M Decoder (Unit {0})
  pub realloc : ℕ → ℕ → Memory → ℕ × Memory
  pub free : ℕ → Memory → Memory

-- PB_RETURN_ERROR
abbrev pub throw : {A : Type 0} → Error → M Decoder A
throw e d =
    fail (record d { stream = record (d.stream) { errmsg = first_error d.stream.errmsg e } })

abbrev pub modify : (Memory → Memory) → M Decoder (Unit {0})
modify g d = ok tt (record d { mem = g d.mem })

-- A function of the stream alone.
abbrev pub lift : {A : Type 0} → M Istream A → M Decoder A
lift f d = elim (f d.stream) [
  | ok a s ↦ ok a (record d { stream = s })
  | fail s ↦ fail (record d { stream = s })
]

-- `allocate_field`: the test for overflow looks at the sizes only if one has more than 32 bits.
unfoldable pub allocate_field : Externals → ℕ → ℕ → ℕ → M Decoder (Unit {0})
allocate_field ext p_data data_size array_size d =
    let total : ℕ = array_size * data_size % 2 ^ 64 in
    let (p, mem') = ext.realloc (load_pointer d.mem p_data) total d.mem in
    let size_max : ℕ = 2 ^ 64 - 1 in
    if data_size == 0 || array_size == 0
    then throw invalid_size d
    else if (leb (2 ^ 32) data_size || leb (2 ^ 32) array_size)
        && ltb (size_max / array_size) data_size
    then throw size_too_large d
    else if p == 0
    then throw realloc_failed (record d { mem = mem' })
    else ok tt (record d { mem = store_pointer p_data p mem' })
