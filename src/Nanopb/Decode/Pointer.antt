-- ===== src/Nanopb/Decode/Pointer.antt =====
-- decode_pointer_field of pb_decode.c, for fields whose data is allocated.
use between_us.Prelude.{
  ℕ, zero, suc, ◌+◌, ◌-◌, ◌/◌, not, ◌&&◌, ◌||◌, some, ltb, ◌==◌, if◌then◌else◌,
}
use between_us.Prelude.Outcome.{Outcome, ok, fail, M, pure, ◌>>=◌}
use between_us.Nanopb.Error.{too_many_array_entries}
use between_us.Nanopb.Input.{Istream}
use between_us.Nanopb.Input.Fields.{pb_make_string_substream}
use between_us.Nanopb.Field.{Field, ltype, htype, Memory, load_pointer, pb_size_max}
use between_us.Nanopb.Field.Ltype
use between_us.Nanopb.Field.Htype
use between_us.Nanopb.Iter.{Iter, current}
use between_us.Nanopb.Decode.State.{
  Externals, Decoder, Cell, load_cell, throw, modify, lift, store_size, store_pointer, clear,
  allocate_field,
}
use between_us.Nanopb.Decode.Value.{close_after}
use between_us.Nanopb.Decode.Static.{item_at, count_one, is_packed}

-- `pb_istream_t`s are separate objects: the loop over a packed array in an allocated one changes its
-- substream, and in one place the message of the stream outside.
module _ (ext : Externals) (value : Field → ℕ → M Decoder (Unit {0}))
    (defaults : ℕ → ℕ → Memory → Memory) where
  unfoldable pub initialize_pointer_field : Field → ℕ → Memory → Memory
  initialize_pointer_field f item m =
      if ltype f == Ltype.string || ltype f == Ltype.bytes
      then store_pointer item 0 m
      else if ltype f == Ltype.submessage
      then defaults f.ptr item (clear item f.data_size m)
      else m

  -- How many entries to reserve when those reserved are used up.
  unfoldable pub more_entries : Field → ℕ → ℕ → ℕ
  more_entries f allocated bytes_left =
      let remain = (bytes_left - 1) / f.data_size + 1 in
      if ltb remain (pb_size_max - allocated) then allocated + remain else allocated + 1

  -- A round of the loop behind the first test: the value is the number of entries reserved.
  unfoldable pub packed_entry : Iter → Cell → ℕ → M Decoder ℕ
  packed_entry it cell allocated d =
      let f = current it in
      let size = load_cell cell d in
      let full = ltb allocated (size + 1) in
      let allocated' : ℕ =
        if full then more_entries f allocated d.stream.bytes_left else allocated in
      let reserve : M Decoder (Unit {0}) =
        if full then allocate_field ext it.p_data f.data_size allocated' else pure tt in
      let entry : M Decoder (Unit {0}) = λ d1.
        let item = item_at (load_pointer d1.mem it.p_data) f.data_size (load_cell cell d1) in
        if item == 0
        then fail d1
        else (modify (initialize_pointer_field f item) >>= λ _. value f item) d1 in
      (reserve >>= λ _. entry >>= λ _ d2. ok allocated' (count_one cell d2)) d

  -- The loop, with the stream outside. An entry takes at least a byte, so `bytes_left` rounds are
  -- enough.
  unfoldable pub packed_pointer_loop :
      ℕ → Iter → Cell → ℕ → Istream → Decoder → Istream × Outcome Decoder (Unit {0})
  packed_pointer_loop zero it cell allocated outer d = (outer, ok tt d)
  packed_pointer_loop (suc rounds) it cell allocated outer d =
      let next : ℕ → Decoder → Istream × Outcome Decoder (Unit {0}) =
        λ allocated' d'. packed_pointer_loop rounds it cell allocated' outer d' in
      if d.stream.bytes_left == 0
      then (outer, ok tt d)
      else if load_cell cell d == pb_size_max
      then (record outer { errmsg = some too_many_array_entries }, fail d)
      else elim (packed_entry it cell allocated d) [
        | ok allocated' d' ↦ next allocated' d'
        | fail d' ↦ (outer, fail d')
      ]

  unfoldable pub decode_pointer_array : ℕ → Iter → Cell → M Decoder (Unit {0})
  decode_pointer_array wire_type it cell d =
      let f = current it in
      let size = load_cell cell d in
      let packed : M Decoder (Unit {0}) =
        (lift pb_make_string_substream >>= λ substream d1.
        let (outer, status) =
          packed_pointer_loop substream.bytes_left it cell size d1.stream
            (record d1 { stream = substream }) in
        close_after outer status) in
      let entry : M Decoder (Unit {0}) = λ d1.
        let item = item_at (load_pointer d1.mem it.p_data) f.data_size (load_cell cell d1) in
        (modify (initialize_pointer_field f item) >>= λ _. value f item) (count_one cell d1) in
      if is_packed f wire_type
      then packed d
      else if size == pb_size_max
      then throw too_many_array_entries d
      else (allocate_field ext it.p_data f.data_size (size + 1) >>= λ _. entry) d

  -- `release` is `pb_release_single_field` on the iterator.
  unfoldable pub decode_pointer_field :
      (Iter → Memory → Memory) → ℕ → Iter → Cell → M Decoder (Unit {0})
  decode_pointer_field release wire_type it cell d =
      let f = current it in
      let old = ltype f == Ltype.submessage && not (load_pointer d.mem it.p_data == 0) in
      let prepare : Memory → Memory = λ m.
        let m' : Memory = if old then release it m else m in
        if htype f == Htype.oneof then store_size it.p_size f.tag m' else m' in
      let entry : M Decoder (Unit {0}) = λ d1.
        let item = load_pointer d1.mem it.p_data in
        (modify (initialize_pointer_field f item) >>= λ _. value f item) d1 in
      if htype f == Htype.repeated
      then decode_pointer_array wire_type it cell d
      else if ltype f == Ltype.string || ltype f == Ltype.bytes
      then (modify prepare >>= λ _. value f it.p_data) d
      else (modify prepare >>= λ _. allocate_field ext it.p_data f.data_size 1 >>= λ _. entry) d
