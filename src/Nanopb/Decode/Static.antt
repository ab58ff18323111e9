-- ===== src/Nanopb/Decode/Static.antt =====
-- decode_static_field of pb_decode.c. The cell is where `iter->pSize` points. `pb_size_t` has 32
-- bits, and an item's offset is computed in them.
use between_us.Prelude.{
  ℕ, zero, suc, ◌+◌, ◌*◌, ◌%◌, ◌^◌, Bool, true, not, ◌&&◌, leb, ltb, ◌==◌, if◌then◌else◌,
}
use between_us.Prelude.Outcome.{Outcome, ok, M, ◌>>=◌, final}
use between_us.Nanopb.Error.{array_overflow}
use between_us.Nanopb.Input.{Istream}
use between_us.Nanopb.Input.Fields.{wt_string, pb_make_string_substream}
use between_us.Nanopb.Field.{Field, ltype, htype, Memory, load_size}
use between_us.Nanopb.Field.Ltype
use between_us.Nanopb.Field.Htype
use between_us.Nanopb.Iter.{Iter, current}
use between_us.Nanopb.Decode.State.{
  Decoder, Cell, load_cell, store_cell, throw, modify, lift, store_size, store_bool, clear,
}
use between_us.Nanopb.Decode.Value.{close_after}

-- `(char*)base + iter->pos->data_size * (*size)`
abbrev pub item_at : ℕ → ℕ → ℕ → ℕ
item_at base data_size n = base + data_size * n % 2 ^ 32

-- `(*size)++`
abbrev pub count_one : Cell → Decoder → Decoder
count_one cell d = store_cell cell (load_cell cell d + 1) d

-- `wire_type == PB_WT_STRING && PB_LTYPE(type) <= PB_LTYPE_LAST_PACKABLE`
abbrev pub is_packed : Field → ℕ → Bool
is_packed f wire_type = wire_type == wt_string && leb (ltype f) Ltype.last_packable

module _ (value : Field → ℕ → M Decoder (Unit {0})) where
  -- The loop over a packed array in a static one: at most `array_size` rounds.
  unfoldable pub packed_loop : ℕ → Iter → Cell → M Decoder (Unit {0})
  packed_loop zero it cell d = ok tt d
  packed_loop (suc rounds) it cell d =
      let f = current it in
      let size = load_cell cell d in
      let next : M Decoder (Unit {0}) = λ d'. packed_loop rounds it cell (count_one cell d') in
      if not (d.stream.bytes_left == 0) && ltb size f.array_size
      then (value f (item_at it.p_data f.data_size size) >>= λ _. next) d
      else ok tt d

  -- The loop's stream must be used up.
  unfoldable pub close_packed : Istream → Outcome Decoder (Unit {0}) → Outcome Decoder (Unit {0})
  close_packed outer status =
      let d = final status in
      if not (d.stream.bytes_left == 0)
      then throw array_overflow (record d { stream = outer })
      else close_after outer status

  unfoldable pub decode_repeated : ℕ → Iter → Cell → M Decoder (Unit {0})
  decode_repeated wire_type it cell d =
      let f = current it in
      let size = load_cell cell d in
      let packed =
        (lift pb_make_string_substream >>= λ substream d1.
        close_packed d1.stream
          (packed_loop f.array_size it cell (record d1 { stream = substream }))) in
      if is_packed f wire_type
      then packed d
      else if leb f.array_size size
      then throw array_overflow (count_one cell d)
      else value f (item_at it.p_data f.data_size size) (count_one cell d)

  -- `defaults` is `pb_message_set_to_defaults`.
  unfoldable pub decode_static_field :
      (ℕ → ℕ → Memory → Memory) → ℕ → Iter → Cell → M Decoder (Unit {0})
  decode_static_field defaults wire_type it cell d =
      let f = current it in
      let read = value f it.p_data in
      let fresh = ltype f == Ltype.submessage && not (load_size d.mem it.p_size == f.tag) in
      let reset : Memory → Memory =
        λ m. if fresh then defaults f.ptr it.p_data (clear it.p_data f.data_size m) else m in
      if htype f == Htype.required
      then read d
      else if htype f == Htype.optional
      then (modify (λ m. if not (it.p_size == it.p_data) then store_bool it.p_size true m else m)
            >>= λ _. read)
          d
      else if htype f == Htype.repeated
      then decode_repeated wire_type it cell d
      else (modify (λ m. store_size it.p_size f.tag (reset m)) >>= λ _. read) d
