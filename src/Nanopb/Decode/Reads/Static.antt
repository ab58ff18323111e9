-- ===== src/Nanopb/Decode/Reads/Static.antt =====
-- `decode_static_field` of pb_decode.c stays within the stream.
use between_us.Prelude.{ℕ, zero, suc, ◌≡◌, refl, true, not, ◌&&◌, ◌==◌, if◌then◌else◌}
use between_us.Prelude.Outcome.{Outcome, M, final}
use between_us.Nanopb.Error.{array_overflow}
use between_us.Nanopb.Input.{Istream}
use between_us.Nanopb.Input.Substream.{Opened}
use between_us.Nanopb.Field.{Field, Memory, ltype, htype}
use between_us.Nanopb.Field.{load_size}
use between_us.Nanopb.Field.Htype
use between_us.Nanopb.Field.Ltype
use between_us.Nanopb.Decode.State.{store_bool, store_size, clear}
use between_us.Nanopb.Iter.{Iter, current}
use between_us.Nanopb.Decode.State.{Decoder, Cell, at, local, modify}
use between_us.Nanopb.Decode.Static.{
  count_one, packed_loop, close_packed, decode_repeated, decode_static_field,
}
use between_us.Nanopb.Decode.Reads.{
  Reads, Reading, Reads-ok, Reading-pure, Reading-throw, Reading-modify, Reads->>=, Reading->>=,
  Reads-if, close_after-Reads, Reading-substream, Opened-throw,
}

-- A counter is no part of the stream.
pub counted :
    {A : Type 0} (s : Istream) (cell : Cell) (d : Decoder) (m : M Decoder A)
    → s ≡ d.stream
    → Reading m
    → Reads s (m (count_one cell d))
counted s (at a) d m e r = rw e (r.run _)
counted s local d m e r = rw e (r.run _)

module _ (value : Field → ℕ → M Decoder (Unit {0}))
    (values : (f : Field) (dest : ℕ) → Reading (value f dest)) where
  packed_loop-Reading :
      (rounds : ℕ) (it : Iter) (cell : Cell) → Reading (packed_loop value rounds it cell)
  unfolding packed_loop
  packed_loop-Reading zero it cell = Reading-pure tt
  packed_loop-Reading (suc rounds) it cell = record {
    run = λ d.
        Reads-if _ d.stream _ _
          (Reads->>= d.stream (value (current it) _) d _ ((values (current it) _).run d)
            (λ _ t. counted t.stream cell t _ refl (packed_loop-Reading rounds it cell)))
          (Reads-ok tt d);
  }

  close_packed-Reads :
      (t sub outer : Istream) (status : Outcome Decoder (Unit {0}))
      → Opened t sub outer
      → Reads sub status
      → Reads t (close_packed value outer status)
  unfolding close_packed
  close_packed-Reads t sub outer status o h =
      Reads-if _ t _ _
        (Opened-throw t sub (record (final status) { stream = outer }) array_overflow o)
        (close_after-Reads t sub outer status o h)

  decode_repeated-Reading :
      (wire_type : ℕ) (it : Iter) (cell : Cell) → Reading (decode_repeated value wire_type it cell)
  unfolding decode_repeated
  decode_repeated-Reading wire_type it cell = record {
    run = λ d.
        Reads-if _ d.stream _ _
          ((Reading-substream _ (λ t sub d1 o. close_packed-Reads t sub d1.stream _ o (
              (packed_loop-Reading (current it).array_size it cell).run
                (record d1 { stream = sub })))).run
            d)
          (Reads-if _ d.stream _ _
            (counted d.stream cell d _ refl (Reading-throw (Unit {0}) array_overflow))
            (counted d.stream cell d _ refl (values (current it) _)));
  }

  pub decode_static_field-Reading :
      (defaults : ℕ → ℕ → Memory → Memory) (wire_type : ℕ) (it : Iter) (cell : Cell)
      → Reading (decode_static_field value defaults wire_type it cell)
  unfolding decode_static_field
  decode_static_field-Reading defaults wire_type it cell = record {
    run = λ d.
        let rule = htype (current it) in
        let read = values (current it) it.p_data in
        let after =
          λ (g : Memory → Memory). Reading->>= (modify g) _ (Reading-modify g) (λ _. read) in
        Reads-if (rule == Htype.required) d.stream _ _ (read.run d) (
          Reads-if (rule == Htype.optional) d.stream _ _
            ((after
                (λ m. if not (it.p_size == it.p_data) then store_bool it.p_size true m else m)).run
              d)
            (Reads-if (rule == Htype.repeated) d.stream _ _
              ((decode_repeated-Reading wire_type it cell).run d)
              ((after (λ m. store_size it.p_size (current it).tag (
                  if ltype (current it) == Ltype.submessage
                    && not (load_size d.mem it.p_size == (current it).tag)
                  then defaults (current it).ptr it.p_data
                      (clear it.p_data (current it).data_size m)
                  else m))).run
                d)));
  }
