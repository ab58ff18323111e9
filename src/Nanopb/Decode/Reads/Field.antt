-- ===== src/Nanopb/Decode/Reads/Field.antt =====
-- `decode_field` of pb_decode.c stays within the stream.
use between_us.Prelude.{ℕ, zero, suc, ◌+◌, ◌==◌, if◌then◌else◌}
use between_us.Prelude.Outcome.{Outcome, ok, fail, M}
use between_us.Nanopb.Error.{invalid_field_type, callback_failed, invalid_union_tag, iterator_error}
use between_us.Nanopb.Input.{Istream}
use between_us.Nanopb.Input.Bounds.{pb_skip_field-Consuming, read_raw_value-Consuming}
use between_us.Nanopb.Input.Substream.{Opened}
use between_us.Nanopb.Field.{Field, Memory, htype, atype}
use between_us.Nanopb.Field.Htype
use between_us.Nanopb.Iter.{Iter, current}
use between_us.Nanopb.Decode.State.{Externals, Decoder, Cell, at}
use between_us.Nanopb.Decode.Reads.{
  Reads, Reading, Reads-ok, Reads-fail, Reads-throw, Reads-after, Reading-pure, Reading-throw,
  Reading->>=, Reading-if, Reads-if, Reading-lift, close_after-Reads, Reading-substream,
  Opened-throw,
}
use between_us.Nanopb.Field.Atype
use between_us.Nanopb.Field.{load_pointer}
use between_us.Nanopb.Input.Fields.{wt_string}
use between_us.Nanopb.Decode.Reset.{pb_message_set_to_defaults}
use between_us.Nanopb.Decode.Value.{decode_value, close_after}
use between_us.Nanopb.Decode.State.{throw}
use between_us.Nanopb.Decode.Field.{
  callback_loop, decode_callback_field, pb_release_union_field, decode_by_atype, decode_field,
}
use between_us.Nanopb.Decode.Reads.Value.{decode_value-Reading}
use between_us.Nanopb.Decode.Reads.Static.{decode_static_field-Reading}
use between_us.Nanopb.Decode.Reads.Pointer.{decode_pointer_field-Reading}

callback_loop-Reading :
    (rounds : ℕ) (callback : M Decoder (Unit {0}))
    → Reading callback
    → Reading (callback_loop rounds callback)
unfolding callback_loop
callback_loop-Reading zero callback h = record { run = λ d. Reads-fail d }
callback_loop-Reading (suc rounds) callback h = record {
  run = λ d. by_call d (callback d) (h.run d) (callback_loop-Reading rounds callback h);
}
  where
    by_call :
        (d : Decoder) (o : Outcome Decoder (Unit {0}))
        → Reads d.stream o
        → Reading (callback_loop rounds callback)
        → Reads d.stream (elim o as (λ x. Outcome Decoder (Unit {0})) [
          | ok _ d' ↦
              let more = callback_loop rounds callback d' in
              if d'.stream.bytes_left == 0 then ok tt d' else more
          | fail d' ↦ fail d'
        ])
    by_call d (ok _ d') r more =
        Reads-after d.stream d'.stream _ r.runs
          (Reads-if (d'.stream.bytes_left == 0) d'.stream _ _ (Reads-ok tt d') (more.run d'))
    by_call d (fail d') r more = record { runs = r.runs }

decode_callback_field-Reading :
    (ext : Externals) (wire_type : ℕ) (it : Iter)
    → ((function : ℕ) (f : Field) (arg : ℕ) → Reading (ext.decode_callback function f arg))
    → Reading (decode_callback_field ext wire_type it)
unfolding decode_callback_field
decode_callback_field-Reading ext wire_type it callbacks = record {
  run = λ d.
      Reads-if _ d.stream _ _
        ((Reading->>= _ _ (Reading-lift _ (pb_skip_field-Consuming wire_type))
            (λ _. Reading-pure tt)).run
          d)
        (Reads-if (wire_type == wt_string) d.stream _ _
          ((Reading-substream _ (λ t sub d1 o. text t sub d1 o _ (
              (callback_loop-Reading (suc sub.bytes_left) _
                  (callbacks (load_pointer d.mem it.p_data) (current it) (it.p_data + 8))).run
                (record d1 { stream = sub })))).run
            d)
          ((Reading->>= _ _ (Reading-lift _ (read_raw_value-Consuming 10 wire_type))
              (λ bytes. record { run = λ d1. scalar d1 _ })).run
            d));
}
  where
    text :
        (t sub : Istream) (d1 : Decoder)
        → Opened t sub d1.stream
        → (o : Outcome Decoder (Unit {0})) → Reads sub o
        → Reads t (elim o as (λ x. Outcome Decoder (Unit {0})) [
          | ok _ d2 ↦ close_after d1.stream (ok tt d2)
          | fail d2 ↦ throw callback_failed (record d2 { stream = d1.stream })
        ])
    text t sub d1 opened (ok _ d2) r =
        close_after-Reads t sub d1.stream (ok tt d2) opened (record { runs = r.runs })
    text t sub d1 opened (fail d2) r =
        Opened-throw t sub (record d2 { stream = d1.stream }) callback_failed opened

    scalar :
        (d1 : Decoder) (o : Outcome Decoder (Unit {0}))
        → Reads d1.stream (elim o as (λ x. Outcome Decoder (Unit {0})) [
          | ok _ d2 ↦ ok tt (record d2 { stream = d1.stream })
          | fail d2 ↦ fail (record d2 { stream = d1.stream })
        ])
    scalar d1 (ok _ d2) = Reads-ok tt (record d2 { stream = d1.stream })
    scalar d1 (fail d2) = Reads-fail (record d2 { stream = d1.stream })

pb_release_union_field-Reading :
    (release : Iter → Memory → Memory) (it : Iter) → Reading (pb_release_union_field release it)
unfolding pb_release_union_field
pb_release_union_field-Reading release it = record {
  run = λ d. Reads-if _ d.stream _ _ (Reads-ok it d) (
      Reads-if _ d.stream _ _ (Reads-throw invalid_union_tag d) (
        Reads-if _ d.stream _ _ (Reads-throw iterator_error (record d { mem = _ }))
          (Reads-ok _ (record d { mem = _ }))));
}

module _ (ext : Externals) (depth : ℕ) (decode noinit : ℕ → ℕ → M Decoder (Unit {0}))
    (decodes : (fields dest : ℕ) → Reading (decode fields dest))
    (noinits : (fields dest : ℕ) → Reading (noinit fields dest))
    (callbacks : (function : ℕ) (f : Field) (arg : ℕ)
      → Reading (ext.decode_callback function f arg)) where
  decode_by_atype-Reading :
      (wire_type : ℕ) (it : Iter) (cell : Cell)
      → Reading (decode_by_atype ext depth decode noinit wire_type it cell)
  unfolding decode_by_atype
  decode_by_atype-Reading wire_type it cell =
      let f = current it in
      let value = decode_value ext decode noinit in
      let values = decode_value-Reading ext decode noinit decodes noinits in
      let defaults = pb_message_set_to_defaults ext depth in
      Reading-if (atype f == Atype.static) _ _
        (decode_static_field-Reading value values defaults wire_type it cell)
        (Reading-if (atype f == Atype.pointer) _ _
          (decode_pointer_field-Reading ext value values defaults _ wire_type it cell)
          (Reading-if (atype f == Atype.callback) _ _
            (decode_callback_field-Reading ext wire_type it callbacks)
            (Reading-throw (Unit {0}) invalid_field_type)))

  pub decode_field-Reading :
      (wire_type : ℕ) (it : Iter) (cell : Cell)
      → Reading (decode_field ext depth decode noinit wire_type it cell)
  unfolding decode_field
  decode_field-Reading wire_type it cell = record {
    run = λ d.
        Reads-if (htype (current it) == Htype.oneof) d.stream _ _
          ((Reading->>= _ _ (pb_release_union_field-Reading _ it) (λ it'.
              Reading->>= _ _ (decode_by_atype-Reading wire_type it' (at it'.p_size))
                (λ _. Reading-pure it'))).run
            d)
          ((Reading->>= _ _ (decode_by_atype-Reading wire_type it cell) (λ _. Reading-pure it)).run
            d);
  }
