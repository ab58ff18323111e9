-- ===== src/Nanopb/Decode/Reads/Message.antt =====
-- The loop of `pb_decode_noinit` in pb_decode.c stays within the stream.
use between_us.Prelude.{
  ℕ, zero, suc, ◌-◌, ◌^◌, Bool, true, false, not, leb, ◌==◌, if◌then◌else◌, List,
}
use between_us.Prelude.Outcome.{Outcome, ok, fail, M, pure, ◌>>=◌}
use between_us.Nanopb.Error.{wrong_fixed_count, missing_required_field}
use between_us.Nanopb.Input.Fields.{Header, field, eof, error, pb_decode_tag, pb_skip_field}
use between_us.Nanopb.Input.Laws.{Consumes}
use between_us.Nanopb.Input.Bounds.{behind, pb_decode_tag-Consumes, pb_skip_field-Consuming}
use between_us.Nanopb.Field.{Field, load_pointer}
use between_us.Nanopb.Iter.{Iter, current}
use between_us.Nanopb.Decode.State.{Externals, Decoder, Cell, lift}
use between_us.Nanopb.Decode.Reset.{next_extension}
use between_us.Nanopb.Decode.Seen.{Locals, find_extension_field}
use between_us.Nanopb.Decode.Field.{decode_field}
use between_us.Nanopb.Decode.Message.{
  default_extension_decoder, try_extension, extension_loop, decode_extension, decode_unknown,
  decode_known, decode_tagged, message_loop, check_complete, decode_message,
}
use between_us.Nanopb.Decode.Reads.{
  Reads, Reading, Reads-ok, Reads-fail, Reads-throw, Reads-after, Reading-pure, Reads->>=,
  Reading->>=, Reads-if, Reading-if, Reading-lift,
}
use between_us.Nanopb.Decode.Reads.Field.{decode_field-Reading}

-- What is asked of the functions of the caller: to read from the stream through its functions.
pub record IsReading (ext : Externals) : Type 0 where
  pub callback : (function : ℕ) (f : Field) (arg : ℕ) → Reading (ext.decode_callback function f arg)
  pub extension :
      (function extension tag wire_type : ℕ)
      → Reading (ext.decode_extension function extension tag wire_type)

module _ (ext : Externals) (depth : ℕ) (decode noinit : ℕ → ℕ → M Decoder (Unit {0}))
    (decodes : (fields dest : ℕ) → Reading (decode fields dest))
    (noinits : (fields dest : ℕ) → Reading (noinit fields dest)) (is_reading : IsReading ext) where
  field-Reading :
      (wire_type : ℕ) (it : Iter) (cell : Cell)
      → Reading (decode_field ext depth decode noinit wire_type it cell)
  field-Reading wire_type it cell =
      decode_field-Reading ext depth decode noinit decodes noinits is_reading.callback wire_type it
        cell

  try_extension-Reading :
      (extension tag wire_type : ℕ)
      → Reading (try_extension ext depth decode noinit extension tag wire_type)
  unfolding try_extension default_extension_decoder
  try_extension-Reading extension tag wire_type = record {
    run = λ d.
        Reads-if _ d.stream _ _
          (Reads-if _ d.stream _ _ (Reads-ok tt d) (
            (Reading->>= _ _ (field-Reading wire_type _ _) (λ _. Reading-pure tt)).run
              (record d { mem = _ })))
          ((is_reading.extension _ extension tag wire_type).run d);
  }

  extension_loop-Reading :
      (rounds extension pos tag wire_type : ℕ)
      → Reading (extension_loop ext depth decode noinit rounds extension pos tag wire_type)
  unfolding extension_loop
  extension_loop-Reading zero extension pos tag wire_type = record {
    run = λ d. Reads-if _ d.stream _ _ (Reads-ok tt d) (Reads-fail d);
  }
  extension_loop-Reading (suc rounds) extension pos tag wire_type = record {
    run = λ d. Reads-if _ d.stream _ _ (Reads-ok tt d) (
        (Reading->>= _ _ (try_extension-Reading extension tag wire_type) (λ _. record {
          run = λ d'.
              let e = next_extension d'.mem extension in
              (extension_loop-Reading rounds e pos tag wire_type).run d';
        })).run
          d);
  }

  skip-Reading :
      (wire_type : ℕ) (l : Locals)
      → Reading (lift (pb_skip_field wire_type) >>= λ (u : List ℕ). pure l)
  skip-Reading wire_type l =
      Reading->>= _ _ (Reading-lift _ (pb_skip_field-Consuming wire_type)) (λ _. Reading-pure l)

  decode_extension-Reading :
      (tag wire_type : ℕ) (it : Iter)
      → Reading (decode_extension ext depth decode noinit tag wire_type it)
  unfolding decode_extension
  decode_extension-Reading tag wire_type it = record {
    run = λ d.
        let e = load_pointer d.mem it.p_data in
        (extension_loop-Reading depth e d.stream.bytes_left tag wire_type).run d;
  }

  decode_unknown-Reading :
      (tag wire_type : ℕ) (l : Locals)
      → Reading (decode_unknown ext depth decode noinit tag wire_type l)
  unfolding decode_unknown
  decode_unknown-Reading tag wire_type l =
      let (found, it) = find_extension_field l.iter in
      let start : ℕ = if found then (current it).tag else 2 ^ 32 - 1 in
      let l' : Locals = record l { iter = it; extension_range_start = start } in
      let handle = decode_extension ext depth decode noinit tag wire_type it in
      let skipped = skip-Reading wire_type l' in
      record {
        run = λ d.
            Reads-if (not (leb l.extension_range_start tag)) d.stream _ _
              ((skip-Reading wire_type l).run d)
              (Reads-if (leb start tag) d.stream _ _
                (Reads->>= d.stream handle d _ ((decode_extension-Reading tag wire_type it).run d)
                  (λ _ t.
                    Reads-if (not (t.stream.bytes_left == d.stream.bytes_left)) t.stream _ _
                      (Reads-ok l' t) (skipped.run t)))
                (skipped.run d));
      }

  fresh_count :
      (b : Bool) (d : Decoder) (m : M Decoder Locals)
      → Reading m
      → Reads d.stream (m (if b then record d { count = 0 } else d))
  fresh_count true d m h = h.run (record d { count = 0 })
  fresh_count false d m h = h.run d

  decode_known-Reading :
      (wire_type : ℕ) (l : Locals) → Reading (decode_known ext depth decode noinit wire_type l)
  unfolding decode_known
  decode_known-Reading wire_type l = record {
    run = λ d. Reads-if _ d.stream _ _ (Reads-throw wrong_fixed_count d) (
        fresh_count _ d _
          (Reading->>= _ _ (field-Reading wire_type l.iter _) (λ it. Reading-pure _)));
  }

  pub decode_tagged-Reading :
      (tag wire_type : ℕ) (l : Locals)
      → Reading (decode_tagged ext depth decode noinit tag wire_type l)
  unfolding decode_tagged
  decode_tagged-Reading tag wire_type l =
      Reading-if _ _ _ (decode_known-Reading wire_type _) (decode_unknown-Reading tag wire_type _)

  message_loop-Reading :
      (rounds : ℕ) (l : Locals) → Reading (message_loop ext depth decode noinit rounds l)
  unfolding message_loop
  message_loop-Reading zero l = record { run = λ d. Reads-fail d }
  message_loop-Reading (suc rounds) l = record {
    run = λ d. Reads-if (d.stream.bytes_left == 0) d.stream _ _ (Reads-ok l d) (
        by_header d (pb_decode_tag d.stream) (pb_decode_tag-Consumes d.stream)
          (λ l'. message_loop-Reading rounds l'));
  }
    where
      by_header :
          (d : Decoder) (h : Header)
          → Consumes d.stream (behind h)
          → ((l' : Locals) → Reading (message_loop ext depth decode noinit rounds l'))
          → Reads d.stream (elim h as (λ x. Outcome Decoder Locals) [
            | field tag wire_type s ↦
                (decode_tagged ext depth decode noinit tag wire_type l
                    >>= message_loop ext depth decode noinit rounds)
                  (record d { stream = s })
            | eof s ↦ ok l (record d { stream = s })
            | error s ↦ fail (record d { stream = s })
          ])
      by_header d (field tag wire_type s) c more = Reads-after d.stream s _ c (
          (Reading->>= _ _ (decode_tagged-Reading tag wire_type l) more).run
            (record d { stream = s }))
      by_header d (eof s) c more = record { runs = c }
      by_header d (error s) c more = record { runs = c }

  check_complete-Reading : (l : Locals) → Reading (check_complete ext depth decode noinit l)
  unfolding check_complete
  check_complete-Reading l = record {
    run = λ d.
        Reads-if _ d.stream _ _ (Reads-throw wrong_fixed_count d)
          (Reads-if _ d.stream _ _ (Reads-throw missing_required_field d) (Reads-ok tt d));
  }

  pub decode_message-Reading :
      (fields : List Field) (dest : ℕ)
      → Reading (decode_message ext depth decode noinit fields dest)
  unfolding decode_message
  decode_message-Reading fields dest = record {
    run = λ d.
        (Reading->>= _ _ (message_loop-Reading (suc d.stream.bytes_left) _)
            (λ l. check_complete-Reading l)).run
          d;
  }
