-- ===== src/Nanopb/Decode/Reads/Pointer.antt =====
-- `decode_pointer_field` of pb_decode.c stays within the stream.
use between_us.Prelude.{
  ◌∙◌, ℕ, zero, suc, ◌+◌, ◌≡◌, refl, Bool, true, false, ◌||◌, ltb, ◌==◌, if◌then◌else◌, arith,
}
use between_us.Prelude.Outcome.{Outcome, ok, fail, M, pure, ◌>>=◌}
use between_us.Nanopb.Error.{too_many_array_entries}
use between_us.Nanopb.Input.{Istream}
use between_us.Nanopb.Field.{Field, Memory, ltype, htype}
use between_us.Nanopb.Field.Htype
use between_us.Nanopb.Field.Ltype
use between_us.Nanopb.Iter.{Iter, current}
use between_us.Nanopb.Decode.State.{Externals, Decoder, Cell, load_cell, modify, allocate_field}
use between_us.Nanopb.Decode.Reads.{
  Reads, Reading, Reads-ok, Reads-fail, Reads-throw, Reads-after, Reading-pure, Reading-modify,
  Reads->>=, Reading->>=, Reading-if, Reads-if, close_after-Reads, Reading-substream,
  allocate_field-Reading,
}
use between_us.Nanopb.Field.{load_pointer, pb_size_max}
use between_us.Nanopb.Decode.Pointer.{
  initialize_pointer_field, packed_entry, packed_pointer_loop, decode_pointer_array,
  decode_pointer_field,
}
use between_us.Nanopb.Decode.Reads.Static.{counted}

-- What the loop over a packed array does to its substream; of the stream outside it only sets the
-- message.
record LoopReads (s outer : Istream) (r : Istream × Outcome Decoder (Unit {0})) : Type 0 where
  reads : Reads s r.1
  same_source : r.0.source ≡ outer.source
  same_left : r.0.bytes_left ≡ outer.bytes_left

LoopReads-if :
    (b : Bool) (s outer : Istream) (x y : Istream × Outcome Decoder (Unit {0}))
    → LoopReads s outer x
    → LoopReads s outer y
    → LoopReads s outer (if b then x else y)
LoopReads-if true s outer x y f g = f
LoopReads-if false s outer x y f g = g

module _ (ext : Externals) (value : Field → ℕ → M Decoder (Unit {0}))
    (values : (f : Field) (dest : ℕ) → Reading (value f dest))
    (defaults : ℕ → ℕ → Memory → Memory) where
  -- An entry that is prepared in memory and then decoded.
  entry-Reading :
      (f : Field) (item : ℕ)
      → Reading (
          modify (initialize_pointer_field ext value defaults f item) >>= λ (u : Unit {0}).
          value f item)
  entry-Reading f item =
      Reading->>= (modify (initialize_pointer_field ext value defaults f item)) _ (Reading-modify _)
        (λ _. values f item)

  packed_entry-Reading :
      (it : Iter) (cell : Cell) (allocated : ℕ)
      → Reading (packed_entry ext value defaults it cell allocated)
  unfolding packed_entry
  packed_entry-Reading it cell allocated = record {
    run = λ d.
        (Reading->>= _ _
            (Reading-if (ltb allocated (load_cell cell d + 1)) _ _
              (allocate_field-Reading ext it.p_data (current it).data_size _) (Reading-pure tt))
            (λ _.
              Reading->>= _ _
                (record {
                  run = λ d1.
                      Reads-if _ d1.stream _ _ (Reads-fail d1)
                        ((entry-Reading (current it) _).run d1);
                })
                (λ _. record {
                  run = λ d2. counted d2.stream cell d2 (pure _) refl (Reading-pure _);
                }))).run
          d;
  }

  packed_pointer_loop-Reads :
      (rounds : ℕ) (it : Iter) (cell : Cell) (allocated : ℕ) (outer : Istream) (d : Decoder)
      → LoopReads d.stream outer
          (packed_pointer_loop ext value defaults rounds it cell allocated outer d)
  unfolding packed_pointer_loop
  packed_pointer_loop-Reads zero it cell allocated outer d = record {
    reads = Reads-ok tt d;
    same_source = refl;
    same_left = refl;
  }
  packed_pointer_loop-Reads (suc rounds) it cell allocated outer d =
      LoopReads-if (d.stream.bytes_left == 0) d.stream outer _ _
        (record { reads = Reads-ok tt d; same_source = refl; same_left = refl })
        (LoopReads-if (load_cell cell d == pb_size_max) d.stream outer _ _
          (record { reads = Reads-fail d; same_source = refl; same_left = refl })
          (by_entry (packed_entry ext value defaults it cell allocated d)
            ((packed_entry-Reading it cell allocated).run d)
            (λ allocated' d'. packed_pointer_loop-Reads rounds it cell allocated' outer d')))
    where
      by_entry :
          (o : Outcome Decoder ℕ)
          → Reads d.stream o
          → ((allocated' : ℕ) (d' : Decoder)
              → LoopReads d'.stream outer
                  (packed_pointer_loop ext value defaults rounds it cell allocated' outer d'))
          → LoopReads d.stream outer (elim o as (λ x. Istream × Outcome Decoder (Unit {0})) [
            | ok allocated' d' ↦
                packed_pointer_loop ext value defaults rounds it cell allocated' outer d'
            | fail d' ↦ (outer, fail d')
          ])
      by_entry (ok allocated' d') h again =
          let more = again allocated' d' in
          record {
            reads = Reads-after d.stream d'.stream _ h.runs more.reads;
            same_source = more.same_source;
            same_left = more.same_left;
          }
      by_entry (fail d') h again = record {
        reads = record { runs = h.runs };
        same_source = refl;
        same_left = refl;
      }

  decode_pointer_array-Reading :
      (wire_type : ℕ) (it : Iter) (cell : Cell)
      → Reading (decode_pointer_array ext value defaults wire_type it cell)
  unfolding decode_pointer_array
  decode_pointer_array-Reading wire_type it cell = record {
    run = λ d.
        Reads-if _ d.stream _ _
          ((Reading-substream _ (λ t sub d1 o.
              let loop =
                packed_pointer_loop-Reads sub.bytes_left it cell (load_cell cell d) d1.stream
                  (record d1 { stream = sub }) in
              close_after-Reads t sub _ _
                (record {
                  same_sub = o.same_sub;
                  same_parent = loop.same_source ∙ o.same_parent;
                  shared = omega (arith, o.shared, loop.same_left);
                })
                loop.reads)).run
            d)
          (Reads-if _ d.stream _ _ (Reads-throw too_many_array_entries d) (
            (Reading->>= _ _
                (allocate_field-Reading ext it.p_data (current it).data_size (load_cell cell d + 1))
                (λ _. record {
                  run = λ d1. counted d1.stream cell d1 _ refl (entry-Reading (current it) _);
                })).run
              d));
  }

  pub decode_pointer_field-Reading :
      (release : Iter → Memory → Memory) (wire_type : ℕ) (it : Iter) (cell : Cell)
      → Reading (decode_pointer_field ext value defaults release wire_type it cell)
  unfolding decode_pointer_field
  decode_pointer_field-Reading release wire_type it cell = record {
    run = λ d.
        let f = current it in
        Reads-if (htype f == Htype.repeated) d.stream _ _
          ((decode_pointer_array-Reading wire_type it cell).run d)
          (Reads-if (ltype f == Ltype.string || ltype f == Ltype.bytes) d.stream _ _
            ((values f it.p_data).run (record d { mem = _ }))
            (Reads->>= d.stream (allocate_field ext it.p_data f.data_size 1) (record d { mem = _ })
              _ ((allocate_field-Reading ext it.p_data f.data_size 1).run (record d { mem = _ }))
              (λ _ t. (entry-Reading f (load_pointer t.mem it.p_data)).run t)));
  }
