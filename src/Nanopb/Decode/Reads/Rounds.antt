-- ===== src/Nanopb/Decode/Reads/Rounds.antt =====
-- The loop of `pb_decode_noinit` in pb_decode.c ends: more rounds than there are bytes left change nothing.
use between_us.Prelude.{
  ℕ, zero, suc, ◌<◌, ◌≡◌, refl, Bool, true, false, if◌then◌else◌, List, drop, ◌==◌, arith,
}
use between_us.Prelude.Outcome.{Outcome, ok, fail, M, ◌>>=◌, >>=_same, final}
use mathlib.Core.Path.{subst}
use between_us.Nanopb.Input.{Istream, memory}
use between_us.Nanopb.Input.Fields.{Header, field, eof, error, pb_decode_tag}
use between_us.Nanopb.Input.Laws.{Consumes}
use between_us.Nanopb.Input.Bounds.{behind, pb_decode_tag-Consumes}
use between_us.Nanopb.Input.Rounds.{IsCounted, pb_decode_tag-IsCounted}
use between_us.Nanopb.Decode.State.{Externals, Decoder}
use between_us.Nanopb.Decode.Seen.{Locals}
use between_us.Nanopb.Decode.Message.{decode_tagged, message_loop, decode_with, pb_decode_noinit}
use between_us.Nanopb.Decode.Reads.{Reading}
use between_us.Nanopb.Decode.Reads.Message.{IsReading, decode_tagged-Reading}
use between_us.Nanopb.Decode.Reads.Whole.{decode_with-Reading, pb_decode_noinit-Reading}

-- The outcomes of a round, by the header that it has read.
by_header :
    (d : Decoder) (l : Locals) (f g : ℕ → ℕ → M Decoder Locals) (h : Header)
    → ((tag wire_type : ℕ) (s : Istream)
        → h ≡ field tag wire_type s
        → f tag wire_type (record d { stream = s }) ≡ g tag wire_type (record d { stream = s }))
    → (elim h as (λ x. Outcome Decoder Locals) [
      | field tag wire_type s ↦ f tag wire_type (record d { stream = s })
      | eof s ↦ ok l (record d { stream = s })
      | error s ↦ fail (record d { stream = s })
    ])
      ≡ (elim h as (λ x. Outcome Decoder Locals) [
        | field tag wire_type s ↦ g tag wire_type (record d { stream = s })
        | eof s ↦ ok l (record d { stream = s })
        | error s ↦ fail (record d { stream = s })
      ])
by_header d l f g (field tag wire_type s) same = same tag wire_type s refl
by_header d l f g (eof s) same = refl
by_header d l f g (error s) same = refl

if_other : {A : Type 0} (b : Bool) (x y z : A) → y ≡ z → (if b then x else y) ≡ (if b then x else z)
if_other true x y z e = refl
if_other false x y z e = e

module _ (ext : Externals) (depth : ℕ) (is_reading : IsReading ext) where
  abbrev noinit : ℕ → ℕ → M Decoder (Unit {0})
  noinit = pb_decode_noinit ext depth

  abbrev decode : ℕ → ℕ → M Decoder (Unit {0})
  decode = decode_with ext depth (pb_decode_noinit ext depth)

  tagged-Reading :
      (tag wire_type : ℕ) (l : Locals)
      → Reading (decode_tagged ext depth decode noinit tag wire_type l)
  tagged-Reading tag wire_type l =
      let noinits = λ (f a : ℕ). pb_decode_noinit-Reading ext depth f a is_reading in
      decode_tagged-Reading ext depth decode noinit
        (λ f a. decode_with-Reading ext depth noinit f a (noinits f a)) noinits is_reading tag
        wire_type l

  -- Every number of rounds above `bytes_left` gives the loop of `pb_decode_noinit` the same outcome on a stream over
  -- memory, so the rounds that the model gives it never run out: each round takes a byte at least, and the
  -- fields that it decodes give none back, nor do the functions of the caller.
  pub message_loop_enough :
      (m n : ℕ) (l : Locals) (d : Decoder) (bytes : List ℕ)
      → d.stream.source ≡ memory bytes
      → d.stream.bytes_left < m
      → d.stream.bytes_left < n
      → message_loop ext depth decode noinit m l d ≡ message_loop ext depth decode noinit n l d
  unfolding message_loop
  message_loop_enough zero n l d bytes stands h k = absurd (omega arith)
  message_loop_enough (suc m) zero l d bytes stands h k = absurd (omega arith)
  message_loop_enough (suc m) (suc n) l d bytes stands h k =
      if_other (d.stream.bytes_left == 0) _ _ _ (
        by_header d l
          (λ tag wire_type.
            decode_tagged ext depth decode noinit tag wire_type l
            >>= message_loop ext depth decode noinit m)
          (λ tag wire_type.
            decode_tagged ext depth decode noinit tag wire_type l
            >>= message_loop ext depth decode noinit n)
          (pb_decode_tag d.stream)
          λ tag wire_type s e.
            let fewer : s.bytes_left < d.stream.bytes_left =
              subst (IsCounted d.stream) e (pb_decode_tag-IsCounted d.stream) in
            let read : Consumes d.stream s =
              subst (λ (x : Header). Consumes d.stream (behind x)) e
                (pb_decode_tag-Consumes d.stream) in
            let first = read bytes stands in
            >>=_same (decode_tagged ext depth decode noinit tag wire_type l) _ _
              (record d { stream = s })
              λ l' d' e'.
                let reads : Consumes s d'.stream =
                  subst (λ (o : Outcome Decoder Locals). Consumes s (final o).stream) e'
                    ((tagged-Reading tag wire_type l).run (record d { stream = s })).runs in
                let rest = reads (drop first.taken bytes) first.stands in
                message_loop_enough m n l' d' (drop rest.taken (drop first.taken bytes)) rest.stands
                  (omega (arith, rest.within, fewer)) (omega (arith, rest.within, fewer)))
