-- ===== src/Nanopb/Input/Substream.antt =====
-- The substreams of length-delimited data (pb_decode.c): what is read of them is within their parent.
use between_us.Prelude.{
  ℕ, ◌+◌, ◌-◌, ◌≤◌, ◌≡◌, refl, ◌∙◌, if◌then◌else◌, inl, inr, Bool-cases, List, ltb, ◌==◌, arith,
}
use between_us.Prelude.Outcome.{Outcome, ok, fail, final}
use between_us.Nanopb.Error.{parent_too_short}
use between_us.Nanopb.Input.{Istream, return_error}
use between_us.Nanopb.Input.Varint.{pb_decode_varint32}
use between_us.Nanopb.Input.Fields.{drain, pb_make_string_substream, pb_close_string_substream}
use between_us.Nanopb.Input.Laws.{
  Consumes, Consumes-refl, Consumes-trans, Consumes-if, nothing_taken, Consuming-return_error,
  pb_skip-Consuming,
}
use between_us.Nanopb.Input.Bounds.{pb_decode_varint32-Consuming}

-- A stream is shared out to a substream and what is left to its parent.
pub record Opened (t sub parent : Istream) : Type 0 where
  pub same_sub : sub.source ≡ t.source
  pub same_parent : parent.source ≡ t.source
  pub shared : sub.bytes_left + parent.bytes_left ≤ t.bytes_left

-- The parent of a substream that is not closed.
pub Opened-Consumes : (t sub parent : Istream) → Opened t sub parent → Consumes t parent
Opened-Consumes t sub parent o = nothing_taken t parent o.same_parent (omega (arith, o.shared))

-- The parent at the place of a substream that has read within its bytes.
pub moved :
    (t sub parent sub' parent' : Istream)
    → Opened t sub parent
    → Consumes sub sub'
    → parent'.source ≡ sub'.source
    → parent'.bytes_left ≡ parent.bytes_left
    → Consumes t parent'
moved t sub parent sub' parent' o c source left bytes stands =
    let read = c bytes (o.same_sub ∙ stands) in
    record {
      taken = read.taken;
      stands = source ∙ read.stands;
      within = omega (arith, read.within, o.shared, left);
    }

drain-Consumes : (sub : Istream) → Consumes sub (final (drain sub))
drain-Consumes sub =
    Consumes-if (sub.bytes_left == 0) sub _ _ (Consumes-refl sub)
      ((pb_skip-Consuming sub.bytes_left).run sub)

pub pb_close_string_substream-Consumes :
    (t sub parent sub' : Istream)
    → Opened t sub parent
    → Consumes sub sub'
    → Consumes t (final (pb_close_string_substream sub' parent))
unfolding pb_close_string_substream
pb_close_string_substream-Consumes t sub parent sub' o c =
    by_drain (drain sub') (drain-Consumes sub')
  where
    by_drain :
        (r : Outcome Istream (List ℕ))
        → Consumes sub' (final r)
        → Consumes t (
            final (elim r as (λ x. Outcome Istream (Unit {0})) [
              | ok bytes s ↦ ok tt (record parent { source = s.source; errmsg = s.errmsg })
              | fail s ↦ fail parent
            ]))
    by_drain (ok bytes s) h = moved t sub parent s _ o (Consumes-trans sub sub' s c h) refl refl
    by_drain (fail s) h = Opened-Consumes t sub parent o

-- Where `pb_make_string_substream` succeeds it shares out the stream behind the length.
unfoldable pub Made : Istream → Outcome Istream Istream → Type 0
Made s (ok sub parent) = (t : Istream) × Consumes s t × Opened t sub parent
Made s (fail t) = Consumes s t

pub pb_make_string_substream-Made : (s : Istream) → Made s (pb_make_string_substream s)
unfolding pb_make_string_substream Made
pb_make_string_substream-Made s =
    by_length (pb_decode_varint32 s) (pb_decode_varint32-Consuming.run s)
  where
    by_length :
        (r : Outcome Istream ℕ)
        → Consumes s (final r)
        → Made s (elim r as (λ x. Outcome Istream Istream) [
          | ok size t ↦
              if ltb t.bytes_left size
              then return_error parent_too_short t
              else ok
                  (record t { bytes_left = size })
                  (record t { bytes_left = t.bytes_left - size })
          | fail t ↦ fail t
        ])
    by_length (ok size t) h = elim (Bool-cases (ltb t.bytes_left size)) [
      | inl short ↦
          rw short
            (Consumes-trans s t _ h ((Consuming-return_error Istream parent_too_short).run t))
      | inr room ↦
          rw room
            (t, h, record { same_sub = refl; same_parent = refl; shared = ground (arith, room) })
    ]
    by_length (fail t) h = h
