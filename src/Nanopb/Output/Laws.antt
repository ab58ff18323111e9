-- ===== src/Nanopb/Output/Laws.antt =====
-- What a call may do to an output stream over a buffer: it adds bytes behind those that are there,
-- counts them, and never passes the size of the buffer.
use between_us.Prelude.{
  ℕ, zero, suc, ◌+◌, ◌/◌, ◌^◌, ◌≤◌, ◌<◌, ◌≡◌, refl, ap, ◌∙◌, Bool, true, false,
}
use between_us.Prelude.{if◌then◌else◌, List, [], ◌∷◌, ◌++◌, length, length-append, leb, arith}
use between_us.Prelude.Outcome.{Outcome, ok, fail, M, pure, ◌>>=◌, final, final->>=}
use between_us.Nanopb.Error.{Error, stream_full}
use between_us.Nanopb.Output.{Ostream, buffer, call, buf_write, pb_write}
use between_us.Nanopb.Output.{return_error}
use between_us.Nanopb.Output.Scalars.{
  varint_groups, clear_last, varint_bytes, pb_encode_varint, pb_encode_svarint, pb_encode_tag,
  zigzag, tag_value, fixed32_bytes, fixed64_bytes, pb_encode_fixed32, pb_encode_fixed64,
  pb_encode_string,
}
use native.Mathlib.Decide.{dec_le}
use mathlib.Core.List.{append-nil, append_assoc}

-- What has been written fits the stream, and a buffer takes at most half of the address space.
pub record IsBounded (s : Ostream) : Type 0 where
  pub fits : s.bytes_written ≤ s.max_size
  pub size : s.max_size < 2 ^ 63

-- The stream `t` comes of `s`, which has written `w` to its buffer, by adding `bytes`.
pub record Extends (s : Ostream) (w : List ℕ) (t : Ostream) (bytes : List ℕ) : Type 0 where
  pub stored : t.sink ≡ buffer (w ++ bytes)
  pub counted : t.bytes_written ≡ s.bytes_written + length bytes
  pub same_size : t.max_size ≡ s.max_size
  pub within : t.bytes_written ≤ t.max_size

abbrev pub Grows : Ostream → Ostream → Type 0
Grows s t = (w : List ℕ) → s.sink ≡ buffer w → IsBounded s → (bytes : List ℕ) × Extends s w t bytes

-- A call with this property may be made on any stream.
pub record Growing {A : Type 0} (m : M Ostream A) : Type 0 where
  pub run : (s : Ostream) → Grows s (final (m s))

pub nothing_added :
    (s t : Ostream)
    → t.sink ≡ s.sink
    → t.bytes_written ≡ s.bytes_written
    → t.max_size ≡ s.max_size
    → Grows s t
nothing_added s t same count size w stored v = (
  [],
  record {
    stored = rw append-nil (same ∙ stored);
    counted = omega arith;
    same_size = size;
    within = omega arith;
  },
)

pub Grows-refl : (s : Ostream) → Grows s s
Grows-refl s = nothing_added s s refl refl refl

pub Grows-trans : (s t u : Ostream) → Grows s t → Grows t u → Grows s u
Grows-trans s t u f g w stored v =
    let (bytes, e) = f w stored v in
    let v' : IsBounded t = record { fits = e.within; size = omega arith } in
    let (more, e') = g (w ++ bytes) e.stored v' in
    (
      bytes ++ more,
      record {
        stored = e'.stored ∙ ap buffer (append_assoc w bytes more);
        counted = omega (arith, length-append bytes more);
        same_size = e'.same_size ∙ e.same_size;
        within = e'.within;
      },
    )

pub Growing-pure : {A : Type 0} (a : A) → Growing (pure a)
Growing-pure a = record { run = λ s. Grows-refl s }

pub Growing-fail : (A : Type 0) → Growing {A = A} fail
Growing-fail A = record { run = λ s. Grows-refl s }

pub Growing-return_error : (A : Type 0) (e : Error) → Growing (return_error {A = A} e)
Growing-return_error A e = record { run = λ s. nothing_added s _ refl refl refl }

pub Growing->>= :
    {A B : Type 0} (m : M Ostream A) (f : A → M Ostream B)
    → Growing m
    → ((a : A) → Growing (f a))
    → Growing (m >>= f)
Growing->>= m f first rest = record {
  run =
      λ s. final->>= Grows m f s (λ x y z. Grows-trans x y z) (first.run s) (λ a t. (rest a).run t);
}

pub Growing-if :
    {A : Type 0} (b : Bool) (m n : M Ostream A)
    → Growing m
    → Growing n
    → Growing (if b then m else n)
Growing-if true m n f g = f
Growing-if false m n f g = g

pub Grows-if :
    {A : Type 0} (b : Bool) (s : Ostream) (x y : Outcome Ostream A)
    → Grows s (final x)
    → Grows s (final y)
    → Grows s (final (if b then x else y))
Grows-if true s x y f g = f
Grows-if false s x y f g = g

-- Bytes for which there is room are stored and counted.
pub pb_write_fits :
    (buf w : List ℕ) (s : Ostream)
    → s.sink ≡ buffer w
    → IsBounded s
    → s.bytes_written + length buf ≤ s.max_size
    → pb_write buf s
      ≡ ok tt (record s { sink = buffer (w ++ buf); bytes_written = s.bytes_written + length buf })
unfolding pb_write call buf_write
pb_write_fits [] w s stored v room = ground (arith, append-nil w)
pb_write_fits (b ∷ bs) w s stored v room = ground arith

-- Bytes for which there is no room are not written, and the error says so.
pub pb_write_full :
    (buf w : List ℕ) (s : Ostream)
    → s.sink ≡ buffer w
    → IsBounded s
    → length buf < 2 ^ 64
    → s.max_size < s.bytes_written + length buf
    → pb_write buf s ≡ return_error stream_full s
unfolding pb_write call
pb_write_full [] w s stored v short full = absurd (omega arith)
pb_write_full (b ∷ bs) w s stored v short full = ground arith

-- `pb_write` checks the room before it writes.
pb_write-Grows :
    (buf : List ℕ) → length buf < 2 ^ 64 → (s : Ostream) → Grows s (final (pb_write buf s))
pb_write-Grows buf short s w stored v = elim (dec_le (s.bytes_written + length buf) s.max_size) [
  | yes room ↦
      rw (pb_write_fits buf w s stored v room)
        (buf, record { stored = refl; counted = refl; same_size = refl; within = room })
  | no full ↦
      rw (pb_write_full buf w s stored v short (omega arith))
        (nothing_added s _ refl refl refl w stored v)
]

pub pb_write-Growing : (buf : List ℕ) → length buf < 2 ^ 64 → Growing (pb_write buf)
pb_write-Growing buf short = record { run = pb_write-Grows buf short }

length-varint_groups : (k v : ℕ) → length (varint_groups k v) ≤ k
unfolding varint_groups
length-varint_groups zero v = omega arith
length-varint_groups (suc k) v = ground (arith, length-varint_groups k (v / 128))

length-clear_last : (xs : List ℕ) → length (clear_last xs) ≡ length xs
unfolding clear_last
length-clear_last [] = refl
length-clear_last (x ∷ []) = refl
length-clear_last (x ∷ y ∷ ys) = ap suc (length-clear_last (y ∷ ys))

pub length-varint_bytes : (v : ℕ) → length (varint_bytes v) ≤ 64
unfolding varint_bytes
length-varint_bytes v =
    ground (arith, length-varint_groups 64 v, length-clear_last (varint_groups 64 v))

pub pb_encode_varint-Growing : (v : ℕ) → Growing (pb_encode_varint v)
unfolding pb_encode_varint
pb_encode_varint-Growing v =
    pb_write-Growing (varint_bytes v) (omega (arith, length-varint_bytes v))

pub pb_encode_svarint-Growing : (v : ℕ) → Growing (pb_encode_svarint v)
unfolding pb_encode_svarint
pb_encode_svarint-Growing v = pb_encode_varint-Growing (zigzag v)

pub pb_encode_tag-Growing : (wiretype number : ℕ) → Growing (pb_encode_tag wiretype number)
unfolding pb_encode_tag
pb_encode_tag-Growing wiretype number = pb_encode_varint-Growing (tag_value wiretype number)

pub pb_encode_fixed32-Growing : (v : ℕ) → Growing (pb_encode_fixed32 v)
unfolding pb_encode_fixed32
pb_encode_fixed32-Growing v =
    pb_write-Growing (fixed32_bytes v) (unfold fixed32_bytes in omega arith)

pub pb_encode_fixed64-Growing : (v : ℕ) → Growing (pb_encode_fixed64 v)
unfolding pb_encode_fixed64
pb_encode_fixed64-Growing v =
    pb_write-Growing (fixed64_bytes v) (unfold fixed64_bytes in omega arith)

pub pb_encode_string-Growing :
    (bytes : List ℕ) → length bytes < 2 ^ 64 → Growing (pb_encode_string bytes)
unfolding pb_encode_string
pb_encode_string-Growing bytes short =
    Growing->>= (pb_encode_varint (length bytes)) (λ _. pb_write bytes)
      (pb_encode_varint-Growing (length bytes)) (λ _. pb_write-Growing bytes short)

pub ruleset growing = (
  Growing-pure, Growing-fail, Growing-return_error, Growing->>=, Growing-if,
  pb_encode_varint-Growing, pb_encode_svarint-Growing, pb_encode_tag-Growing,
  pb_encode_fixed32-Growing, pb_encode_fixed64-Growing, pb_encode_string-Growing,
)

-- On a buffer of fewer than 2 ^ 63 bytes that is filled within its size, `pb_write` of fewer than 2 ^ 64
-- bytes stores and counts all of them, where they fit, and else changes nothing but the error.
pub pb_write_lem :
    (buf w : List ℕ) (s : Ostream)
    → s.sink ≡ buffer w
    → IsBounded s
    → length buf < 2 ^ 64
    → let total = s.bytes_written + length buf in
      pb_write buf s ≡ (
        if leb total s.max_size
        then ok tt (record s { sink = buffer (w ++ buf); bytes_written = total })
        else return_error stream_full s)
pb_write_lem buf w s stored v short = elim (dec_le (s.bytes_written + length buf) s.max_size) [
  | yes room ↦ rw (pb_write_fits buf w s stored v room) (ground arith)
  | no full ↦ rw (pb_write_full buf w s stored v short (omega arith)) (ground arith)
]
