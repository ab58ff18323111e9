-- ===== src/Nanopb/Message/Encode.antt =====
-- What `pb_encode` of pb_encode.c writes for a message of required scalar fields.
use between_us.Prelude.{
  ℕ, zero, suc, ◌+◌, ◌^◌, ◌≤◌, ◌<◌, ◌≡◌, ◌≢◌, refl, sym, ap, ◌∙◌, false, List, [], ◌∷◌, All, ◌++◌,
  Option, none, length, length-append, ◌==◌, if◌then◌else◌, arith,
}
use mathlib.Core.List.{append-nil, append_assoc}
use between_us.Prelude.Outcome.{ok, M, pure, ◌>>=◌, >>=_ok}
use between_us.Nanopb.Error.{Error}
use between_us.Nanopb.Field.{Field, Memory}
use between_us.Nanopb.Iter.{Iter, field_at, current, pb_field_iter_begin, pb_field_iter_next}
use between_us.Nanopb.Iter.Walk.{IsTagged, nth, nth_stands, pb_field_iter_next-nth}
use between_us.Nanopb.Output.{Ostream, buffer, pb_write}
use between_us.Nanopb.Output.Laws.{pb_write_fits}
use between_us.Nanopb.Encode.Message.{
  Externals, encode_by_rule, encode_basic_field, encode_field, encode_current, fields_loop,
  encode_message, pb_encode,
}
use between_us.Nanopb.Encode.Value.{pb_encode_tag_for_field, encode_value}
use mathlib.Core.Path.{ap₂, subst}
use between_us.Nanopb.Message.Scalar.{
  IsScalar, tag_bytes, field_bytes, value_bytes, encode_value-IsKind, tag-IsKind,
}

-- A stream over a buffer that holds `w`.
abbrev pub out : ℕ → List ℕ → ℕ → Option Error → Ostream
out max w n e = record { sink = buffer w; max_size = max; bytes_written = n; errmsg = e }

pb_write-out :
    (bytes w : List ℕ) (max n : ℕ) (e : Option Error)
    → max < 2 ^ 63
    → n + length bytes ≤ max
    → pb_write bytes (out max w n e) ≡ ok tt (out max (w ++ bytes) (n + length bytes) e)
pb_write-out bytes w max n e small room =
    pb_write_fits bytes w (out max w n e) refl (record { fits = omega arith; size = small }) room

out-append :
    (a b w : List ℕ) (max n : ℕ) (e : Option Error)
    → out max ((w ++ a) ++ b) (n + length a + length b) e
      ≡ out max (w ++ (a ++ b)) (n + length (a ++ b)) e
out-append a b w max n e =
    let counted : n + length a + length b ≡ n + length (a ++ b) =
      omega (arith, length-append a b) in
    ap₂ (λ (bytes : List ℕ) (k : ℕ). out max bytes k e) (append_assoc w a b) counted

-- The fields from `k` on, `rounds` of them.
unfoldable pub bytes_from : Memory → List Field → ℕ → ℕ → ℕ → List ℕ
bytes_from m fields src k zero = []
bytes_from m fields src k (suc rounds) =
    field_bytes m (field_at fields k) (nth fields src k).p_data
    ++ bytes_from m fields src (suc k) rounds

pub All-field_at {κ} :
    (P : Field → Type κ) (fields : List Field) (k : ℕ)
    → All P fields
    → k < length fields
    → P (field_at fields k)
All-field_at P [] k h lt = absurd (omega arith)
All-field_at P (f ∷ fs) zero h lt = h.0
All-field_at P (f ∷ fs) (suc k) h lt = All-field_at P fs k h.1 (omega arith)

pub IsScalar-IsTagged : (fields : List Field) → All IsScalar fields → IsTagged fields
IsScalar-IsTagged [] h = tt
IsScalar-IsTagged (f ∷ fs) h = (λ e. omega (arith, h.0.positive, e), IsScalar-IsTagged fs h.1)

pub current-nth :
    (fields : List Field) (base k : ℕ) → current (nth fields base k) ≡ field_at fields k
current-nth fields base k =
    let (same, base_is, place) = nth_stands fields base k in ap₂ field_at same place

-- No field of the message stands at the null address.
abbrev pub IsPresent : List Field → ℕ → Type 0
IsPresent fields base = (k : ℕ) → k < length fields → (nth fields base k).p_data ≢ 0

-- The bytes of a whole message.
abbrev pub message_bytes : Memory → List Field → ℕ → List ℕ
message_bytes m fields src = bytes_from m fields src 0 (length fields)

module _ (ext : Externals) (m : Memory) (depth : ℕ) (sub : ℕ → ℕ → M Ostream (Unit {0})) where
  -- A field that is there is written as its tag and its value.
  encode_current_required :
      (f : Field) (a : ℕ) (s : Ostream)
      → IsScalar f
      → a ≢ 0
      → encode_current ext m depth sub f a s
        ≡ (pb_encode_tag_for_field f >>= λ _. encode_value m sub f a) s
  unfolding encode_current encode_field encode_basic_field encode_by_rule
  encode_current_required f a s h there = ground (arith, h.kind, h.required, h.static, there)

  encode_current-out :
      (f : Field) (a max n : ℕ) (w : List ℕ) (e : Option Error)
      → IsScalar f
      → a ≢ 0
      → max < 2 ^ 63
      → n + length (field_bytes m f a) ≤ max
      → encode_current ext m depth sub f a (out max w n e)
        ≡ ok tt (out max (w ++ field_bytes m f a) (n + length (field_bytes m f a)) e)
  encode_current-out f a max n w e h there small room =
      let tag = tag_bytes f in
      let value = value_bytes m f a in
      let sum = length-append tag value in
      let s1 = out max (w ++ tag) (n + length tag) e in
      let first =
        tag-IsKind f (out max w n e) h.kind
        ∙ pb_write-out tag w max n e small (omega (arith, sum)) in
      let second =
        encode_value-IsKind m sub f a s1 h.kind
        ∙ pb_write-out value (w ++ tag) max (n + length tag) e small (omega (arith, sum)) in
      encode_current_required f a (out max w n e) h there
      ∙ >>=_ok (pb_encode_tag_for_field f) (λ _. encode_value m sub f a) (out max w n e) s1 tt first
      ∙ second
      ∙ ap (ok tt) (out-append tag value w max n e)

  -- One round of the loop, and the rest.
  fields_loop_step :
      (rounds : ℕ) (it : Iter) (s t : Ostream)
      → encode_current ext m depth sub (current it) it.p_data s ≡ ok tt t
      → fields_loop ext m depth sub (suc rounds) it s
        ≡ (if (pb_field_iter_next it).0
              then fields_loop ext m depth sub rounds (pb_field_iter_next it).1
              else pure tt)
            t
  unfolding fields_loop
  fields_loop_step rounds it s t e =
      >>=_ok (encode_current ext m depth sub (current it) it.p_data) _ s t tt e

  -- The step of the iterator behind the last field does not matter, since there is no round left.
  next_round :
      (fields : List Field) (src k rounds : ℕ) (t : Ostream)
      → IsTagged fields
      → k + suc rounds ≡ length fields
      → let it = nth fields src k in
        (if (pb_field_iter_next it).0
            then fields_loop ext m depth sub rounds (pb_field_iter_next it).1
            else pure tt)
          t
        ≡ fields_loop ext m depth sub rounds (nth fields src (suc k)) t
  unfolding fields_loop
  next_round fields src k zero t tagged total =
      ground (arith, pb_field_iter_next-nth fields src k tagged (omega arith))
  next_round fields src k (suc rounds) t tagged total =
      let more : (suc k == length fields) ≡ false = ground (arith, total) in
      rw (pb_field_iter_next-nth fields src k tagged (omega arith), more) refl

  fields_loop-out :
      (fields : List Field) (src k rounds max n : ℕ) (w : List ℕ) (e : Option Error)
      → All IsScalar fields
      → IsPresent fields src
      → k + rounds ≡ length fields
      → max < 2 ^ 63
      → n + length (bytes_from m fields src k rounds) ≤ max
      → let bytes = bytes_from m fields src k rounds in
        fields_loop ext m depth sub rounds (nth fields src k) (out max w n e)
        ≡ ok tt (out max (w ++ bytes) (n + length bytes) e)
  unfolding bytes_from fields_loop
  fields_loop-out fields src k zero max n w e h there total small room =
      ap₂ (λ (b : List ℕ) (i : ℕ). ok tt (out max b i e)) (sym (append-nil w)) (omega arith)
  fields_loop-out fields src k (suc rounds) max n w e h there total small room =
      let f = field_at fields k in
      let it = nth fields src k in
      let first = field_bytes m f it.p_data in
      let others = bytes_from m fields src (suc k) rounds in
      let sum = length-append first others in
      let s1 = out max (w ++ first) (n + length first) e in
      let written =
        encode_current-out f it.p_data max n w e (All-field_at IsScalar fields k h (omega arith))
          (there k (omega arith)) small (omega (arith, sum)) in
      let here =
        subst (λ (g : Field). encode_current ext m depth sub g it.p_data (out max w n e) ≡ ok tt s1)
          (sym (current-nth fields src k)) written in
      let rest =
        fields_loop-out fields src (suc k) rounds max (n + length first) (w ++ first) e h there
          (omega arith) small (omega (arith, sum)) in
      fields_loop_step rounds it (out max w n e) s1 here
      ∙ next_round fields src k rounds s1 (IsScalar-IsTagged fields h) total
      ∙ rest
      ∙ ap (ok tt) (out-append first others w max n e)

  encode_message-out :
      (fields : List Field) (src max : ℕ)
      → All IsScalar fields
      → IsPresent fields src
      → max < 2 ^ 63
      → length (message_bytes m fields src) ≤ max
      → encode_message ext m depth sub fields src (out max [] 0 none)
        ≡ ok tt (out max (message_bytes m fields src) (length (message_bytes m fields src)) none)
  unfolding encode_message pb_field_iter_begin nth bytes_from
  encode_message-out [] src max h there small room = refl
  encode_message-out (f ∷ fs) src max h there small room =
      let some_field : (f.tag == 0) ≡ false = ground (arith, h.0.positive) in
      let bytes = message_bytes m (f ∷ fs) src in
      let counted : 0 + length bytes ≡ length bytes = omega arith in
      rw some_field (
        fields_loop-out (f ∷ fs) src 0 (length (f ∷ fs)) max 0 [] none h there (omega arith) small
          (omega arith)
        ∙ ap (λ (i : ℕ). ok tt (out max bytes i none)) counted)

pub pb_encode_scalars :
    (ext : Externals) (m : Memory) (depth fields src max : ℕ)
    → All IsScalar (ext.descriptor fields)
    → IsPresent (ext.descriptor fields) src
    → max < 2 ^ 63
    → let bytes = message_bytes m (ext.descriptor fields) src in
      length bytes ≤ max
      → pb_encode ext m (suc depth) fields src (out max [] 0 none)
        ≡ ok tt (out max bytes (length bytes) none)
unfolding pb_encode
pb_encode_scalars ext m depth fields src max h there small room =
    encode_message-out ext m depth (pb_encode ext m depth) (ext.descriptor fields) src max h there
      small room
