-- ===== src/Nanopb/Decode/Reads.antt =====
-- What a call of pb_decode.c on messages may do to its input stream.
pub mod Value
pub mod Static
pub mod Pointer
pub mod Field
pub mod Message
pub mod Whole
pub mod Rounds
use between_us.Prelude.{
  ℕ, suc, ◌+◌, ◌*◌, ◌^◌, ◌≡◌, refl, Bool, true, false, ◌&&◌, ◌||◌, leb, if◌then◌else◌, ltb, ◌==◌,
  arith,
}
use between_us.Prelude.Outcome.{Outcome, ok, fail, M, pure, ◌>>=◌, final, final->>=}
use between_us.Nanopb.Error.{Error, invalid_size, size_too_large, realloc_failed}
use between_us.Nanopb.Input.{Istream}
use between_us.Nanopb.Input.Fields.{pb_make_string_substream, pb_close_string_substream}
use between_us.Nanopb.Input.Laws.{Consumes, Consuming, Consumes-refl, Consumes-trans, nothing_taken}
use between_us.Nanopb.Input.Substream.{
  Opened, Opened-Consumes, Made, pb_make_string_substream-Made, pb_close_string_substream-Consumes,
}
use between_us.Nanopb.Field.{Memory}
use between_us.Nanopb.Decode.State.{Externals, Decoder, throw, modify, lift, allocate_field}
use between_us.Nanopb.Decode.Value.{close_after}

-- What is left of the stream `s` is what a call took within its `bytes_left`.
pub record Reads {A : Type 0} (s : Istream) (o : Outcome Decoder A) : Type 0 where
  pub runs : Consumes s (final o).stream

-- A call with this property may be made on any stream.
pub record Reading {A : Type 0} (m : M Decoder A) : Type 0 where
  pub run : (d : Decoder) → Reads d.stream (m d)

pub Reads-ok : {A : Type 0} (a : A) (d : Decoder) → Reads d.stream (ok a d)
Reads-ok a d = record { runs = Consumes-refl d.stream }

pub Reads-fail : {A : Type 0} (d : Decoder) → Reads {A = A} d.stream (fail d)
Reads-fail d = record { runs = Consumes-refl d.stream }

pub Reads-throw : {A : Type 0} (e : Error) (d : Decoder) → Reads {A = A} d.stream (throw e d)
Reads-throw e d = record { runs = nothing_taken d.stream _ refl (omega arith) }

pub Reads-after :
    {A : Type 0} (s t : Istream) (o : Outcome Decoder A) → Consumes s t → Reads t o → Reads s o
Reads-after s t o h r = record { runs = Consumes-trans s t (final o).stream h r.runs }

pub Reading-pure : {A : Type 0} (a : A) → Reading (pure a)
Reading-pure a = record { run = λ d. Reads-ok a d }

pub Reading-throw : (A : Type 0) (e : Error) → Reading (throw {A = A} e)
Reading-throw A e = record { run = λ d. Reads-throw e d }

pub Reading-modify : (g : Memory → Memory) → Reading (modify g)
Reading-modify g = record { run = λ d. Reads-ok tt (record d { mem = g d.mem }) }

-- A result, and what is done with it.
pub Reads->>= :
    {A B : Type 0} (s : Istream) (m : M Decoder A) (d : Decoder) (f : A → M Decoder B)
    → Reads s (m d)
    → ((a : A) (t : Decoder) → Reads t.stream (f a t))
    → Reads s ((m >>= f) d)
Reads->>= {A} {B} s m d f first rest = by_cases (m d) first
  where
    by_cases :
        (o : Outcome Decoder A)
        → Reads s o
        → Reads s (elim o as (λ x. Outcome Decoder B) [ ok a t ↦ f a t | fail t ↦ fail t ])
    by_cases (ok a t) h = Reads-after s t.stream (f a t) h.runs (rest a t)
    by_cases (fail t) h = record { runs = h.runs }

pub Reading->>= :
    {A B : Type 0} (m : M Decoder A) (f : A → M Decoder B)
    → Reading m
    → ((a : A) → Reading (f a))
    → Reading (m >>= f)
Reading->>= m f first rest = record {
  run = λ d. Reads->>= d.stream m d f (first.run d) (λ a t. (rest a).run t);
}

pub Reading-if :
    {A : Type 0} (b : Bool) (m n : M Decoder A)
    → Reading m
    → Reading n
    → Reading (if b then m else n)
Reading-if true m n f g = f
Reading-if false m n f g = g

pub Reads-if :
    {A : Type 0} (b : Bool) (s : Istream) (x y : Outcome Decoder A)
    → Reads s x
    → Reads s y
    → Reads s (if b then x else y)
Reads-if true s x y f g = f
Reads-if false s x y f g = g

-- `lift` puts the stream that a call leaves behind in place.
lift_stream :
    {A : Type 0} (s : Istream) (d : Decoder) (f : M Istream A)
    → Consumes s (final (f d.stream))
    → Consumes s (final (lift f d)).stream
lift_stream {A} s d f h = by_cases (f d.stream) h
  where
    by_cases :
        (o : Outcome Istream A)
        → Consumes s (final o)
        → Consumes s
            (final (elim o as (λ x. Outcome Decoder A) [
              | ok a s' ↦ ok a (record d { stream = s' })
              | fail s' ↦ fail (record d { stream = s' })
            ])).stream
    by_cases (ok a s') h = h
    by_cases (fail s') h = h

pub Reading-lift : {A : Type 0} (f : M Istream A) → Consuming f → Reading (lift f)
Reading-lift f h = record { run = λ d. record { runs = lift_stream d.stream d f (h.run d.stream) } }

-- A substream that was read within its bytes is closed within those of its parent.
pub close_after-Reads :
    (t sub outer : Istream) (status : Outcome Decoder (Unit {0}))
    → Opened t sub outer
    → Reads sub status
    → Reads t (close_after outer status)
unfolding close_after
close_after-Reads t sub outer (ok a d) o h =
    let closed = pb_close_string_substream-Consumes t sub outer d.stream o h.runs in
    record {
      runs =
          lift_stream t (record d { stream = outer }) (pb_close_string_substream d.stream) closed;
    }
close_after-Reads t sub outer (fail d) o h =
    let closed = pb_close_string_substream-Consumes t sub outer d.stream o h.runs in
    record {
      runs =
          lift_stream t (record d { stream = outer }) (pb_close_string_substream d.stream) closed;
    }

-- A call on a substream that is made first.
pub Reading-substream :
    {A : Type 0} (k : Istream → M Decoder A)
    → ((t sub : Istream) (d : Decoder) → Opened t sub d.stream → Reads t (k sub d))
    → Reading (lift pb_make_string_substream >>= k)
unfolding Made
Reading-substream {A} k rest = record {
  run =
      λ d. by_cases d (pb_make_string_substream d.stream) (pb_make_string_substream-Made d.stream);
}
  where
    by_cases :
        (d : Decoder) (r : Outcome Istream Istream)
        → Made d.stream r
        → Reads d.stream
            (elim (elim r as (λ x. Outcome Decoder Istream) [
              | ok a s ↦ ok a (record d { stream = s })
              | fail s ↦ fail (record d { stream = s })
            ])
              as (λ x. Outcome Decoder A) [ ok a d' ↦ k a d' | fail d' ↦ fail d' ])
    by_cases d (ok sub parent) (t, first, o) =
        Reads-after d.stream t _ first (rest t sub (record d { stream = parent }) o)
    by_cases d (fail t) first = record { runs = first }

pub allocate_field-Reading :
    (ext : Externals) (p_data data_size array_size : ℕ)
    → Reading (allocate_field ext p_data data_size array_size)
unfolding allocate_field
allocate_field-Reading ext p_data data_size array_size = record {
  run = λ d.
      Reads-if (data_size == 0 || array_size == 0) d.stream _ _ (Reads-throw invalid_size d) (
        Reads-if _ d.stream _ _ (Reads-throw size_too_large d) (
          Reads-if _ d.stream _ _ (Reads-throw realloc_failed (record d { mem = _ }))
            (Reads-ok tt (record d { mem = _ }))));
}

-- A test between two calls.
pub Reads-either :
    {A : Type 0} (b : Bool) (s : Istream) (d : Decoder) (m n : M Decoder A)
    → Reads s (m d)
    → Reads s (n d)
    → Reads s ((if b then m else n) d)
Reads-either true s d m n f g = f
Reads-either false s d m n f g = g

-- An error behind the opening of a substream.
pub Opened-throw :
    (t sub : Istream) (d : Decoder) (e : Error)
    → Opened t sub d.stream
    → Reads {A = Unit {0}} t (throw e d)
Opened-throw t sub d e o =
    Reads-after t d.stream _ (Opened-Consumes t sub d.stream o) (Reads-throw e d)
