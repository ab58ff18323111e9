-- ===== src/Nanopb/Output.antt =====
-- pb_ostream_t and `pb_write` (BetweenUS/Pods/nanopb/pb_encode.c and pb_encode.h).
pub mod Scalars
pub mod Laws
pub mod Counts
use between_us.Prelude.{ℕ, ◌+◌, ◌%◌, ◌^◌, ◌||◌, Bool, true, false, Option, none, List, [], ◌++◌}
use between_us.Prelude.{ltb, ◌==◌, if◌then◌else◌, length}
use between_us.Prelude.Outcome.{ok, fail, M}
use between_us.Nanopb.Error.{Error, stream_full, io_error, first_error}

-- `callback` with `state`: NULL, which only counts; `buf_write`, with what has been written to its
-- buffer; or a writer of the caller's, which takes bytes and answers with its success flag and its
-- next state.
pub data Sink : Type 0 where
  sizing : Sink
  buffer : List ℕ → Sink
  custom : (ℕ → List ℕ → Bool × ℕ) → ℕ → Sink

pub record Ostream : Type 0 where
  pub sink : Sink
  pub max_size : ℕ
  pub bytes_written : ℕ
  pub errmsg : Option Error

-- PB_RETURN_ERROR
abbrev pub return_error : {A : Type 0} → Error → M Ostream A
return_error e s = fail (record s { errmsg = first_error s.errmsg e })

-- `size_t` addition on a platform of 64 bits
abbrev pub add_size : ℕ → ℕ → ℕ
add_size a b = (a + b) % 2 ^ 64

-- PB_OSTREAM_SIZING
abbrev pub sizing_stream : Ostream
sizing_stream = record { sink = sizing; max_size = 0; bytes_written = 0; errmsg = none }

unfoldable pub pb_ostream_from_buffer : ℕ → Ostream
pb_ostream_from_buffer bufsize = record {
  sink = buffer [];
  max_size = bufsize;
  bytes_written = 0;
  errmsg = none;
}

-- `buf_write` stores the bytes behind those that the buffer holds.
unfoldable pub buf_write : List ℕ → List ℕ → Bool × Sink
buf_write written buf = (true, buffer (written ++ buf))

-- `stream->callback(stream, buf, count)`; it is not called through NULL.
unfoldable pub call : Sink → List ℕ → Bool × Sink
unfolding buf_write
call sizing buf = (true, sizing)
call (buffer written) buf = buf_write written buf
call (custom writer state) buf =
    let (good, state') = writer state buf in (good, custom writer state')

-- `stream->callback == NULL`
abbrev pub is_sizing : Sink → Bool
is_sizing sizing = true
is_sizing (buffer written) = false
is_sizing (custom writer state) = false

-- `pb_write` on bytes that are there: `count` is their number.
unfoldable pub pb_write : List ℕ → M Ostream (Unit {0})
pb_write buf s =
    let total = add_size s.bytes_written (length buf) in
    let (good, sink') = call s.sink buf in
    if length buf == 0 || is_sizing s.sink
    then ok tt (record s { bytes_written = total })
    else if ltb total s.bytes_written || ltb s.max_size total
    then return_error stream_full s
    else if good
    then ok tt (record s { sink = sink'; bytes_written = total })
    else return_error io_error (record s { sink = sink' })

-- `pb_write(stream, NULL, size)` on a stream that only counts.
unfoldable pub count_only : ℕ → M Ostream (Unit {0})
count_only size s = ok tt (record s { bytes_written = add_size s.bytes_written size })
