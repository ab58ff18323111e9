-- ===== src/Nanopb/Input.antt =====
-- pb_istream_t and its reads (BetweenUS/Pods/nanopb/pb_decode.c and pb_decode.h).
pub mod Varint
pub mod Fields
pub mod Laws
pub mod Bounds
pub mod Rounds
pub mod Substream
use between_us.Prelude.{ℕ, zero, suc, ◌-◌, Bool, true, false, Option, none, List, [], ◌∷◌, arith}
use between_us.Prelude.{ltb, ◌==◌, if◌then◌else◌, take, drop, get_or}
use between_us.Prelude.Outcome.{Outcome, ok, fail, M, pure, ◌>>=◌, ◌>>◌}
use between_us.Nanopb.Error.{Error, end_of_stream, io_error, first_error}

-- `callback` with `state`: `buf_read` on the memory from `state` on, or a reader of the caller's
-- with a state of its own. A reader is asked for a number of bytes, and answers with its success
-- flag, the bytes and its next state.
pub data Source : Type 0 where
  memory : List ℕ → Source
  custom : (ℕ → ℕ → Bool × List ℕ × ℕ) → ℕ → Source

pub record Istream : Type 0 where
  pub source : Source
  pub bytes_left : ℕ
  pub errmsg : Option Error

-- PB_RETURN_ERROR
abbrev pub return_error : {A : Type 0} → Error → M Istream A
return_error e s = fail (record s { errmsg = first_error s.errmsg e })

-- `buf_read`: the bytes at the state, which moves on behind them.
unfoldable pub buf_read : List ℕ → ℕ → Bool × List ℕ × Source
buf_read bytes count = (true, take count bytes, memory (drop count bytes))

-- `stream->callback(stream, buf, count)`
unfoldable pub call : Source → ℕ → Bool × List ℕ × Source
unfolding buf_read
call (memory bytes) count = buf_read bytes count
call (custom reader state) count =
    let (good, bytes, state') = reader state count in (good, bytes, custom reader state')

-- The end of `pb_read`: call the callback, and count the bytes if it succeeds.
abbrev pub take_from_source : ℕ → M Istream (List ℕ)
take_from_source count s =
    let (good, bytes, rest) = call s.source count in
    if good
    then ok bytes (record s { source = rest; bytes_left = s.bytes_left - count })
    else return_error io_error (record s { source = rest })

-- `pb_read` with a buffer: what it stores there is its value.
unfoldable pub pb_read : ℕ → M Istream (List ℕ)
pb_read count s =
    if count == 0
    then ok [] s
    else if ltb s.bytes_left count
    then return_error end_of_stream s
    else take_from_source count s

-- Whether `stream->callback` is `buf_read`.
abbrev pub is_buffer : Source → Bool
is_buffer (memory bytes) = true
is_buffer (custom reader state) = false

-- The loop of `pb_read` that skips blocks of 16 bytes, and the read behind it. There are at most
-- `count` rounds, so that number of rounds is enough.
unfoldable pub skip_blocks : ℕ → ℕ → M Istream (List ℕ)
skip_blocks zero count = pb_read count
skip_blocks (suc rounds) count =
    let more = (do pb_read 16; skip_blocks rounds (count - 16)) in
    if ltb 16 count then more else pb_read count

-- `pb_read` with `buf == NULL`, which skips the bytes.
unfoldable pub pb_skip : ℕ → M Istream (List ℕ)
unfolding skip_blocks
pb_skip count s =
    if count == 0
    then ok [] s
    else if is_buffer s.source
    then pb_read count s
    else skip_blocks count count s

-- `pb_readbyte`. The callback is called with `count == 1`.
unfoldable pub pb_readbyte : M Istream ℕ
pb_readbyte s =
    if s.bytes_left == 0
    then return_error end_of_stream s
    else (take_from_source 1 >>= λ bytes. pure (get_or bytes 0 0)) s

unfoldable pub pb_istream_from_buffer : List ℕ → ℕ → Istream
pb_istream_from_buffer buf bufsize = record {
  source = memory buf;
  bytes_left = bufsize;
  errmsg = none;
}
