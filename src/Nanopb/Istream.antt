-- ===== src/Nanopb/Istream.antt =====
-- `pb_istream_t` of pb_decode.h and the stream part of pb_decode.c. A `size_t` has 64 bits.
pub mod Reads
pub mod Takes
use social_timeline.Common.{
  ℕ, zero, suc, ◌+◌, ◌-◌, ◌*◌, ◌/◌, ◌%◌, Bool, true, false, Option, none, some,
}
use social_timeline.Common.{List, [], ◌∷◌, take, drop, ltb, ◌==◌, if◌then◌else◌}
use social_timeline.Nanopb.Outcome.{
  Errmsg, end_of_stream, io_error, Outcome, ok, fail, Run, first_error,
}
use social_timeline.Nanopb.Outcome.{◌>>=◌, ◌>>◌, pure}

-- What a read callback does: it fills the buffer with `count` bytes, or fails, and may then set
-- `bytes_left` to 0 to say that the input has ended.
pub data ReadResult (S : Type 0) : Type 0 where
  read_ok : List ℕ → S → ReadResult S
  read_fail : Bool → S → ReadResult S

-- `callback` and `state` together: `buf_read` on the memory from the pointer on, or a callback of
-- the program over a state of its own.
pub data Input (S : Type 0) : Type 0 where
  buffer : List ℕ → Input S
  custom : (S → ℕ → ReadResult S) → S → Input S

pub record Istream (S : Type 0) : Type 0 where
  pub input : Input S
  pub bytes_left : ℕ
  pub errmsg : Option Errmsg

-- PB_RETURN_ERROR.
unfoldable pub return_error : {S A : Type 0} → Errmsg → Run (Istream S) A
return_error msg s = fail (record s { errmsg = first_error s.errmsg msg })

-- `count` bytes are taken off `bytes_left`, which is at least that.
abbrev pub consume : {S : Type 0} → ℕ → Input S → Istream S → Istream S
consume count rest s = record s { input = rest; bytes_left = s.bytes_left - count }

-- The call of the callback, with the update of `bytes_left` behind it.
unfoldable pub after_read :
    {S : Type 0}
    → (S → ℕ → ReadResult S)
    → ℕ
    → Istream S
    → ReadResult S
    → Outcome (Istream S) (List ℕ)
unfolding return_error
after_read f count s (read_ok bytes state) = ok bytes (consume count (custom f state) s)
after_read f count s (read_fail at_end state) =
    return_error io_error
      (record s { input = custom f state; bytes_left = if at_end then 0 else s.bytes_left })

unfoldable pub call_read : {S : Type 0} → Input S → ℕ → Run (Istream S) (List ℕ)
unfolding after_read
call_read (buffer rest) count s = ok (take count rest) (consume count (buffer (drop count rest)) s)
call_read (custom f state) count s = after_read f count s (f state count)

-- `pb_read` with a buffer to read into; the bytes that are stored there are the result.
unfoldable pub pb_read : {S : Type 0} → ℕ → Run (Istream S) (List ℕ)
unfolding call_read return_error
pb_read count s =
    if ltb s.bytes_left count then return_error end_of_stream s else call_read s.input count s

-- The loop `while (count > 16)` of a skip, with its rounds counted, and the read behind it.
unfoldable pub skip_chunks : {S : Type 0} → ℕ → ℕ → Run (Istream S) (List ℕ)
unfolding pb_read
skip_chunks zero count = pb_read count
skip_chunks (suc rounds) count = do pb_read 16; skip_chunks rounds (count - 16)

-- `pb_read` with a null buffer: a callback of the program is given 16 bytes of room at a time.
unfoldable pub skip_input : {S : Type 0} → Input S → ℕ → Run (Istream S) (List ℕ)
unfolding skip_chunks pb_read
skip_input (buffer rest) count = pb_read count
skip_input (custom f state) count = skip_chunks ((count - 1) / 16) count

unfoldable pub pb_skip : {S : Type 0} → ℕ → Run (Istream S) (List ℕ)
unfolding skip_input
pb_skip count s = skip_input s.input count s

-- `buf[0]` of a read of one byte; a callback that succeeds has stored it.
abbrev pub first_byte : {S : Type 0} → List ℕ → Run (Istream S) ℕ
first_byte [] s = return_error io_error s
first_byte (b ∷ _) s = ok b s

unfoldable pub pb_readbyte : {S : Type 0} → Run (Istream S) ℕ
unfolding call_read return_error
pb_readbyte s =
    if s.bytes_left == 0
    then return_error end_of_stream s
    else (call_read s.input 1 >>= first_byte) s

unfoldable pub pb_istream_from_buffer : {S : Type 0} → List ℕ → ℕ → Istream S
pb_istream_from_buffer memory bufsize = record {
  input = buffer memory;
  bytes_left = bufsize;
  errmsg = none;
}
