-- ===== src/Nanopb/Ostream.antt =====
-- `pb_ostream_t` of pb_encode.h and the stream part of pb_encode.c. A `size_t` has 64 bits.
pub mod Bounds
use social_timeline.Common.{
  ℕ, zero, suc, ◌+◌, ◌^◌, Bool, true, false, Option, none, some, List, [], ◌∷◌,
}
use social_timeline.Common.{length, take, set, ltb, if◌then◌else◌, u64}
use social_timeline.Nanopb.Outcome.{
  Errmsg, stream_full, io_error, Outcome, ok, fail, Run, first_error,
}

-- A write callback, over the state that `stream->state` points to: whether it succeeds, and the
-- state behind the call. It gets the bytes to be written.
abbrev pub WriteCallback : Type 0 → Type 0
WriteCallback S = S → List ℕ → Bool × S

-- `callback` is `none` in a sizing stream, which only counts.
pub record Ostream (S : Type 0) : Type 0 where
  pub callback : Option (WriteCallback S)
  pub state : S
  pub max_size : ℕ
  pub bytes_written : ℕ
  pub errmsg : Option Errmsg

-- PB_OSTREAM_SIZING. Its state is never used; any value stands for the null pointer.
unfoldable pub sizing_stream : {S : Type 0} → S → Ostream S
sizing_stream s = record {
  callback = none;
  state = s;
  max_size = 0;
  bytes_written = 0;
  errmsg = none;
}

-- PB_RETURN_ERROR.
unfoldable pub return_error : {S A : Type 0} → Errmsg → Run (Ostream S) A
return_error msg s = fail (record s { errmsg = first_error s.errmsg msg })

-- `stream->bytes_written += count`
unfoldable pub advance : {S : Type 0} → ℕ → Ostream S → Ostream S
advance count s = record s { bytes_written = u64 (s.bytes_written + count) }

-- The answer of a callback in `pb_write`.
unfoldable pub after_callback :
    {S : Type 0} → Ostream S → ℕ → Bool × S → Outcome (Ostream S) (Unit {0})
unfolding advance return_error
after_callback s count (true, state) = ok tt (advance count (record s { state = state }))
after_callback s count (false, state) = return_error io_error (record s { state = state })

-- `buf` is the memory from the pointer on, empty for a null pointer.
unfoldable pub write_with :
    {S : Type 0} → Option (WriteCallback S) → List ℕ → ℕ → Run (Ostream S) (Unit {0})
unfolding after_callback return_error advance
write_with none buf count s = ok tt (advance count s)
write_with (some f) buf count s =
    if ltb s.max_size (u64 (s.bytes_written + count))
    then return_error stream_full s
    else after_callback s count (f s.state (take count buf))

unfoldable pub pb_write : {S : Type 0} → List ℕ → ℕ → Run (Ostream S) (Unit {0})
unfolding write_with
pb_write buf count s = write_with s.callback buf count s

-- The memory around a buffer, and the index that `stream->state` points to.
pub record Buffer : Type 0 where
  pub memory : List ℕ
  pub pos : ℕ

-- The loop of `buf_write`: `dest[i] = buf[i]`.
unfoldable pub store_from : ℕ → List ℕ → List ℕ → List ℕ
store_from i [] memory = memory
store_from i (b ∷ buf) memory = store_from (i + 1) buf (set memory i b)

unfoldable pub buf_write : WriteCallback Buffer
unfolding store_from
buf_write b buf =
    (true, record { memory = store_from b.pos buf b.memory; pos = b.pos + length buf })

unfoldable pub pb_ostream_from_buffer : List ℕ → ℕ → Ostream Buffer
pb_ostream_from_buffer memory bufsize = record {
  callback = some buf_write;
  state = record { memory = memory; pos = 0 };
  max_size = bufsize;
  bytes_written = 0;
  errmsg = none;
}
