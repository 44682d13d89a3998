-- ===== src/Nanopb/Encode/Nested.antt =====
-- `pb_encode_submessage` of pb_encode.c, for a message that some encoder encodes.
use social_timeline.Common.{
  ℕ, ◌+◌, Bool, true, false, Option, none, some, [], not, ltb, ◌==◌, if◌then◌else◌, u64,
}
use social_timeline.Nanopb.Outcome.{stream_full, submsg_size_changed}
use social_timeline.Nanopb.Outcome.{Outcome, ok, fail, Run, ◌>>◌, left, succeeds}
use social_timeline.Nanopb.Ostream
use social_timeline.Nanopb.Ostream.{Ostream, WriteCallback, pb_write, sizing_stream}
use social_timeline.Nanopb.Varint.{pb_encode_varint}

-- `stream->callback == NULL`
abbrev pub is_sizing : {S : Type 0} → Option (WriteCallback S) → Bool
is_sizing none = true
is_sizing (some f) = false

-- `pb_encode_submessage` behind the second encoding.
unfoldable pub after_substream :
    {S : Type 0} → ℕ → Ostream S → Outcome (Ostream S) (Unit {0}) → Outcome (Ostream S) (Unit {0})
after_substream size s result =
    let sub = left result in
    let s' = record s {
      bytes_written = u64 (s.bytes_written + sub.bytes_written);
      state = sub.state;
      errmsg = sub.errmsg;
    } in
    if not (sub.bytes_written == size)
    then Ostream.return_error submsg_size_changed s'
    else if succeeds result
    then ok tt s'
    else fail s'

-- `pb_encode_submessage` behind the size: the message goes through a substream of just that size.
unfoldable pub write_submessage :
    {S : Type 0} → Run (Ostream S) (Unit {0}) → ℕ → Run (Ostream S) (Unit {0})
write_submessage encode size s =
    if is_sizing s.callback
    then pb_write [] size s
    else if ltb s.max_size (u64 (s.bytes_written + size))
    then Ostream.return_error stream_full s
    else after_substream size s
        (encode (record s { max_size = size; bytes_written = 0; errmsg = none }))

-- The sizing pass, and what follows it.
unfoldable pub after_sizing :
    {S : Type 0}
    → Run (Ostream S) (Unit {0})
    → Ostream S
    → Outcome (Ostream S) (Unit {0})
    → Outcome (Ostream S) (Unit {0})
after_sizing encode s (fail sub) = fail (record s { errmsg = sub.errmsg })
after_sizing encode s (ok _ sub) =
    (pb_encode_varint sub.bytes_written >> write_submessage encode sub.bytes_written) s

-- `pb_encode_submessage`, for a message that `encode` encodes.
unfoldable pub encode_submessage :
    {S : Type 0} → Run (Ostream S) (Unit {0}) → Run (Ostream S) (Unit {0})
encode_submessage encode s = after_sizing encode s (encode (sizing_stream s.state))
