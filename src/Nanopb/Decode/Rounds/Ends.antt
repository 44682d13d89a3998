-- ===== src/Nanopb/Decode/Rounds/Ends.antt =====
-- The loop `while (stream->bytes_left)` of `pb_decode_noinit` in pb_decode.c ends by itself.
use social_timeline.Common.{ℕ, suc, ◌≤◌, ◌<◌, ◌≡◌, true, false, List, Bool}
use social_timeline.Nanopb.Outcome.{Outcome, ok, fail, Run}
use social_timeline.Nanopb.Istream.{Istream}
use social_timeline.Nanopb.Wire.{Tag, pb_decode_tag}
use social_timeline.Nanopb.Field.{Field}
use social_timeline.Nanopb.Decode.State.{Decoding, DecoderProgram}
use social_timeline.Nanopb.Decode.Message.{Progress, decode_next}

-- The loop, without a bound on its rounds: `LoopRuns program depth noinit n p d o` says that the loop that
-- starts with the locals `p` in the state `d` goes round `n` times and then ends with `o`. It ends where
-- no bytes are left, at a tag of 0 or the end of the stream (`no_tag`), at a tag that cannot be read, or
-- where the decoder of a field fails.
pub data LoopRuns {S : Type 0} (program : DecoderProgram S) (depth : ℕ)
    (noinit : List Field → ℕ → Run (Decoding S) (Unit {0}))
    : ℕ → Progress → Decoding S → Outcome (Decoding S) Progress → Type 0 where
  at_end :
      {p : Progress} {d : Decoding S}
      → d.stream.bytes_left ≡ 0
      → LoopRuns program depth noinit 0 p d (ok p d)
  no_tag :
      {p : Progress} {d : Decoding S} {s : Istream S}
      → 0 < d.stream.bytes_left
      → pb_decode_tag d.stream ≡ (fail s, true)
      → LoopRuns program depth noinit 0 p d (ok p (record d { stream = s }))
  bad_tag :
      {p : Progress} {d : Decoding S} {s : Istream S}
      → 0 < d.stream.bytes_left
      → pb_decode_tag d.stream ≡ (fail s, false)
      → LoopRuns program depth noinit 0 p d (fail (record d { stream = s }))
  field_fails :
      {p : Progress} {d d' : Decoding S} {t : Tag} {s : Istream S} {eof : Bool}
      → 0 < d.stream.bytes_left
      → pb_decode_tag d.stream ≡ (ok t s, eof)
      → decode_next program depth noinit t p (record d { stream = s }) ≡ fail d'
      → LoopRuns program depth noinit 0 p d (fail d')
  goes_round :
      {n : ℕ} {p p' : Progress} {d d' : Decoding S} {t : Tag} {s : Istream S} {eof : Bool}
      {o : Outcome (Decoding S) Progress}
      → 0 < d.stream.bytes_left
      → pb_decode_tag d.stream ≡ (ok t s, eof)
      → decode_next program depth noinit t p (record d { stream = s }) ≡ ok p' d'
      → d'.stream.bytes_left < d.stream.bytes_left
      → LoopRuns program depth noinit n p' d' o
      → LoopRuns program depth noinit (suc n) p d o

module _ {S : Type 0} (program : DecoderProgram S) (depth : ℕ)
    (noinit : List Field → ℕ → Run (Decoding S) (Unit {0})) where
  -- The loop ends with `o` after at most `bound` rounds.
  abbrev pub EndsWithin : ℕ → Progress → Decoding S → Outcome (Decoding S) Progress → Type 0
  EndsWithin bound p d o = (n : ℕ) × (n ≤ bound) × LoopRuns program depth noinit n p d o
