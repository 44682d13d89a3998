-- ===== src/Nanopb/Decode/Callback.antt =====
-- `decode_callback_field` of pb_decode.c. The callbacks are functions of the program.
use social_timeline.Common.{ℕ, zero, suc, ◌||◌, length, ◌==◌, if◌then◌else◌}
use social_timeline.Nanopb.Outcome.{callback_failed, Outcome, ok, fail, Run, ◌>>=◌}
use social_timeline.Nanopb.Istream.{Istream, pb_istream_from_buffer}
use social_timeline.Nanopb.Wire.{wt_string, pb_skip_field, pb_make_string_substream, read_raw_value}
use social_timeline.Nanopb.Field.{FieldIter, current}
use social_timeline.Nanopb.Memory.{funcs, arg}
use social_timeline.Nanopb.Decode.State.{Decoding, DecoderProgram, on_stream, refuse, closing}

-- The stream comes back behind a callback that has worked on another.
unfoldable pub put_back :
    {S : Type 0} → Istream S → Outcome (Decoding S) (Unit {0}) → Outcome (Decoding S) (Unit {0})
put_back stream (ok _ d) = ok tt (record d { stream = stream })
put_back stream (fail d) = fail (record d { stream = stream })

module _ {S : Type 0} (program : DecoderProgram S) (it : FieldIter) where
  -- `pCallback->funcs.decode(&substream, iter->pos, arg)`
  unfoldable pub call_decode : Run (Decoding S) (Unit {0})
  call_decode d =
      program.callback_decode (funcs d.machine.memory it.p_data) (current it) (arg it.p_data) d

  -- The end of a round of the do-while loop.
  unfoldable pub after_call :
      Istream S
      → (Decoding S → Outcome (Decoding S) (Unit {0}))
      → Outcome (Decoding S) (Unit {0})
      → Outcome (Decoding S) (Unit {0})
  unfolding closing
  after_call stream next (fail d) = refuse callback_failed (record d { stream = stream })
  after_call stream next (ok _ d) =
      if d.stream.bytes_left == 0 then closing stream (ok tt d) else next d

  -- The loop over the substream, as long as the callback leaves bytes of it. The rounds are bounded by
  -- the bytes there are, of which a callback takes one at least; a callback that takes none makes the
  -- loop endless, and where the rounds run out the decoder says false.
  unfoldable pub callback_loop : ℕ → Istream S → Run (Decoding S) (Unit {0})
  unfolding call_decode after_call
  callback_loop zero stream d = fail (record d { stream = stream })
  callback_loop (suc rounds) stream d =
      after_call stream (callback_loop rounds stream) (call_decode d)

  unfoldable pub decode_callback_field : ℕ → Run (Decoding S) (Unit {0})
  unfolding callback_loop put_back
  decode_callback_field wire_type d =
      if (it.p_data == 0) || (funcs d.machine.memory it.p_data == 0)
      then on_stream (pb_skip_field wire_type) d
      else if wire_type == wt_string
      then (on_stream pb_make_string_substream >>= λ substream d'.
            callback_loop (suc substream.bytes_left) d'.stream (record d' { stream = substream }))
          d
      else (on_stream (read_raw_value wire_type 10) >>= λ bytes d'.
            put_back d'.stream
              (call_decode (record d' { stream = pb_istream_from_buffer bytes (length bytes) })))
          d
