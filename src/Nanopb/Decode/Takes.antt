-- ===== src/Nanopb/Decode/Takes.antt =====
-- What pb_decode.c does with a stream and its substreams never adds to what the stream has left.
pub mod Values
pub mod Static
pub mod Pointer
pub mod Fields
use social_timeline.Common.{ℕ, zero, suc, ◌+◌, ◌-◌, ◌≤◌, ◌<◌, ◌≡◌, refl, arith, ◌∙◌, [], ◌*◌, u64}
use social_timeline.Common.{
  Bool, true, false, List, ltb, leb, ◌==◌, ◌&&◌, ◌||◌, not, if◌then◌else◌, if-cases,
}
use native.Mathlib.Nat.{le_refl, le_trans}
use social_timeline.Nanopb.Outcome.{
  Errmsg, Outcome, ok, fail, Run, bind, left, succeeds, pure, ◌>>=◌,
}
use social_timeline.Nanopb.Outcome.Takes.{
  Takes, takes, at_most, Takes-bind, Takes-then, Takes-if, Takes-either, Takes-test, Takes-pure,
}
use social_timeline.Nanopb.Istream.{Istream, pb_skip}
use social_timeline.Nanopb.Istream.Takes.{bytes_left, pb_read-Takes}
use social_timeline.Nanopb.Wire.Takes.{
  pb_decode_varint-Takes, pb_decode_svarint-Takes, pb_decode_varint32-Takes,
  pb_decode_fixed32-Takes, pb_decode_fixed64-Takes, pb_skip_field-Takes,
  pb_make_string_substream-Takes, read_raw_value-Takes,
}
use social_timeline.Nanopb.Wire.{
  hand_back, pb_close_string_substream, pb_skip_field, read_raw_value, wt_string,
}
use social_timeline.Nanopb.Field.{
  Field, FieldIter, ltype_varint, ltype_uvarint, ltype_svarint, ltype_fixed32, ltype_fixed64,
  ltype_bytes, ltype_string, ltype_submessage, ltype_fixed_length_bytes,
}
use social_timeline.Nanopb.Memory.{Memory, load_pointer, load_size}
use social_timeline.Nanopb.Heap.{Machine, Placement, pb_realloc}
use social_timeline.Nanopb.Decode.State.{
  Decoding, DecoderProgram, FieldDecoder, with_machine, on_stream, refuse, update, write_memory,
  assign, assign_bool, reads, read_into, return_status, closing, in_substream,
}
use social_timeline.Nanopb.Decode.Scalars.{
  assign_signed, assign_unsigned, as_signed, pb_dec_varint, pb_dec_uvarint, pb_dec_svarint,
  pb_dec_fixed32, pb_dec_fixed64,
}
use social_timeline.Nanopb.Decode.Allocate.{keep_block, overflows, allocate_field}
use social_timeline.Nanopb.Decode.Strings.{
  write_behind, read_string, read_bytes, room_for, pb_dec_bytes, pb_dec_string,
  pb_dec_fixed_length_bytes,
}
use social_timeline.Nanopb.Decode.Nested.{call_null, decode_message, pb_dec_submessage, decoder_for}

-- `bytes_left` of the stream of the decoder.
abbrev pub remaining : {S : Type 0} → Decoding S → ℕ
remaining d = d.stream.bytes_left

pub same_le : {a b c : ℕ} → a ≡ b → b ≤ c → a ≤ c
same_le e h = omega arith

module _ {S : Type 0} where
  with_machine-at_most :
      {A : Type 0} (n : ℕ) (x : Machine) (o : Outcome (Istream S) A)
      → bytes_left (left o) ≤ n
      → remaining (left (with_machine x o)) ≤ n
  unfolding with_machine
  with_machine-at_most n x (ok a s) h = h
  with_machine-at_most n x (fail s) h = h

  pub on_stream-Takes :
      {A : Type 0} {f : Run (Istream S) A}
      → Takes (bytes_left {S = S}) f
      → Takes (remaining {S = S}) (on_stream f)
  unfolding on_stream
  on_stream-Takes {f = f} (takes h) =
      takes λ d. with_machine-at_most (remaining d) d.machine (f d.stream) (h d.stream)

  pub refuse-Takes : {A : Type 0} (msg : Errmsg) → Takes {A = A} (remaining {S = S}) (refuse msg)
  unfolding refuse
  refuse-Takes msg = takes λ d. le_refl (remaining d)

  pub update-Takes : (f : Machine → Machine) → Takes (remaining {S = S}) (update f)
  unfolding update
  update-Takes f = takes λ d. le_refl (remaining d)

  pub write_memory-Takes : (f : Memory → Memory) → Takes (remaining {S = S}) (write_memory f)
  unfolding write_memory
  write_memory-Takes f = takes λ d. le_refl (remaining d)

  pub assign-Takes : (size dest v : ℕ) → Takes (remaining {S = S}) (assign size dest v)
  unfolding assign
  assign-Takes size dest v = write_memory-Takes _

  pub assign_bool-Takes : (dest v : ℕ) → Takes (remaining {S = S}) (assign_bool dest v)
  unfolding assign_bool
  assign_bool-Takes dest v = write_memory-Takes _

  pub reads-Takes : {A : Type 0} (f : Memory → A) → Takes (remaining {S = S}) (reads f)
  reads-Takes f = takes λ d. le_refl (remaining d)

  pub read_into-Takes : (dest size : ℕ) → Takes (remaining {S = S}) (read_into dest size)
  unfolding read_into
  read_into-Takes dest size =
      Takes-bind (on_stream-Takes (pb_read-Takes size)) (λ bytes. write_memory-Takes _)

  -- The substream has been cut off: what is left of the stream is what it was, however the
  -- substream is used.
  hand_back-left :
      (o : Outcome (Istream S) (List ℕ)) (s : Istream S)
      → bytes_left (left (hand_back o s)) ≡ s.bytes_left
  unfolding hand_back
  hand_back-left (ok bytes sub) s = refl
  hand_back-left (fail sub) s = refl

  close-left :
      (sub s : Istream S) → bytes_left (left (pb_close_string_substream sub s)) ≡ s.bytes_left
  unfolding pb_close_string_substream
  close-left sub s =
      if-cases (λ (o : Outcome (Istream S) (Unit {0})). bytes_left (left o) ≡ s.bytes_left)
        (sub.bytes_left == 0) (hand_back (ok [] sub) s) (hand_back (pb_skip sub.bytes_left sub) s)
        (hand_back-left (ok [] sub) s) (hand_back-left (pb_skip sub.bytes_left sub) s)

  return_status-left :
      (status : Bool) (x : Machine) (o : Outcome (Istream S) (Unit {0}))
      → remaining (left (return_status status x o)) ≡ bytes_left (left o)
  unfolding return_status
  return_status-left true x (ok _ s) = refl
  return_status-left false x (ok _ s) = refl
  return_status-left true x (fail s) = refl
  return_status-left false x (fail s) = refl

  pub closing-left :
      (s : Istream S) (result : Outcome (Decoding S) (Unit {0}))
      → remaining (left (closing s result)) ≡ s.bytes_left
  unfolding closing
  closing-left s result =
      return_status-left (succeeds result) (left result).machine
        (pb_close_string_substream (left result).stream s)
      ∙ close-left (left result).stream s

  pub in_substream-Takes :
      (body : Run (Decoding S) (Unit {0})) (sub : Istream S)
      → Takes (remaining {S = S}) (in_substream body sub)
  unfolding in_substream
  in_substream-Takes body sub = takes λ d.
      same_le (closing-left d.stream (body (record d { stream = sub }))) (le_refl (remaining d))
