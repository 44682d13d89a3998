-- ===== src/Nanopb/Decode/State.antt =====
-- The state of the decoder of pb_decode.c: the stream, and the memory that the message is decoded
-- into.
use social_timeline.Common.{ℕ, Bool, true, false, List}
use social_timeline.Nanopb.Outcome.{
  Errmsg, first_error, Outcome, ok, fail, Run, left, succeeds, ◌>>=◌,
}
use social_timeline.Nanopb.Istream.{Istream, pb_read}
use social_timeline.Nanopb.Wire.{pb_close_string_substream}
use social_timeline.Nanopb.Field.{Field}
use social_timeline.Nanopb.Memory.{Memory, store, store_byte, store_bytes}
use social_timeline.Nanopb.Heap.{Machine, Placement}

pub record Decoding (S : Type 0) : Type 0 where
  pub stream : Istream S
  pub machine : Machine

-- What a message refers to by pointers: the descriptor arrays, and the functions of the program for
-- callback fields and extensions. `fixed_count_at` is the address of the local `fixed_count_size` of
-- `pb_decode_noinit` at each depth of nesting.
pub record DecoderProgram (S : Type 0) : Type 0 where
  pub descriptors : ℕ → List Field
  pub callback_decode : ℕ → Field → ℕ → Run (Decoding S) (Unit {0})
  pub extension_decode : ℕ → ℕ → ℕ → ℕ → Run (Decoding S) (Unit {0})
  pub place : Placement
  pub fixed_count_at : ℕ → ℕ

-- A function on the stream leaves the memory alone.
unfoldable pub with_machine :
    {S A : Type 0} → Machine → Outcome (Istream S) A → Outcome (Decoding S) A
with_machine m (ok a s) = ok a (record { stream = s; machine = m })
with_machine m (fail s) = fail (record { stream = s; machine = m })

unfoldable pub on_stream : {S A : Type 0} → Run (Istream S) A → Run (Decoding S) A
on_stream f d = with_machine d.machine (f d.stream)

-- PB_RETURN_ERROR.
unfoldable pub refuse : {S A : Type 0} → Errmsg → Run (Decoding S) A
refuse msg d =
    fail (record d { stream = record d.stream { errmsg = first_error d.stream.errmsg msg } })

-- A change of the memory.
unfoldable pub write_memory : {S : Type 0} → (Memory → Memory) → Run (Decoding S) (Unit {0})
write_memory f d = ok tt (record d { machine = record d.machine { memory = f d.machine.memory } })

-- A change of the memory and of what is allocated.
unfoldable pub update : {S : Type 0} → (Machine → Machine) → Run (Decoding S) (Unit {0})
update f d = ok tt (record d { machine = f d.machine })

-- An assignment through a pointer.
unfoldable pub assign : {S : Type 0} → ℕ → ℕ → ℕ → Run (Decoding S) (Unit {0})
unfolding write_memory
assign size dest v = write_memory (λ m. store m size dest v)

unfoldable pub assign_bool : {S : Type 0} → ℕ → ℕ → Run (Decoding S) (Unit {0})
unfolding write_memory
assign_bool dest v = write_memory (λ m. store_byte m dest v)

-- What the memory holds now.
abbrev pub reads : {S A : Type 0} → (Memory → A) → Run (Decoding S) A
reads f d = ok (f d.machine.memory) d

-- `pb_read` into the memory.
unfoldable pub read_into : {S : Type 0} → ℕ → ℕ → Run (Decoding S) (Unit {0})
unfolding on_stream write_memory
read_into dest size =
    on_stream (pb_read size) >>= λ bytes. write_memory (λ m. store_bytes m dest bytes)

-- `pb_decoder_t`: the field and the address of the value.
abbrev pub FieldDecoder : Type 0 → Type 0
FieldDecoder S = Field → ℕ → Run (Decoding S) (Unit {0})

-- The return of `status` behind a substream that has been closed.
unfoldable pub return_status :
    {S : Type 0} → Bool → Machine → Outcome (Istream S) (Unit {0}) → Outcome (Decoding S) (Unit {0})
return_status true machine (ok _ s) = ok tt (record { stream = s; machine = machine })
return_status false machine (ok _ s) = fail (record { stream = s; machine = machine })
return_status status machine (fail s) = fail (record { stream = s; machine = machine })

-- `pb_close_string_substream` behind a use of the substream of `stream`, and the return of its status.
unfoldable pub closing :
    {S : Type 0} → Istream S → Outcome (Decoding S) (Unit {0}) → Outcome (Decoding S) (Unit {0})
unfolding return_status
closing stream result =
    return_status (succeeds result) (left result).machine
      (pb_close_string_substream (left result).stream stream)

-- A use of the substream `sub` of the stream.
unfoldable pub in_substream :
    {S : Type 0} → Run (Decoding S) (Unit {0}) → Istream S → Run (Decoding S) (Unit {0})
unfolding closing
in_substream body sub d = closing d.stream (body (record d { stream = sub }))
