-- ===== src/Lib.antt =====
-- social-timeline is an iOS app whose posts and accounts live in Firebase. This library is about the
-- C code that the app builds: nanopb, the Protocol Buffers runtime with which the Firebase pods encode
-- and decode their messages, and the Base64 functions of the WebSocket client of FirebaseDatabase.
--
-- The parts, and the files that model them:
--   Common          tests, lists, machine words and bit operations that the parts share.
--   Base64          Timeline/Pods/FirebaseDatabase/Firebase/Database/third_party/SocketRocket/fbase64.c:
--                   f_b64_ntop and f_b64_pton. Encode has the RFC 4648 text as a specification, Decode
--                   the bounds of the target, Count the counting mode, Groups and RoundTrip the decoding
--                   of that text.
--   Nanopb.Outcome  the `bool` answers of nanopb with the stream they leave (Timeline/Pods/nanopb/pb.h).
--   Nanopb.Ostream  pb_ostream_t, pb_write and buf_write of Timeline/Pods/nanopb/pb_encode.c.
--   Nanopb.Istream  pb_istream_t, pb_read and pb_readbyte of Timeline/Pods/nanopb/pb_decode.c.
--   Nanopb.Varint   pb_encode_varint, pb_decode_varint, pb_decode_varint32, the zigzag values and
--                   pb_skip_varint. Bytes has the varint as arithmetic.
--   Nanopb.Wire     tags, fixed-width values, strings, pb_skip_field and substreams.
--   Nanopb.Field    pb_field_t and the iterator of Timeline/Pods/nanopb/pb_common.c. Places says where
--                   the fields of a structure lie, Find what the search for a tag finds.
--   Nanopb.Memory   the memory that messages lie in, with the structures of pb.h.
--   Nanopb.Encode   the message encoder of pb_encode.c: Scalars (pb_enc_*), Default
--                   (pb_check_proto3_default_value), Nested (pb_encode_submessage), Fields
--                   (encode_field and what it calls) and Message
--                   (pb_encode and its callers). Spec says what bytes a message is meant to be encoded
--                   to; Submessage, Values, Arrays, Refines and Sizes relate the two. Pointers is about
--                   proto3 strings that are pointers.
--   Nanopb.Heap     pb_realloc and pb_free of pb.h over a list of the blocks that are allocated.
--   Nanopb.Decode   the message decoder of pb_decode.c: State (the stream and the memory), Scalars and
--                   Strings (pb_dec_*), Default (pb_message_set_to_defaults), Release (pb_release),
--                   Allocate (allocate_field), Nested (pb_dec_submessage and the table of decoders),
--                   Static, Pointer and Callback (decode_static_field, decode_pointer_field and
--                   decode_callback_field), Fields (decode_field and extensions), Required (fields_seen)
--                   and Message (pb_decode_noinit and its callers). Sizes and Values are about numbers,
--                   Takes and Rounds about what the loops take from the stream, and Rounds.Ends about the
--                   end of the loop over the fields. Below Message, Known,
--                   Sequence, Count, Complete and Layout are about messages of required unsigned fields, which
--                   RoundTrip decodes from what the encoder writes; Unknown is about fields that a message
--                   does not have, and Delimited about messages with their length in front.
--
-- The encoder walks over the descriptor array of a message with the iterator, reads the values from
-- the memory, and writes tags and values to an output stream with the functions of Nanopb.Wire, which
-- write varints. Submessages and packed arrays are encoded twice, first into a sizing stream.
--
-- The decoder reads tags from an input stream, looks their fields up with the iterator, and writes the
-- values to the memory; pointer fields get blocks of the heap, which pb_release gives back. Submessages
-- and packed arrays are decoded from substreams.
--
-- Numbers are natural numbers with the wrap-around of their C types written out: `size_t` has 64 bits,
-- `pb_size_t` 32 (PB_FIELD_32BIT), `unsigned` and `int` 32, `uint_fast8_t` 8. A signed value is its bit
-- pattern. Functions that change a stream take it and give it back; `fail` is the answer false.
-- Callbacks of streams, callback fields and extension handlers are parameters, and so is the place where
-- an allocation finds room, if it finds any. A read that fails stores nothing in the model. The local of
-- pb_decode_noinit that a pointer is taken of has an address for each depth of nesting. What C leaves
-- open, the release of a pointer that is no block and the call of a null function pointer, sets a flag.
--
-- Fuel: the loop of pb_encode_varint runs at most ten rounds on a 64-bit value and has fuel eleven;
-- that of pb_decode_varint ends at 64 bits, after ten rounds, and has eleven; pb_decode_varint32 and
-- pb_skip_varint take a byte a round and have as many rounds as the stream has bytes left, one more
-- for the latter. The search of the iterator turns once round the array, the terminator included.
-- The nesting of submessages is a parameter of pb_encode: where it runs out, the model says false,
-- and so does message_bytes. It is a parameter of pb_decode_noinit in the same way, and bounds the
-- extension lists; defaults and releases deeper than that do nothing. The loop of pb_decode_noinit
-- has one round more than the stream has bytes left, the loops over packed arrays one for each byte,
-- and the loop of a callback field one more; a callback that takes nothing makes that last loop
-- endless, and the model then says false.
--
-- Not modelled: the descriptors that are generated (Timeline/Pods/GoogleDataTransportCCTSupport,
-- Timeline/Pods/FirebaseCoreDiagnostics), the other pods, and the Swift code of the app. The aliasing of a
-- source buffer with the destination of a write is not modelled: pb_write gets the bytes as they are
-- before the call.
pub mod Common
pub mod Base64
pub mod Nanopb
