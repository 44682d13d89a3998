-- ===== src/Nanopb/Decode/Message/Step.antt =====
-- A round of the loop of `pb_decode_noinit` in pb_decode.c in front of the key of a field.
use social_timeline.Common.{ℕ, suc, ◌-◌, ◌^◌, ◌≤◌, ◌<◌, ◌≡◌, refl, arith, ap}
use social_timeline.Common.{false, Option, List, ◌++◌, length, ◌==◌}
use social_timeline.Nanopb.Outcome.{Errmsg, ok, Run, ◌>>=◌}
use social_timeline.Nanopb.Varint.Bytes.{varint, length-varint}
use social_timeline.Nanopb.Wire.Encode.{key}
use social_timeline.Nanopb.Wire.Decode.{pb_decode_tag-key}
use social_timeline.Nanopb.Field.{Field}
use social_timeline.Nanopb.Heap.{Machine}
use social_timeline.Nanopb.Decode.State.{Decoding, DecoderProgram}
use social_timeline.Nanopb.Decode.Values.{decoding}
use social_timeline.Nanopb.Decode.Message.{Progress, decode_next, behind_tag, decode_loop}

module _ {S : Type 0} (program : DecoderProgram S) (depth : ℕ)
    (noinit : List Field → ℕ → Run (Decoding S) (Unit {0})) where
  pub decode_loop-key :
      (rounds wire_type tag n : ℕ) (l : List ℕ) (err : Option Errmsg) (x : Machine) (p : Progress)
      → wire_type < 8
      → 0 < tag
      → tag < 2 ^ 29
      → length (varint 9 (key wire_type tag)) ≤ n
      → decode_loop program depth noinit
          (suc rounds)
          p
          (decoding (varint 9 (key wire_type tag) ++ l) n err x)
        ≡ (decode_next program depth noinit (record { wire_type = wire_type; tag = tag }) p
              >>= decode_loop program depth noinit rounds)
            (decoding l (n - length (varint 9 (key wire_type tag))) err x)
  unfolding decode_loop behind_tag
  decode_loop-key rounds wire_type tag n l err x p hw pos ht long =
      let some_left : (n == 0) ≡ false =
        let byte = (length-varint 9 (key wire_type tag)).0 in ground arith in
      rw some_left (
        ap
          (behind_tag program depth noinit
            (λ t. decode_next program depth noinit t p >>= decode_loop program depth noinit rounds)
            p x)
          (pb_decode_tag-key wire_type tag n l err hw pos ht long))

  -- The loop ends where the stream ends.
  pub decode_loop-end :
      (rounds n : ℕ) (l : List ℕ) (err : Option Errmsg) (x : Machine) (p : Progress)
      → n ≡ 0
      → decode_loop program depth noinit (suc rounds) p (decoding l n err x)
        ≡ ok p (decoding l n err x)
  unfolding decode_loop
  decode_loop-end rounds n l err x p e = rw e refl
