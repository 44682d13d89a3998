-- ===== src/Nanopb/Wire/Skip.antt =====
-- Skipping a field of an unknown tag (`pb_skip_varint`, `pb_skip_string` and `pb_skip_field` of
-- pb_decode.c).
use social_timeline.Common.{
  ℕ, zero, suc, ◌+◌, ◌-◌, ◌/◌, ◌%◌, ◌^◌, ◌≤◌, ◌<◌, ◌≡◌, ◌≢◌, arith, ◌∙◌, ap, sym,
}
use social_timeline.Common.{
  Option, List, [], ◌∷◌, ◌++◌, length, length-append, append_assoc, ltb, ◌==◌, bit_and, Bool-cases,
  inl, inr, ltb→lt, if◌then◌else◌,
}
use social_timeline.Common.Bits.{bit_and_top}
use social_timeline.Nanopb.Outcome.{Errmsg, invalid_wire_type, first_error, ok, fail, bind}
use social_timeline.Nanopb.Istream
use social_timeline.Nanopb.Istream.{Istream, pb_read, pb_skip}
use social_timeline.Nanopb.Istream.Reads.{reading, pb_read_next, pb_skip_next}
use social_timeline.Nanopb.Varint.{skip_varint_loop, pb_skip_varint}
use social_timeline.Nanopb.Varint.Bytes.{varint}
use social_timeline.Nanopb.Varint.Decode32.{pb_decode_varint32-varint}
use native.Mathlib.Nat.{pow-suc}
use social_timeline.Nanopb.Wire.{
  wt_varint, wt_64bit, wt_string, wt_32bit, pb_skip_string, pb_skip_field,
}

-- The bytes of one value of each wire type.
pub data IsValue : ℕ → List ℕ → Type 0 where
  a_varint : (v : ℕ) → v < 2 ^ 64 → IsValue wt_varint (varint 9 v)
  a_64bit : (bytes : List ℕ) → length bytes ≡ 8 → IsValue wt_64bit bytes
  a_string :
      (bytes : List ℕ)
      → length bytes < 2 ^ 32
      → IsValue wt_string (varint 9 (length bytes) ++ bytes)
  a_32bit : (bytes : List ℕ) → length bytes ≡ 4 → IsValue wt_32bit bytes

module _ {S : Type 0} where
  -- A round on the last byte, and on one with more behind it.
  skip_varint_loop_round :
      (fuel b : ℕ) (l : List ℕ) (n : ℕ) (err : Option Errmsg)
      → 0 < n
      → skip_varint_loop {S = S} (suc fuel) (reading (b ∷ l) n err) ≡ (
          if bit_and b 0x80 == 0
          then ok tt (reading l (n - 1) err)
          else skip_varint_loop fuel (reading l (n - 1) err))
  unfolding skip_varint_loop
  skip_varint_loop_round fuel b l n err h = rw (pb_read_next (b ∷ []) l n err h)

  skip_last :
      (fuel b : ℕ) (l : List ℕ) (n : ℕ) (err : Option Errmsg)
      → b < 128
      → 0 < n
      → skip_varint_loop {S = S} (suc fuel) (reading (b ∷ l) n err) ≡ ok tt (reading l (n - 1) err)
  skip_last fuel b l n err small h =
      let top : bit_and b 0x80 ≡ 0 = omega (arith, bit_and_top b (omega arith)) in
      skip_varint_loop_round fuel b l n err h ∙ rw top

  skip_more :
      (fuel g : ℕ) (l : List ℕ) (n : ℕ) (err : Option Errmsg)
      → g < 128
      → 0 < n
      → skip_varint_loop {S = S} (suc fuel) (reading ((g + 128) ∷ l) n err)
        ≡ skip_varint_loop fuel (reading l (n - 1) err)
  skip_more fuel g l n err small h =
      let top : bit_and (g + 128) 0x80 ≡ 128 = omega (arith, bit_and_top (g + 128) (omega arith)) in
      skip_varint_loop_round fuel (g + 128) l n err h ∙ rw top

  skip_varint_loop-varint :
      (k fuel v : ℕ) (l : List ℕ) (n : ℕ) (err : Option Errmsg)
      → v < 128 ^ suc k
      → n < fuel
      → length (varint k v) ≤ n
      → skip_varint_loop {S = S} fuel (reading (varint k v ++ l) n err)
        ≡ ok tt (reading l (n - length (varint k v)) err)
  unfolding varint
  skip_varint_loop-varint k zero v l n err small enough = absurd (omega arith)
  skip_varint_loop-varint zero (suc fuel) v l n err small enough =
      λ long. skip_last fuel v l n err (omega arith) long
  skip_varint_loop-varint (suc k) (suc fuel) v l n err small enough =
      elim (Bool-cases (ltb v 128)) [
        | inl lt ↦ rw lt λ long. skip_last fuel v l n err (ltb→lt _ _ lt) long
        | inr ge ↦ rw ge λ long.
            skip_more fuel (v % 128) (varint k (v / 128) ++ l) n err (omega arith) (omega arith)
            ∙ skip_varint_loop-varint k fuel (v / 128) l (n - 1) err
                (omega (arith, pow-suc 128 (suc k))) (omega arith) (omega arith)
            ∙ ap (λ m. ok tt (reading l m err)) (omega arith)
      ]

  pb_skip_varint-varint :
      (v n : ℕ) (l : List ℕ) (err : Option Errmsg)
      → v < 2 ^ 64
      → length (varint 9 v) ≤ n
      → pb_skip_varint {S = S} (reading (varint 9 v ++ l) n err)
        ≡ ok tt (reading l (n - length (varint 9 v)) err)
  unfolding pb_skip_varint
  pb_skip_varint-varint v n l err small long =
      skip_varint_loop-varint 9 (n + 1) v l n err (omega arith) (omega arith) long

  pb_skip_string_next :
      (bytes l : List ℕ) (n : ℕ) (err : Option Errmsg)
      → length bytes < 2 ^ 32
      → length (varint 9 (length bytes)) + length bytes ≤ n
      → pb_skip_string {S = S} (reading (varint 9 (length bytes) ++ (bytes ++ l)) n err)
        ≡ ok tt (reading l (n - length (varint 9 (length bytes)) - length bytes) err)
  unfolding pb_skip_string
  pb_skip_string_next bytes l n err small long = rw (
    pb_decode_varint32-varint (length bytes) n (bytes ++ l) err small (omega arith),
    pb_skip_next bytes l (n - length (varint 9 (length bytes))) err (omega arith),
  )

  -- `pb_skip_field` takes just the bytes of one value of the given wire type, if the stream has them
  -- left.
  pub pb_skip_field_value :
      (wire_type : ℕ) (bytes l : List ℕ) (n : ℕ) (err : Option Errmsg)
      → IsValue wire_type bytes
      → length bytes ≤ n
      → pb_skip_field {S = S} wire_type (reading (bytes ++ l) n err)
        ≡ ok tt (reading l (n - length bytes) err)
  unfolding pb_skip_field
  pb_skip_field_value _ _ l n err (a_varint v small) long =
      pb_skip_varint-varint v n l err small long
  pb_skip_field_value _ _ l n err (a_64bit bytes eight) long =
      let next = pb_skip_next {S = S} bytes l n err long in
      ap (λ o. bind o (λ _. ok tt))
        (ap (λ m. pb_skip {S = S} m (reading (bytes ++ l) n err)) (sym eight) ∙ next)
  pb_skip_field_value _ _ l n err (a_string bytes small) long =
      let total = length-append (varint 9 (length bytes)) bytes in
      rw (append_assoc (varint 9 (length bytes)) bytes l) (
        pb_skip_string_next bytes l n err small (omega (arith, total))
        ∙ ap (λ m. ok tt (reading l m err)) (omega (arith, total)))
  pb_skip_field_value _ _ l n err (a_32bit bytes four) long =
      let next = pb_skip_next {S = S} bytes l n err long in
      ap (λ o. bind o (λ _. ok tt))
        (ap (λ m. pb_skip {S = S} m (reading (bytes ++ l) n err)) (sym four) ∙ next)

  -- A wire type other than the four is refused with "invalid wire_type", and nothing is read.
  pub pb_skip_field_refused :
      (wire_type : ℕ) (s : Istream S)
      → wire_type ≢ wt_varint
      → wire_type ≢ wt_64bit
      → wire_type ≢ wt_string
      → wire_type ≢ wt_32bit
      → pb_skip_field wire_type s
        ≡ fail (record s { errmsg = first_error s.errmsg invalid_wire_type })
  unfolding pb_skip_field Istream.return_error
  pb_skip_field_refused wire_type s a b c d = ground arith
