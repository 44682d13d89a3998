-- ===== src/Nanopb/Wire/Raw.antt =====
-- `read_raw_value` of pb_decode.c, which hands the undecoded bytes of a value to a callback.
use social_timeline.Common.{
  ℕ, zero, suc, ◌+◌, ◌-◌, ◌/◌, ◌%◌, ◌^◌, ◌≤◌, ◌<◌, ◌≡◌, ◌≢◌, refl, arith, ◌∙◌, ap, sym,
}
use social_timeline.Common.{
  Option, List, [], ◌∷◌, ◌++◌, length, append_assoc, ltb, ◌==◌, bit_and, Bool-cases, inl, inr,
  ltb→lt, if◌then◌else◌,
}
use social_timeline.Common.Bits.{bit_and_top}
use native.Mathlib.Nat.{pow-suc}
use social_timeline.Nanopb.Outcome.{Errmsg, ok}
use social_timeline.Nanopb.Istream.{pb_read}
use social_timeline.Nanopb.Istream.Reads.{reading, pb_read_next}
use social_timeline.Nanopb.Varint.Bytes.{varint}
use social_timeline.Nanopb.Wire.{wt_string, raw_varint, read_raw_value}
use social_timeline.Nanopb.Wire.Skip.{IsValue, a_varint, a_64bit, a_string, a_32bit}

module _ {S : Type 0} where
  raw_varint_round :
      (room b : ℕ) (buf l : List ℕ) (n : ℕ) (err : Option Errmsg)
      → 0 < n
      → raw_varint {S = S} (suc room) buf (reading (b ∷ l) n err) ≡ (
          if bit_and b 0x80 == 0
          then ok (buf ++ (b ∷ [])) (reading l (n - 1) err)
          else raw_varint room (buf ++ (b ∷ [])) (reading l (n - 1) err))
  unfolding raw_varint
  raw_varint_round room b buf l n err h = rw (pb_read_next (b ∷ []) l n err h)

  raw_last :
      (room b : ℕ) (buf l : List ℕ) (n : ℕ) (err : Option Errmsg)
      → b < 128
      → 0 < n
      → raw_varint {S = S} (suc room) buf (reading (b ∷ l) n err)
        ≡ ok (buf ++ (b ∷ [])) (reading l (n - 1) err)
  raw_last room b buf l n err small h =
      let top : bit_and b 0x80 ≡ 0 = omega (arith, bit_and_top b (omega arith)) in
      raw_varint_round room b buf l n err h ∙ rw top

  raw_more :
      (room g : ℕ) (buf l : List ℕ) (n : ℕ) (err : Option Errmsg)
      → g < 128
      → 0 < n
      → raw_varint {S = S} (suc room) buf (reading ((g + 128) ∷ l) n err)
        ≡ raw_varint room (buf ++ ((g + 128) ∷ [])) (reading l (n - 1) err)
  raw_more room g buf l n err small h =
      let top : bit_and (g + 128) 0x80 ≡ 128 = omega (arith, bit_and_top (g + 128) (omega arith)) in
      raw_varint_round room (g + 128) buf l n err h ∙ rw top

  raw_varint-varint :
      (k room v : ℕ) (buf l : List ℕ) (n : ℕ) (err : Option Errmsg)
      → v < 128 ^ suc k
      → k < room
      → length (varint k v) ≤ n
      → raw_varint {S = S} room buf (reading (varint k v ++ l) n err)
        ≡ ok (buf ++ varint k v) (reading l (n - length (varint k v)) err)
  unfolding varint
  raw_varint-varint k zero v buf l n err small enough = absurd (omega arith)
  raw_varint-varint zero (suc room) v buf l n err small enough =
      λ long. raw_last room v buf l n err (omega arith) long
  raw_varint-varint (suc k) (suc room) v buf l n err small enough = elim (Bool-cases (ltb v 128)) [
    | inl lt ↦ rw lt λ long. raw_last room v buf l n err (ltb→lt _ _ lt) long
    | inr ge ↦ rw ge λ long.
        let first = v % 128 + 128 in
        raw_more room (v % 128) buf (varint k (v / 128) ++ l) n err (omega arith) (omega arith)
        ∙ raw_varint-varint k room (v / 128) (buf ++ (first ∷ [])) l (n - 1) err
            (omega (arith, pow-suc 128 (suc k))) (omega arith) (omega arith)
        ∙ ap (λ m. ok ((buf ++ (first ∷ [])) ++ varint k (v / 128)) (reading l m err)) (omega arith)
        ∙ ap (λ b. ok b (reading l (n - suc (length (varint k (v / 128)))) err))
            (append_assoc buf (first ∷ []) (varint k (v / 128)))
  ]

  -- `read_raw_value` with ten bytes of room gives just the bytes of a varint or of a value of a fixed
  -- width, which the stream has left.
  pub read_raw_value_bytes :
      (wire_type : ℕ) (bytes l : List ℕ) (n : ℕ) (err : Option Errmsg)
      → IsValue wire_type bytes
      → wire_type ≢ wt_string
      → length bytes ≤ n
      → read_raw_value {S = S} wire_type 10 (reading (bytes ++ l) n err)
        ≡ ok bytes (reading l (n - length bytes) err)
  unfolding read_raw_value
  read_raw_value_bytes _ _ l n err (a_varint v small) other long =
      raw_varint-varint 9 10 v [] l n err (omega arith) (omega arith) long
  read_raw_value_bytes _ _ l n err (a_64bit bytes eight) other long =
      ap (λ m. pb_read {S = S} m (reading (bytes ++ l) n err)) (sym eight)
      ∙ pb_read_next bytes l n err long
  read_raw_value_bytes _ _ l n err (a_string bytes small) other long = absurd (other refl)
  read_raw_value_bytes _ _ l n err (a_32bit bytes four) other long =
      ap (λ m. pb_read {S = S} m (reading (bytes ++ l) n err)) (sym four)
      ∙ pb_read_next bytes l n err long
