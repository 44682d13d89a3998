-- ===== src/Nanopb/Varint/Bytes.antt =====
-- The bytes of a varint, as arithmetic: what `pb_encode_varint` of pb_encode.c hands to `pb_write`.
use social_timeline.Common.{
  ℕ, zero, suc, ◌+◌, ◌/◌, ◌%◌, ◌^◌, ◌≤◌, ◌<◌, ◌≡◌, ◌≢◌, refl, arith, ◌∙◌, ap, sym,
}
use social_timeline.Common.{
  List, [], ◌∷◌, ◌++◌, All, IsByte, length, append_assoc, ltb, leb, if◌then◌else◌, u8,
}
use social_timeline.Common.{bit_and, bit_or, Bool-cases, inl, inr, ltb→lt, ltb→le, lt→ltb}
use social_timeline.Common.Bits.{bit_and_mask, bit_or_top}
use native.Mathlib.Nat.{pow-suc}
use social_timeline.Nanopb.Varint.{fill_buffer, clear_last, varint_buffer}

-- Groups of seven bits, the lowest first; every byte but the last has its top bit set. The first
-- argument bounds the number of bytes that follow the first.
unfoldable pub varint : ℕ → ℕ → List ℕ
varint zero v = v ∷ []
varint (suc k) v =
    let rest = varint k (v / 128) in if ltb v 128 then v ∷ [] else (v % 128 + 128) ∷ rest

group_byte : (v : ℕ) → u8 (bit_or (bit_and v 0x7f) 0x80) ≡ v % 128 + 128
group_byte v =
    omega (arith, bit_or_top (bit_and v 0x7f) (omega (arith, bit_and_mask 7 v)), bit_and_mask 7 v)

-- The loop stores the groups of a value that is not 0, all with their top bit set.
marked : ℕ → ℕ → List ℕ
marked zero v = (v + 128) ∷ []
marked (suc k) v =
    let rest = marked k (v / 128) in if ltb v 128 then (v + 128) ∷ [] else (v % 128 + 128) ∷ rest

fill_buffer-zero : (fuel : ℕ) (buf : List ℕ) → fill_buffer (suc fuel) 0 buf ≡ buf
unfolding fill_buffer
fill_buffer-zero fuel buf = refl

fill_buffer-round :
    (fuel v : ℕ) (buf : List ℕ)
    → 0 < v
    → fill_buffer (suc fuel) v buf ≡ fill_buffer fuel (v / 128) (buf ++ ((v % 128 + 128) ∷ []))
unfolding fill_buffer
fill_buffer-round fuel v buf pos = rw group_byte (ground arith)

-- A last group below 128.
fill_buffer-last :
    (fuel v : ℕ) (buf : List ℕ)
    → 0 < v
    → v < 128
    → fill_buffer (suc (suc fuel)) v buf ≡ buf ++ ((v + 128) ∷ [])
fill_buffer-last fuel v buf pos small =
    let none_left : v / 128 ≡ 0 = omega arith in
    let whole : v % 128 ≡ v = omega arith in
    fill_buffer-round (suc fuel) v buf pos ∙ rw (none_left, whole) (fill_buffer-zero fuel _)

fill_buffer-marked :
    (k fuel v : ℕ) (buf : List ℕ)
    → 0 < v
    → v < 128 ^ suc k
    → fill_buffer (suc (suc (k + fuel))) v buf ≡ buf ++ marked k v
unfolding marked
fill_buffer-marked zero fuel v buf pos small =
    fill_buffer-last (zero + fuel) v buf pos (omega arith)
fill_buffer-marked (suc k) fuel v buf pos small = elim (Bool-cases (ltb v 128)) [
  | inl lt ↦ rw lt (fill_buffer-last (suc k + fuel) v buf pos (omega (arith, ltb→lt _ _ lt)))
  | inr ge ↦
      let carry : suc k + fuel ≡ suc (k + fuel) = omega arith in
      rw (ge, carry)
        (fill_buffer-round (suc (suc (k + fuel))) v buf pos
          ∙ fill_buffer-marked k fuel (v / 128) _ (omega (arith, ltb→le _ _ ge))
              (omega (arith, pow-suc 128 (suc k)))
          ∙ append_assoc buf ((v % 128 + 128) ∷ []) (marked k (v / 128)))
]

clear_last-cons : (b : ℕ) (buf : List ℕ) → buf ≢ [] → clear_last (b ∷ buf) ≡ b ∷ clear_last buf
unfolding clear_last
clear_last-cons b [] ne = absurd (ne refl)
clear_last-cons b (c ∷ buf) ne = refl

marked-ne-nil : (k v : ℕ) → marked k v ≢ []
unfolding marked
marked-ne-nil zero v e = cc
marked-ne-nil (suc k) v e = ground arith

clear_last-one : (v : ℕ) → v < 128 → clear_last ((v + 128) ∷ []) ≡ v ∷ []
unfolding clear_last
clear_last-one v h = ground (arith, bit_and_mask 7 (v + 128))

-- `buffer[i-1] &= 0x7F` takes the top bit off the last group.
clear_last-marked : (k v : ℕ) → v < 128 ^ suc k → clear_last (marked k v) ≡ varint k v
unfolding marked varint
clear_last-marked zero v small = clear_last-one v (omega arith)
clear_last-marked (suc k) v small = elim (Bool-cases (ltb v 128)) [
  | inl lt ↦ rw lt (clear_last-one v (ltb→lt _ _ lt))
  | inr ge ↦ rw ge (
      clear_last-cons _ (marked k (v / 128)) (marked-ne-nil k (v / 128))
      ∙ ap (λ l. (v % 128 + 128) ∷ l)
          (clear_last-marked k (v / 128) (omega (arith, pow-suc 128 (suc k)))))
]

pub varint_small : (k v : ℕ) → v < 128 → varint k v ≡ v ∷ []
unfolding varint
varint_small zero v h = refl
varint_small (suc k) v h = rw (lt→ltb v 128 h)

-- For every 64-bit value the shifts and masks of the C code give these bytes.
pub varint_buffer-varint : (v : ℕ) → v < 2 ^ 64 → varint_buffer v ≡ varint 9 v
unfolding varint_buffer
varint_buffer-varint v small = elim (Bool-cases (leb v 0x7f)) [
  | inl lt ↦
      let le : v ≤ 127 = ground arith in
      let whole : u8 v ≡ v = omega arith in rw (lt, whole) (sym (varint_small 9 v (omega arith)))
  | inr ge ↦ rw ge (
      ap clear_last (fill_buffer-marked 9 0 v [] (ground arith) (omega arith))
      ∙ clear_last-marked 9 v (omega arith))
]

pub varint-IsByte : (k v : ℕ) → v < 128 ^ suc k → All IsByte (varint k v)
unfolding varint
varint-IsByte zero v h = omega arith
varint-IsByte (suc k) v h =
    ground (arith, varint-IsByte k (v / 128) (omega (arith, pow-suc 128 (suc k))))

pub length-varint : (k v : ℕ) → (1 ≤ length (varint k v)) × (length (varint k v) ≤ k + 1)
unfolding varint
length-varint zero v = omega arith
length-varint (suc k) v = ground (arith, length-varint k (v / 128))

-- A larger bound on the number of bytes changes nothing.
pub varint_bound : (k m v : ℕ) → k ≤ m → v < 128 ^ suc k → varint m v ≡ varint k v
unfolding varint
varint_bound zero zero v le h = refl
varint_bound zero (suc m) v le h = rw (lt→ltb v 128 (omega arith))
varint_bound (suc k) zero v le h = absurd (omega arith)
varint_bound (suc k) (suc m) v le h = elim (Bool-cases (ltb v 128)) [
  | inl lt ↦ rw lt
  | inr ge ↦ rw ge (
      ap (λ l. (v % 128 + 128) ∷ l)
        (varint_bound k m (v / 128) (omega arith) (omega (arith, pow-suc 128 (suc k)))))
]
