-- ===== src/Common/BitSets.antt =====
-- A word as the set of the bits that are 1 in it.
use social_timeline.Common.{ℕ, zero, suc, ◌+◌, ◌-◌, ◌*◌, ◌/◌, ◌^◌, ◌≤◌, ◌<◌, ◌≡◌, refl, arith, ap}
use social_timeline.Common.{Bool, true, false, ◌||◌, bit_or, ◌==◌}
use social_timeline.Common.Bits.{bit_or_digit, bit_or-zero}
use native.Mathlib.Nat.{pow-suc, one-le-pow}

abbrev pub digit : Bool → ℕ
digit true = 1
digit false = 0

-- The word of `n` bits that holds these.
unfoldable pub bits : ℕ → (ℕ → Bool) → ℕ
bits zero has = 0
bits (suc n) has = digit (has 0) + 2 * bits n (λ i. has (suc i))

digit-lt : (b : Bool) → digit b < 2
digit-lt true = omega arith
digit-lt false = omega arith

pub bits_cong : (n : ℕ) (f g : ℕ → Bool) → ((i : ℕ) → i < n → f i ≡ g i) → bits n f ≡ bits n g
unfolding bits
bits_cong zero f g same = refl
bits_cong (suc n) f g same =
    let head : digit (f 0) ≡ digit (g 0) = ap digit (same 0 (omega arith)) in
    let tail = bits_cong n (λ i. f (suc i)) (λ i. g (suc i)) (λ i h. same (suc i) (omega arith)) in
    omega (arith, head, tail)

-- One bit more.
pub bit_or-bits :
    (n k : ℕ) (has : ℕ → Bool)
    → k < n
    → bit_or (bits n has) (2 ^ k) ≡ bits n (λ i. (i == k) || has i)
unfolding bits
bit_or-bits zero k has h = absurd (omega arith)
bit_or-bits (suc n) zero has h =
    let rest = bits n (λ i. has (suc i)) in
    let tail =
      bits_cong n (λ i. (suc i == 0) || has (suc i)) (λ i. has (suc i)) (λ i h. ground arith) in
    omega (
      arith,
      bit_or_digit (digit (has 0) + 2 * rest) 1,
      digit-lt (has 0),
      bit_or-zero ((digit (has 0) + 2 * rest) / 2),
      tail,
    )
bit_or-bits (suc n) (suc k) has h =
    let rest = bits n (λ i. has (suc i)) in
    let x = digit (has 0) + 2 * rest in
    let head : digit ((0 == suc k) || has 0) ≡ digit (has 0) =
      let apart : (0 == suc k) ≡ false = ground arith in rw apart in
    let tail =
      bits_cong n (λ i. (suc i == suc k) || has (suc i)) (λ i. (i == k) || has (suc i))
        (λ i h. ground arith) in
    let half : bit_or (x / 2) (2 ^ suc k / 2) ≡ bit_or rest (2 ^ k) =
      ap2 (omega (arith, digit-lt (has 0))) (omega (arith, pow-suc 2 k)) in
    omega (
      arith,
      bit_or_digit x (2 ^ suc k),
      digit-lt (has 0),
      pow-suc 2 k,
      half,
      bit_or-bits n k (λ i. has (suc i)) (omega arith),
      head,
      tail,
    )
  where
    ap2 : {a b c d : ℕ} → a ≡ b → c ≡ d → bit_or a c ≡ bit_or b d
    ap2 p q i = bit_or (p i) (q i)

-- All bits below `m` are there, and no others.
pub bits-lt : (n : ℕ) (has : ℕ → Bool) → bits n has < 2 ^ n
unfolding bits
bits-lt zero has = omega arith
bits-lt (suc n) has = omega (arith, digit-lt (has 0), bits-lt n (λ i. has (suc i)), pow-suc 2 n)

pub bits_none : (n : ℕ) (has : ℕ → Bool) → ((i : ℕ) → i < n → has i ≡ false) → bits n has ≡ 0
unfolding bits
bits_none zero has none = refl
bits_none (suc n) has none =
    let head : digit (has 0) ≡ 0 = ap digit (none 0 (omega arith)) in
    omega (arith, head, bits_none n (λ i. has (suc i)) (λ i h. none (suc i) (omega arith)))

pub bits_all :
    (n m : ℕ) (has : ℕ → Bool)
    → m ≤ n
    → ((i : ℕ) → i < m → has i ≡ true)
    → ((i : ℕ) → m ≤ i → i < n → has i ≡ false)
    → bits n has ≡ 2 ^ m - 1
unfolding bits
bits_all n zero has h all none = bits_none n has (λ i h. none i (omega arith) h)
bits_all zero (suc m) has h all none = absurd (omega arith)
bits_all (suc n) (suc m) has h all none =
    let head : digit (has 0) ≡ 1 = ap digit (all 0 (omega arith)) in
    let tail =
      bits_all n m (λ i. has (suc i)) (omega arith) (λ i h. all (suc i) (omega arith))
        (λ i h h'. none (suc i) (omega arith) (omega arith)) in
    omega (arith, head, tail, pow-suc 2 m, one-le-pow m 2 (omega arith))

digit_one : (b : Bool) → digit b ≡ 1 → b ≡ true
digit_one true e = refl
digit_one false e = absurd (omega arith)

pub all_bits :
    (n m : ℕ) (has : ℕ → Bool) → m ≤ n → bits n has ≡ 2 ^ m - 1 → (i : ℕ) → i < m → has i ≡ true
unfolding bits
all_bits n zero has h e i small = absurd (omega arith)
all_bits zero (suc m) has h e i small = absurd (omega arith)
all_bits (suc n) (suc m) has h e zero small =
    digit_one (has 0) (omega (arith, digit-lt (has 0), pow-suc 2 m, one-le-pow m 2 (omega arith)))
all_bits (suc n) (suc m) has h e (suc i) small =
    all_bits n m (λ i. has (suc i)) (omega arith)
      (omega (arith, digit-lt (has 0), pow-suc 2 m, one-le-pow m 2 (omega arith))) i (omega arith)
