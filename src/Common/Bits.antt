-- ===== src/Common/Bits.antt =====
-- `&` and `|` as arithmetic: a mask of low bits is a remainder, and the `|` of disjoint fields is
-- their sum, at every width.
use Prim.Native.Nat.{ℕ, zero, suc, ◌+◌, ◌-◌, ◌*◌, ◌/◌, ◌%◌, ◌^◌, ◌≤◌, ◌<◌, min, max}
use Prim.Native.Nat.{bit_and, bit_or, digits, bitwise, bit_and-bitwise, bit_or-bitwise}
use mathlib.Core.Path.{◌≡◌, refl, ap, sym, ◌∙◌}
use mathlib.Core.Bool.{Bool, true, false}
use mathlib.Core.Logic.{ite}
use native.Mathlib.Decide.{ℕ_discrete}
use native.Mathlib.Nat.{le_refl, pow-suc, one-le-pow}
use native.Mathlib.Omega.{arith}

-- Both native operations are a recursion on binary digits with fuel; here the fuel is dropped.
module _ (z : ℕ → ℕ) (f : ℕ → ℕ → ℕ) where
  enough_fuel : (x y k l : ℕ) → x ≤ k → x ≤ l → digits z f k x y ≡ digits z f l x y
  enough_fuel (suc x) y zero l p q = absurd (omega arith)
  enough_fuel (suc x) y (suc k) zero p q = absurd (omega arith)
  enough_fuel (suc x) y (suc k) (suc l) p q =
      rw (enough_fuel (suc x / 2) (y / 2) k l (omega arith) (omega arith))
  enough_fuel zero y zero zero p q = refl
  enough_fuel zero y zero (suc l) p q = refl
  enough_fuel zero y (suc k) zero p q = refl
  enough_fuel zero y (suc k) (suc l) p q = refl

  lowest_digit :
      (x y : ℕ)
      → bitwise z f (suc x) y ≡ f (suc x % 2) (y % 2) + 2 * bitwise z f (suc x / 2) (y / 2)
  lowest_digit x y =
      omega (arith, enough_fuel (suc x / 2) (y / 2) x (suc x / 2) (omega arith) (le_refl _))

pub bit_or_digit : (x y : ℕ) → bit_or x y ≡ max (x % 2) (y % 2) + 2 * bit_or (x / 2) (y / 2)
bit_or_digit (suc x) y = simp bit_or-bitwise (lowest_digit (λ v. v) max x y)
bit_or_digit zero y = simp bit_or-bitwise (omega arith)

pub bit_and_digit : (x y : ℕ) → bit_and x y ≡ min (x % 2) (y % 2) + 2 * bit_and (x / 2) (y / 2)
bit_and_digit (suc x) y = simp bit_and-bitwise (lowest_digit (λ v. 0) min x y)
bit_and_digit zero y = simp bit_and-bitwise (omega arith)

-- No bit of 0 changes anything, by halves.
or_nothing : (bound x : ℕ) → x ≤ bound → bit_or x 0 ≡ x
or_nothing zero (suc x) h = absurd (omega arith)
or_nothing (suc bound) (suc x) h =
    omega (arith, bit_or_digit (suc x) 0, or_nothing bound (suc x / 2) (omega arith))
or_nothing bound zero h = refl

pub bit_or-zero : (a : ℕ) → bit_or a 0 ≡ a
bit_or-zero a = or_nothing a a (le_refl a)

pub zero-bit_or : (a : ℕ) → bit_or 0 a ≡ a
zero-bit_or a = bit_or-bitwise 0 a

and_nothing : (bound x : ℕ) → x ≤ bound → bit_and x 0 ≡ 0
and_nothing zero (suc x) h = absurd (omega arith)
and_nothing (suc bound) (suc x) h =
    omega (arith, bit_and_digit (suc x) 0, and_nothing bound (suc x / 2) (omega arith))
and_nothing bound zero h = refl

pub bit_and-zero : (a : ℕ) → bit_and a 0 ≡ 0
bit_and-zero a = and_nothing a a (le_refl a)

twice_power : (q k : ℕ) → q * 2 ^ suc k ≡ 2 * (q * 2 ^ k)
twice_power q k = omega (arith, ap (λ (t : ℕ). q * t) (pow-suc 2 k))

-- `low | (high << k)` is a sum when `low` fits `k` bits.
pub bit_or_disjoint :
    (k low high : ℕ) → low < 2 ^ k → bit_or low (high * 2 ^ k) ≡ low + high * 2 ^ k
bit_or_disjoint zero low high h =
    let e : low ≡ 0 = omega arith in rw e (omega (arith, zero-bit_or (high * 2 ^ 0)))
bit_or_disjoint (suc k) low high h =
    let halves : bit_or (low / 2) (high * 2 ^ suc k / 2) ≡ low / 2 + high * 2 ^ k =
      ap (λ (t : ℕ). bit_or (low / 2) t) (omega (arith, twice_power high k))
      ∙ bit_or_disjoint k (low / 2) high (omega (arith, pow-suc 2 k)) in
    omega (arith, bit_or_digit low (high * 2 ^ suc k), twice_power high k, pow-suc 2 k, halves)

bit_or_comm_fuel : (n a b : ℕ) → a ≤ n → b ≤ n → bit_or a b ≡ bit_or b a
bit_or_comm_fuel n zero b p q = zero-bit_or b ∙ sym (bit_or-zero b)
bit_or_comm_fuel zero (suc a) b p q = absurd (omega arith)
bit_or_comm_fuel (suc n) (suc a) b p q = omega (
  arith,
  bit_or_digit (suc a) b,
  bit_or_digit b (suc a),
  bit_or_comm_fuel n (suc a / 2) (b / 2) (omega arith) (omega arith),
)

pub bit_or_comm : (a b : ℕ) → bit_or a b ≡ bit_or b a
bit_or_comm a b = bit_or_comm_fuel (a + b) a b (omega arith) (omega arith)

-- The same with the field that is shifted first.
pub bit_or_shifted : (k high low : ℕ) → low < 2 ^ k → bit_or (high * 2 ^ k) low ≡ high * 2 ^ k + low
bit_or_shifted k high low h =
    omega (arith, bit_or_comm (high * 2 ^ k) low, bit_or_disjoint k low high h)

-- No bit is set that neither side has.
pub bit_or-lt-pow : (k a b : ℕ) → a < 2 ^ k → b < 2 ^ k → bit_or a b < 2 ^ k
bit_or-lt-pow zero a b p q =
    let e : a ≡ 0 = omega arith in let f : b ≡ 0 = omega arith in rw (e, f) (omega arith)
bit_or-lt-pow (suc k) a b p q = omega (
  arith,
  pow-suc 2 k,
  bit_or_digit a b,
  bit_or-lt-pow k (a / 2) (b / 2) (omega (arith, pow-suc 2 k)) (omega (arith, pow-suc 2 k)),
)

bit_and_split : (k q r : ℕ) → r < 2 ^ k → bit_and (q * 2 ^ k + r) (2 ^ k - 1) ≡ r
bit_and_split zero q r fits = rw bit_and-zero (omega arith)
bit_and_split (suc k) q r fits = ground (
  arith,
  bit_and_digit (q * 2 ^ suc k + r) (2 ^ suc k - 1),
  twice_power q k,
  pow-suc 2 k,
  bit_and_split k q (r / 2) (omega arith),
)

-- A mask of `k` low bits is the remainder by `2 ^ k`.
pub bit_and_mask : (k a : ℕ) → bit_and a (2 ^ k - 1) ≡ a % 2 ^ k
bit_and_mask k a = ground (arith, one-le-pow k 2, bit_and_split k (a / 2 ^ k) (a % 2 ^ k))

-- Over a small range two functions are compared value by value.
module _ (f g : ℕ → ℕ) where
  agree_below : ℕ → Bool
  unfolding ℕ_discrete
  agree_below zero = true
  agree_below (suc n) = ite (ℕ_discrete (f n) (g n)) (agree_below n) false

  agree_below→eq : (n : ℕ) → agree_below n ≡ true → (i : ℕ) → i < n → f i ≡ g i
  unfolding agree_below
  agree_below→eq zero e i h = absurd (omega arith)
  agree_below→eq (suc n) e i h = ground (arith, agree_below→eq n (ground arith) i)

pub bit_and_top : (b : ℕ) → b < 256 → bit_and b 0x80 ≡ b / 128 * 128
unfolding agree_below
bit_and_top = agree_below→eq _ _ 256 refl

pub bit_and_0x70 : (b : ℕ) → b < 256 → bit_and b 0x70 ≡ b / 16 % 8 * 16
unfolding agree_below
bit_and_0x70 = agree_below→eq _ _ 256 refl

pub bit_or_top : (b : ℕ) → b < 128 → bit_or b 0x80 ≡ b + 128
bit_or_top b h = bit_or_disjoint 7 b 1 h
