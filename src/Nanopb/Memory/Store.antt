-- ===== src/Nanopb/Memory/Store.antt =====
-- Reading back what has been written to the memory.
use social_timeline.Common.{
  ℕ, zero, suc, ◌+◌, ◌*◌, ◌/◌, ◌%◌, ◌^◌, ◌≤◌, ◌<◌, ◌≡◌, refl, arith, ◌∙◌, ap, ◌==◌, List, [], ◌∷◌,
  length,
}
use social_timeline.Common.{◌⊎◌, inl, true, false}
use native.Mathlib.Nat.{pow-suc}
use social_timeline.Nanopb.Memory.{Memory, load, store, store_byte, store_bytes, bytes_at}

-- Other addresses keep their bytes.
pub store_other :
    (m : Memory) (size address v a : ℕ)
    → (a < address) ⊎ (address + size ≤ a)
    → store m size address v a ≡ m a
unfolding store
store_other m zero address v a outside = refl
store_other m (suc size) address v a outside =
    let apart : (a == address) ≡ false = ground arith in
    store_other (store_byte m address (v % 256)) size (suc address) (v / 256) a (ground arith)
    ∙ rw apart

-- A read gives the bytes of the value that have room, `low`.
pub load-store :
    (m : Memory) (size address low high : ℕ)
    → low < 256 ^ size
    → load (store m size address (low + high * 256 ^ size)) size address ≡ low
unfolding store load
load-store m zero address low high h = omega arith
load-store m (suc size) address low high h =
    let v = low + high * 256 ^ suc size in
    let m' = store_byte m address (v % 256) in
    let power : high * 256 ^ suc size ≡ 256 * (high * 256 ^ size) =
      omega (arith, ap (λ (t : ℕ). high * t) (pow-suc 256 size)) in
    let upper : v / 256 ≡ low / 256 + high * 256 ^ size = omega (arith, power) in
    let here : (address == address) ≡ true = ground arith in
    let first : store m' size (suc address) (v / 256) address ≡ v % 256 =
      store_other m' size (suc address) (v / 256) address (inl (omega arith)) ∙ rw here in
    rw first (
      ap (λ (t : ℕ). v % 256 + 256 * load (store m' size (suc address) t) size (suc address)) upper
      ∙ ap (λ (t : ℕ). v % 256 + 256 * t)
          (load-store m' size (suc address) (low / 256) high (omega (arith, pow-suc 256 size)))
      ∙ omega (arith, power))

pub load-unsigned :
    (m : Memory) (size dest v : ℕ) → v < 256 ^ size → load (store m size dest v) size dest ≡ v
load-unsigned m size dest v h =
    ap (λ (w : ℕ). load (store m size dest w) size dest)
      (let e : v ≡ v + 0 * 256 ^ size = omega arith in e)
    ∙ load-store m size dest v 0 h

-- A value elsewhere is what it was.
pub load-store_apart :
    (m : Memory) (size address v count p : ℕ)
    → (p + count ≤ address) ⊎ (address + size ≤ p)
    → load (store m size address v) count p ≡ load m count p
unfolding load
load-store_apart m size address v zero p apart = refl
load-store_apart m size address v (suc count) p apart = rw (
  store_other m size address v p (ground arith),
  load-store_apart m size address v count (suc p) (ground arith),
)

-- Bytes are written from an address on, and other addresses keep theirs.
pub store_bytes_other :
    (m : Memory) (address : ℕ) (bytes : List ℕ) (a : ℕ)
    → (a < address) ⊎ (address + length bytes ≤ a)
    → store_bytes m address bytes a ≡ m a
unfolding store_bytes
store_bytes_other m address [] a outside = refl
store_bytes_other m address (b ∷ bytes) a outside =
    let apart : (a == address) ≡ false = ground arith in
    store_bytes_other (store_byte m address b) (suc address) bytes a (ground arith) ∙ rw apart

pub bytes_at-cong :
    (m m' : Memory) (count p : ℕ)
    → ((a : ℕ) → p ≤ a → a < p + count → m a ≡ m' a)
    → bytes_at m count p ≡ bytes_at m' count p
unfolding bytes_at
bytes_at-cong m m' zero p same = refl
bytes_at-cong m m' (suc count) p same = rw (
  same p (omega arith) (omega arith),
  bytes_at-cong m m' count (suc p) (λ a low high. same a (omega arith) (omega arith)),
)

pub bytes_at-store_bytes :
    (m : Memory) (address : ℕ) (bytes : List ℕ)
    → bytes_at (store_bytes m address bytes) (length bytes) address ≡ bytes
unfolding bytes_at store_bytes
bytes_at-store_bytes m address [] = refl
bytes_at-store_bytes m address (b ∷ bytes) =
    let here : (address == address) ≡ true = ground arith in
    let first : store_bytes (store_byte m address b) (suc address) bytes address ≡ b =
      store_bytes_other (store_byte m address b) (suc address) bytes address (inl (omega arith))
      ∙ rw here in
    rw (first, bytes_at-store_bytes (store_byte m address b) (suc address) bytes)
