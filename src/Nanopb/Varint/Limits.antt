-- ===== src/Nanopb/Varint/Limits.antt =====
-- `pb_decode_varint` and `pb_skip_varint` of pb_decode.c on any stream, well formed or not.
use social_timeline.Common.{ℕ, zero, suc, ◌+◌, ◌-◌, ◌*◌, ◌^◌, ◌≤◌, ◌<◌, ◌≡◌, arith}
use social_timeline.Common.{
  true, false, List, [], ◌∷◌, u64, u8, leb, if◌then◌else◌, ◌==◌, bit_and, bit_or, Bool-cases, inl,
  inr, if-cases,
}
use social_timeline.Common.Bits.{bit_or-lt-pow}
use social_timeline.Nanopb.Outcome.{Outcome, ok, fail, bind}
use social_timeline.Nanopb.Istream
use social_timeline.Nanopb.Istream.{
  Istream, Input, buffer, custom, ReadResult, read_ok, read_fail, call_read, after_read,
  pb_readbyte,
}
use native.Mathlib.Nat.{le_refl}
use social_timeline.Nanopb.Varint.{varint_loop, pb_decode_varint}

-- A byte that is read is taken off `bytes_left`; a failure never adds to it.
abbrev TookOne : {S : Type 0} → ℕ → Outcome (Istream S) ℕ → Type 0
TookOne n (ok b s) = s.bytes_left + 1 ≡ n
TookOne n (fail s) = s.bytes_left ≤ n

abbrev Took : {S : Type 0} → ℕ → Outcome (Istream S) (List ℕ) → Type 0
Took n (ok bytes s) = s.bytes_left + 1 ≡ n
Took n (fail s) = s.bytes_left ≤ n

module _ {S : Type 0} where
  after_read-Took :
      (f : S → ℕ → ReadResult S) (s : Istream S) (r : ReadResult S)
      → 0 < s.bytes_left
      → Took s.bytes_left (after_read f 1 s r)
  unfolding after_read
  after_read-Took f s (read_ok bytes state) h = omega arith
  after_read-Took f s (read_fail true state) h = omega arith
  after_read-Took f s (read_fail false state) h = omega arith

  call_read-Took :
      (i : Input S) (s : Istream S) → 0 < s.bytes_left → Took s.bytes_left (call_read i 1 s)
  unfolding call_read
  call_read-Took (buffer l) s h = omega arith
  call_read-Took (custom f state) s h = after_read-Took f s (f state 1) h

  first_byte-TookOne :
      (n : ℕ) (o : Outcome (Istream S) (List ℕ)) → Took n o → TookOne n (bind o Istream.first_byte)
  unfolding Istream.return_error
  first_byte-TookOne n (ok [] s) h = omega arith
  first_byte-TookOne n (ok (b ∷ bytes) s) h = h
  first_byte-TookOne n (fail s) h = h

  pub pb_readbyte-TookOne : (s : Istream S) → TookOne s.bytes_left (pb_readbyte s)
  unfolding pb_readbyte
  pb_readbyte-TookOne s = elim (Bool-cases (s.bytes_left == 0)) [
    | inl e ↦ rw e (le_refl s.bytes_left)
    | inr e ↦ rw e (
        first_byte-TookOne s.bytes_left (call_read s.input 1 s)
          (call_read-Took s.input s (ground arith)))
  ]

-- A value of 64 bits from at most `rounds` bytes, or a failure that adds nothing to `bytes_left`.
abbrev pub Within : {S : Type 0} → ℕ → ℕ → Outcome (Istream S) ℕ → Type 0
Within rounds n (ok v s) = (v < 2 ^ 64) × (s.bytes_left < n) × (n ≤ s.bytes_left + rounds)
Within rounds n (fail s) = s.bytes_left ≤ n

module _ {S : Type 0} where
  -- A round, with the loop behind it.
  round-Within :
      (n j acc : ℕ) (o : Outcome (Istream S) ℕ) (again : ℕ → Istream S → Outcome (Istream S) ℕ)
      → acc < 2 ^ 64
      → j ≤ 9
      → TookOne n o
      → ((r : ℕ) (s : Istream S) → r < 2 ^ 64 → Within (9 - j) s.bytes_left (again r s))
      → Within (10 - j) n (
          bind o λ byte s.
            let result = bit_or acc (u64 (bit_and byte 0x7f * 2 ^ (7 * j))) in
            if bit_and byte 0x80 == 0 then ok result s else again result s)
  round-Within n j acc (fail s) again ha hj took ih = took
  round-Within n j acc (ok byte s) again ha hj took ih =
      let r = bit_or acc (u64 (bit_and byte 0x7f * 2 ^ (7 * j))) in
      let small : r < 2 ^ 64 = bit_or-lt-pow 64 acc _ ha (omega arith) in
      if-cases (λ o. Within (10 - j) n o) (bit_and byte 0x80 == 0) _ _
        (small, omega arith, omega arith) (weaken (again r s) (ih r s small))
    where
      weaken : (o : Outcome (Istream S) ℕ) → Within (9 - j) s.bytes_left o → Within (10 - j) n o
      weaken (ok v s') (a, b, c) = (a, omega arith, omega arith)
      weaken (fail s') a = omega arith

  varint_loop-Within :
      (fuel j acc : ℕ) (s : Istream S)
      → acc < 2 ^ 64
      → j ≤ 10
      → Within (10 - j) s.bytes_left (varint_loop fuel (7 * j) acc s)
  unfolding varint_loop
  varint_loop-Within zero j acc s ha hj = unfold Istream.return_error in le_refl s.bytes_left
  varint_loop-Within (suc fuel) j acc s ha hj = elim (Bool-cases (leb 64 (7 * j))) [
    | inl over ↦ rw over (unfold Istream.return_error in le_refl s.bytes_left)
    | inr under ↦
        let bound : j ≤ 9 = ground arith in
        let bitpos : u8 (7 * j + 7) ≡ 7 * suc j = omega arith in
        let rounds : 9 - j ≡ 10 - suc j = omega arith in
        rw under (
          round-Within s.bytes_left j acc (pb_readbyte s)
            (λ r s'. varint_loop fuel (u8 (7 * j + 7)) r s') ha bound (pb_readbyte-TookOne s)
            (λ r s' hr.
              rw (bitpos, rounds) (varint_loop-Within fuel (suc j) r s' hr (omega arith))))
  ]

  -- On every stream, `pb_decode_varint` answers with a 64-bit value taken from one to ten bytes, or
  -- fails without adding to `bytes_left`.
  pub pb_decode_varint-Within : (s : Istream S) → Within 10 s.bytes_left (pb_decode_varint s)
  unfolding pb_decode_varint
  pb_decode_varint-Within s = varint_loop-Within 11 0 0 s (omega arith) (omega arith)
