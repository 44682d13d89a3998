-- ===== src/Base64/Encode.antt =====
-- What `f_b64_ntop` of fbase64.c writes.
use social_timeline.Common.{ℕ, ◌+◌, ◌*◌, ◌/◌, ◌%◌, ◌^◌, ◌≤◌, ◌<◌, ◌≡◌, refl, arith}
use social_timeline.Common.{
  false, List, [], ◌∷◌, ◌++◌, length, length-append, append_assoc, append-nil,
}
use social_timeline.Common.{All, IsByte, u32, u64, ltb}
use social_timeline.Common.Bits.{bit_and_mask}
use social_timeline.Base64.{symbol, pad, minus_one, group, last_group}
use social_timeline.Base64.{ntop_finish, ntop_loop, f_b64_ntop}

-- The text of RFC 4648: three bytes are a number of 24 bits, written as four digits to the base 64;
-- a rest of one or two bytes is filled with zero bits, and its missing digits are pads.
unfoldable pub encoding : List ℕ → List ℕ
encoding (a ∷ b ∷ c ∷ src) =
    let n = (a * 256 + b) * 256 + c in
    symbol (n / 64 ^ 3)
    ∷ symbol (n / 64 ^ 2 % 64)
    ∷ symbol (n / 64 % 64)
    ∷ symbol (n % 64)
    ∷ encoding src
encoding [] = []
encoding (a ∷ []) =
    let n = a * 256 * 256 in symbol (n / 64 ^ 3) ∷ symbol (n / 64 ^ 2 % 64) ∷ pad ∷ pad ∷ []
encoding (a ∷ b ∷ []) =
    let n = (a * 256 + b) * 256 in
    symbol (n / 64 ^ 3) ∷ symbol (n / 64 ^ 2 % 64) ∷ symbol (n / 64 % 64) ∷ pad ∷ []

pub six_bits :
    (a b c : ℕ)
    → a < 256
    → b < 256
    → c < 256
    → let n = (a * 256 + b) * 256 + c in
      (n / 64 ^ 3 ≡ a / 4)
      × (n / 64 ^ 2 % 64 ≡ a % 4 * 16 + b / 16)
      × (n / 64 % 64 ≡ b % 16 * 4 + c / 64)
      × (n % 64 ≡ c % 64)
six_bits a b c p q r = omega arith

-- The shifts and masks of the C code take the same digits.
group-encoding :
    (a b c : ℕ) (src : List ℕ)
    → a < 256
    → b < 256
    → c < 256
    → encoding (a ∷ b ∷ c ∷ src) ≡ group a b c ++ encoding src
unfolding encoding group
group-encoding a b c src p q r =
    let (e0, e1, e2, e3) = six_bits a b c p q r in
    rw (e0, e1, e2, e3, bit_and_mask 2 a, bit_and_mask 4 b, bit_and_mask 6 c)

last_group-encoding_one : (a : ℕ) → a < 256 → encoding (a ∷ []) ≡ last_group (a ∷ [])
unfolding encoding last_group
last_group-encoding_one a p = ground (arith, bit_and_mask 2 a)

last_group-encoding_two :
    (a b : ℕ) → a < 256 → b < 256 → encoding (a ∷ b ∷ []) ≡ last_group (a ∷ b ∷ [])
unfolding encoding last_group
last_group-encoding_two a b p q = ground (arith, bit_and_mask 2 a, bit_and_mask 4 b)

-- The room that the text and its NUL need.
pub length-encoding : (src : List ℕ) → length (encoding src) ≡ (length src + 2) / 3 * 4
unfolding encoding
length-encoding [] = refl
length-encoding (a ∷ []) = refl
length-encoding (a ∷ b ∷ []) = refl
length-encoding (a ∷ b ∷ c ∷ src) = omega (arith, length-encoding src)

length-group : (a b c : ℕ) → length (group a b c) ≡ 4
unfolding group
length-group a b c = refl

length-last_group_one : (a : ℕ) → length (last_group (a ∷ [])) ≡ 4
unfolding last_group
length-last_group_one a = refl

length-last_group_two : (a b : ℕ) → length (last_group (a ∷ b ∷ [])) ≡ 4
unfolding last_group
length-last_group_two a b = refl

ntop_finish_fits :
    (out : List ℕ) (targsize : ℕ)
    → length out < targsize
    → ntop_finish out targsize ≡ record { target = out ++ (0 ∷ []); value = u32 (length out) }
unfolding ntop_finish
ntop_finish_fits out targsize h = ground arith

-- The test in front of each group passes when four more characters fit.
room_left :
    (n targsize : ℕ) → n + 4 ≤ targsize → targsize < 2 ^ 64 → ltb targsize (u64 (n + 4)) ≡ false
room_left n targsize h small = ground arith

ntop_loop_fits :
    (src out : List ℕ) (targsize : ℕ)
    → All IsByte src
    → length out + length (encoding src) < targsize
    → targsize < 2 ^ 64
    → ntop_loop src out targsize ≡ record {
      target = (out ++ encoding src) ++ (0 ∷ []);
      value = u32 (length (out ++ encoding src));
    }
unfolding ntop_loop
ntop_loop_fits [] out targsize bytes h small =
    unfold encoding in rw (append-nil out) (ntop_finish_fits out targsize (omega arith))
ntop_loop_fits (a ∷ []) out targsize (p, _) h small =
    rw
      (
        room_left (length out) targsize (omega (arith, length-encoding (a ∷ []))) small,
        ← last_group-encoding_one a p,
      )
      (ntop_finish_fits (out ++ encoding (a ∷ [])) targsize
        (omega (arith, length-append out (encoding (a ∷ [])))))
ntop_loop_fits (a ∷ b ∷ []) out targsize (p, (q, _)) h small =
    rw
      (
        room_left (length out) targsize (omega (arith, length-encoding (a ∷ b ∷ []))) small,
        ← last_group-encoding_two a b p q,
      )
      (ntop_finish_fits (out ++ encoding (a ∷ b ∷ [])) targsize
        (omega (arith, length-append out (encoding (a ∷ b ∷ [])))))
ntop_loop_fits (a ∷ b ∷ c ∷ src) out targsize (p, (q, (r, bytes))) h small =
    rw
      (
        room_left (length out) targsize (omega (arith, length-encoding (a ∷ b ∷ c ∷ src))) small,
        group-encoding a b c src p q r,
        ← append_assoc out (group a b c) (encoding src),
      )
      (ntop_loop_fits src (out ++ group a b c) targsize bytes
        (omega (
          arith,
          length-append out (group a b c),
          length-group a b c,
          length-encoding src,
          length-encoding (a ∷ b ∷ c ∷ src),
        ))
        small)

-- `f_b64_ntop` writes the RFC 4648 text of the bytes and a NUL, and returns the text's length,
-- whenever the target has room for all of that.
pub ntop-encoding :
    (src : List ℕ) (targsize : ℕ)
    → All IsByte src
    → length (encoding src) < targsize
    → targsize < 2 ^ 64
    → f_b64_ntop src targsize
      ≡ record { target = encoding src ++ (0 ∷ []); value = u32 (length (encoding src)) }
unfolding f_b64_ntop
ntop-encoding src targsize bytes h small = ntop_loop_fits src [] targsize bytes (omega arith) small

ntop_loop_full :
    (src out : List ℕ) (targsize : ℕ)
    → length out ≤ targsize
    → targsize ≤ length out + length (encoding src)
    → targsize + 4 < 2 ^ 64
    → ((ntop_loop src out targsize).value ≡ minus_one)
      × (length (ntop_loop src out targsize).target ≤ targsize)
unfolding ntop_loop ntop_finish
ntop_loop_full [] out targsize le h small = ground (arith, length-encoding [])
ntop_loop_full (a ∷ []) out targsize le h small = ground (
  arith,
  length-encoding (a ∷ []),
  length-append out (last_group (a ∷ [])),
  length-last_group_one a,
)
ntop_loop_full (a ∷ b ∷ []) out targsize le h small = ground (
  arith,
  length-encoding (a ∷ b ∷ []),
  length-append out (last_group (a ∷ b ∷ [])),
  length-last_group_two a b,
)
ntop_loop_full (a ∷ b ∷ c ∷ src) out targsize le h small = ground (
  arith,
  length-encoding (a ∷ b ∷ c ∷ src),
  length-encoding src,
  length-append out (group a b c),
  length-group a b c,
  ntop_loop_full src (out ++ group a b c) targsize,
)

-- Without that room it returns -1, and writes nothing behind the target's end.
pub ntop_full :
    (src : List ℕ) (targsize : ℕ)
    → targsize ≤ length (encoding src)
    → targsize + 4 < 2 ^ 64
    → ((f_b64_ntop src targsize).value ≡ minus_one)
      × (length (f_b64_ntop src targsize).target ≤ targsize)
unfolding f_b64_ntop
ntop_full src targsize h small = ntop_loop_full src [] targsize (omega arith) (omega arith) small
