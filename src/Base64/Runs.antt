-- ===== src/Base64/Runs.antt =====
-- Runs of `f_b64_ntop` and `f_b64_pton`, and the theorems at concrete inputs.
use social_timeline.Common.{
  ℕ, ◌+◌, ◌≡◌, ◌≢◌, ◌≤◌, refl, arith, List, [], ◌∷◌, ◌++◌, some, none, All, IsByte, length, drop,
  u32,
}
use social_timeline.Base64.Encode.{encoding, length-encoding, ntop-encoding, ntop_full}
use social_timeline.Base64.Decode.{pton_inside}
use social_timeline.Base64.Count.{pton_count}
use social_timeline.Base64.RoundTrip.{pton-ntop}
use social_timeline.Base64.{
  f_b64_ntop, f_b64_pton, group, last_group, ntop_finish, is_space, position, put_symbol,
  after_symbol, at_pad, at_end, minus_one,
}

ntop_hi :
    f_b64_ntop (b'h' ∷ b'i' ∷ []) 5
    ≡ record { target = b'a' ∷ b'G' ∷ b'k' ∷ b'=' ∷ 0 ∷ []; value = 4 }
unfolding f_b64_ntop group last_group ntop_finish
ntop_hi = refl

ntop_short : (f_b64_ntop (b'h' ∷ b'i' ∷ []) 4).value ≡ minus_one
unfolding f_b64_ntop group last_group ntop_finish
ntop_short = refl

pton_hi :
    f_b64_pton (b'a' ∷ 32 ∷ b'G' ∷ b'k' ∷ b'=' ∷ 0 ∷ []) (some (0 ∷ 0 ∷ 0 ∷ [])) 3
    ≡ record { target = b'h' ∷ b'i' ∷ 0 ∷ []; value = 2 }
unfolding f_b64_pton is_space position put_symbol after_symbol at_pad at_end
pton_hi = refl

abbrev hi : List ℕ
hi = b'h' ∷ b'i' ∷ []

abbrev room_for_three : List ℕ
room_for_three = 7 ∷ 7 ∷ 7 ∷ []

hi-IsByte : All IsByte hi
hi-IsByte = (omega arith, (omega arith, tt))

pton-ntop_example :
    (r : List ℕ) × (f_b64_pton (f_b64_ntop hi 5).target (some room_for_three) 3
      ≡ record { target = hi ++ r; value = length hi })
    × (length hi + length r ≡ length room_for_three)
pton-ntop_example =
    pton-ntop hi room_for_three 5 3 hi-IsByte (omega (arith, length-encoding hi)) (omega arith)
      (omega arith) (omega arith) (omega arith)

ntop-encoding_example :
    f_b64_ntop hi 5
    ≡ record { target = encoding hi ++ (0 ∷ []); value = u32 (length (encoding hi)) }
ntop-encoding_example =
    ntop-encoding hi 5 hi-IsByte (omega (arith, length-encoding hi)) (omega arith)

ntop_full_example : ((f_b64_ntop hi 4).value ≡ minus_one) × (length (f_b64_ntop hi 4).target ≤ 4)
ntop_full_example = ntop_full hi 4 (omega (arith, length-encoding hi)) (omega arith)

-- A target of one byte is too small for this text.
pton_inside_example :
    drop 1 (f_b64_pton (b'a' ∷ b'G' ∷ b'k' ∷ b'=' ∷ []) (some room_for_three) 1).target
    ≡ drop 1 room_for_three
pton_inside_example = pton_inside (b'a' ∷ b'G' ∷ b'k' ∷ b'=' ∷ []) room_for_three 1 (omega arith)

hi_decodes : (f_b64_pton (b'a' ∷ b'G' ∷ b'k' ∷ b'=' ∷ []) (some room_for_three) 3).value ≢ minus_one
unfolding f_b64_pton is_space position put_symbol after_symbol at_pad at_end
hi_decodes e = omega (arith, e)

pton_count_example :
    (f_b64_pton (b'a' ∷ b'G' ∷ b'k' ∷ b'=' ∷ []) none 0).value
    ≡ (f_b64_pton (b'a' ∷ b'G' ∷ b'k' ∷ b'=' ∷ []) (some room_for_three) 3).value
pton_count_example = pton_count (b'a' ∷ b'G' ∷ b'k' ∷ b'=' ∷ []) room_for_three 3 0 hi_decodes
