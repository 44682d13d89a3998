-- ===== src/Nanopb/Decode/Required.antt =====
-- `fields_seen` of `pb_decode_noinit` in pb_decode.c: one bit of two words of 32 bits for each required
-- field, and the check that all bits are set.
pub mod Seen
use social_timeline.Common.{
  ℕ, zero, suc, ◌-◌, ◌/◌, ◌^◌, Bool, true, false, ◌||◌, ◌&&◌, bit_and, bit_or, ◌==◌, if◌then◌else◌,
  ◌<<<◌, ◌>>>◌, u32,
}

-- The words by their index.
abbrev pub FieldsSeen : Type 0
FieldsSeen = ℕ → ℕ

abbrev pub none_seen : FieldsSeen
none_seen i = 0

abbrev pub allbits : ℕ
allbits = 2 ^ 32 - 1

unfoldable pub mark_seen : ℕ → FieldsSeen → FieldsSeen
mark_seen index seen i =
    if i == index >>> 5 then bit_or (seen i) (u32 (1 <<< bit_and index 31)) else seen i

-- The loop over the first words.
unfoldable pub whole_words : ℕ → FieldsSeen → Bool
whole_words zero seen = true
whole_words (suc n) seen = whole_words n seen && (seen n == allbits)

-- The checks behind `req_field_count`.
unfoldable pub all_seen : ℕ → FieldsSeen → Bool
unfolding whole_words
all_seen count seen =
    whole_words (count >>> 5) seen
    && ((bit_and count 31 == 0) || (seen (count >>> 5) == allbits >>> (32 - bit_and count 31)))
