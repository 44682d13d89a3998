-- ===== src/Base64/Alphabet.antt =====
-- The table `Base64[]` of fbase64.c against the search `strchr(Base64, ch)`.
use social_timeline.Common.{ℕ, ◌<◌, ◌≡◌, ◌≢◌, arith, false, ◌==◌, some}
use social_timeline.Base64.{symbol, position, is_space, pad}

-- Searching for the symbol of a six-bit value finds that value.
pub position-symbol : (v : ℕ) → v < 64 → position (symbol v) ≡ some v
unfolding symbol position
position-symbol v h = ground arith

-- A symbol is no NUL, no white space and no padding.
pub symbol_plain :
    (v : ℕ) → v < 64 → (symbol v ≢ 0) × (is_space (symbol v) ≡ false) × ((symbol v == pad) ≡ false)
unfolding symbol is_space
symbol_plain v h = (ground arith, ground arith, ground arith)

-- The symbols and the positions are inverse: a character that is found is its position's symbol.
pub symbol-position : (c v : ℕ) → position c ≡ some v → (symbol v ≡ c) × (v < 64)
unfolding symbol position
symbol-position c v h = (ground arith, ground arith)
