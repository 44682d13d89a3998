-- ===== src/Base64/Groups.antt =====
-- The loop of `f_b64_pton` over whole groups and padded ones (fbase64.c).
use social_timeline.Common.{
  ℕ, zero, suc, ◌+◌, ◌*◌, ◌/◌, ◌%◌, ◌^◌, ◌≤◌, ◌<◌, ◌≡◌, ◌≢◌, refl, arith, ◌∙◌,
}
use social_timeline.Common.{false, some, List, [], ◌∷◌, ◌++◌, length, length-append, append_assoc}
use social_timeline.Common.{
  u8, u32, ◌==◌, set-append, set-append_next, get_or-append, lt→leb, bit_or, bit_and,
}
use social_timeline.Common.Bits.{bit_and_mask, bit_or_shifted}
use social_timeline.Base64.{
  symbol, pad, is_space, position, State, state_0, state_1, state_2, state_3, Decoder,
}
use social_timeline.Base64.{put_symbol, after_symbol, pton_loop, at_pad, finish_padded, second_pad}
use social_timeline.Base64.Alphabet.{position-symbol, symbol_plain}

-- The loop takes a symbol by one `switch`.
pub pton_loop_plain :
    (c v : ℕ) (cs : List ℕ) (d d' : Decoder) (targsize : ℕ)
    → c ≢ 0
    → is_space c ≡ false
    → (c == pad) ≡ false
    → position c ≡ some v
    → put_symbol d.state d.target d.tarindex targsize v ≡ some d'
    → pton_loop (c ∷ cs) d targsize ≡ pton_loop cs d' targsize
unfolding pton_loop after_symbol
pton_loop_plain zero v cs d d' targsize ne sp pd po st = absurd (ne refl)
pton_loop_plain (suc c) v cs d d' targsize ne sp pd po st = rw (sp, pd, po, st, after_symbol)

pub pton_loop-symbol :
    (v : ℕ) (cs : List ℕ) (d d' : Decoder) (targsize : ℕ)
    → v < 64
    → put_symbol d.state d.target d.tarindex targsize v ≡ some d'
    → pton_loop (symbol v ∷ cs) d targsize ≡ pton_loop cs d' targsize
pton_loop-symbol v cs d d' targsize h st =
    let (ne, sp, pd) = symbol_plain v h in
    pton_loop_plain (symbol v) v cs d d' targsize ne sp pd (position-symbol v h) st

-- Where the decoder stands: `done` is what it has written, `rest` the target behind it.
abbrev pub at : List ℕ → List ℕ → State → Decoder
at done rest s = record { target = some (done ++ rest); tarindex = length done; state = s }

pub length-snoc : (done : List ℕ) (x : ℕ) → length (done ++ (x ∷ [])) ≡ length done + 1
length-snoc done x = omega (arith, length-append done (x ∷ []))

module _ (done : List ℕ) (targsize : ℕ) (small : length done + 1 < 2 ^ 32) where
  next_index : u32 (length done + 1) ≡ length done + 1
  next_index = omega arith

  pub put_first :
      (x v : ℕ) (rest : List ℕ)
      → v < 64
      → length done < targsize
      → put_symbol state_0 (some (done ++ (x ∷ rest))) (length done) targsize v
        ≡ some (at done ((v * 4) ∷ rest) state_1)
  unfolding put_symbol
  put_first x v rest hv h =
      let fits : u8 (v * 4) ≡ v * 4 = omega arith in
      rw (set-append, lt→leb targsize (length done) h, fits)

  pub put_second :
      (q v x a r : ℕ) (rest : List ℕ)
      → v < 64
      → q < 64
      → length done + 1 < targsize
      → q * 4 + v / 16 ≡ a
      → v % 16 ≡ r
      → put_symbol state_1 (some (done ++ ((q * 4) ∷ x ∷ rest))) (length done) targsize v
        ≡ some (at (done ++ (a ∷ [])) ((r * 16) ∷ rest) state_2)
  unfolding put_symbol
  put_second q v x a r rest hv hq h ea er =
      let high : u8 (bit_or (q * 4) (v / 16)) ≡ a =
        omega (arith, bit_or_shifted 2 q (v / 16) (omega arith)) in
      let low : u8 (bit_and v 0x0f * 16) ≡ r * 16 = omega (arith, bit_and_mask 4 v) in
      rw (
        set-append,
        get_or-append,
        next_index,
        lt→leb targsize (length done + 1) h,
        set-append_next,
        high,
        low,
        length-snoc,
      )

  pub put_third :
      (q v x a r : ℕ) (rest : List ℕ)
      → v < 64
      → q < 16
      → length done + 1 < targsize
      → q * 16 + v / 4 ≡ a
      → v % 4 ≡ r
      → put_symbol state_2 (some (done ++ ((q * 16) ∷ x ∷ rest))) (length done) targsize v
        ≡ some (at (done ++ (a ∷ [])) ((r * 64) ∷ rest) state_3)
  unfolding put_symbol
  put_third q v x a r rest hv hq h ea er =
      let high : u8 (bit_or (q * 16) (v / 4)) ≡ a =
        omega (arith, bit_or_shifted 4 q (v / 4) (omega arith)) in
      let low : u8 (bit_and v 0x03 * 64) ≡ r * 64 = omega (arith, bit_and_mask 2 v) in
      rw (
        set-append,
        get_or-append,
        next_index,
        lt→leb targsize (length done + 1) h,
        set-append_next,
        high,
        low,
        length-snoc,
      )

  pub put_fourth :
      (q v a : ℕ) (rest : List ℕ)
      → v < 64
      → q < 4
      → length done < targsize
      → q * 64 + v ≡ a
      → put_symbol state_3 (some (done ++ ((q * 64) ∷ rest))) (length done) targsize v
        ≡ some (at (done ++ (a ∷ [])) rest state_0)
  unfolding put_symbol
  put_fourth q v a rest hv hq h ea =
      let whole : u8 (bit_or (q * 64) v) ≡ a = omega (arith, bit_or_shifted 6 q v (omega arith)) in
      rw (
        set-append,
        get_or-append,
        next_index,
        lt→leb targsize (length done) h,
        whole,
        length-snoc,
        append_assoc,
      )

-- Behind a whole group the decoder stands three bytes further, in its first state.
pub pton_loop-group :
    (a b c x y z targsize : ℕ) (done rest cs : List ℕ)
    → a < 256
    → b < 256
    → c < 256
    → length done + 3 ≤ targsize
    → targsize < 2 ^ 32
    → pton_loop
        (symbol (a / 4)
          ∷ symbol (a % 4 * 16 + b / 16)
          ∷ symbol (b % 16 * 4 + c / 64)
          ∷ symbol (c % 64)
          ∷ cs)
        (at done (x ∷ y ∷ z ∷ rest) state_0)
        targsize
      ≡ pton_loop cs (at (((done ++ (a ∷ [])) ++ (b ∷ [])) ++ (c ∷ [])) rest state_0) targsize
pton_loop-group a b c x y z targsize done rest cs p q r h small =
    let v1 = a % 4 * 16 + b / 16 in
    let v2 = b % 16 * 4 + c / 64 in
    let done_1 = done ++ (a ∷ []) in
    let done_2 = done_1 ++ (b ∷ []) in
    let n_1 = length-snoc done a in
    let n_2 = length-snoc done_1 b in
    pton_loop-symbol (a / 4) _ _ _ targsize (omega arith)
      (put_first done targsize (omega arith) x (a / 4) (y ∷ z ∷ rest) (omega arith) (omega arith))
    ∙ pton_loop-symbol v1 _ _ _ targsize (omega arith) (
        put_second done targsize (omega arith) (a / 4) v1 y a (b / 16) (z ∷ rest) (omega arith)
          (omega arith) (omega arith) (omega arith) (omega arith))
    ∙ pton_loop-symbol v2 _ _ _ targsize (omega arith) (
        put_third done_1 targsize (omega (arith, n_1)) (b / 16) v2 z b (c / 64) rest (omega arith)
          (omega arith) (omega (arith, n_1)) (omega arith) (omega arith))
    ∙ pton_loop-symbol (c % 64) _ _ _ targsize (omega arith) (
        put_fourth done_2 targsize (omega (arith, n_1, n_2)) (c / 64) (c % 64) c rest (omega arith)
          (omega arith) (omega (arith, n_1, n_2)) (omega arith))

pub finish_padded_clean :
    (done rest : List ℕ) (s : State)
    → finish_padded (at done (0 ∷ rest) s) []
      ≡ record { target = done ++ (0 ∷ rest); value = length done }
unfolding finish_padded
finish_padded_clean done rest s = rw get_or-append

pub pton_loop-pad_one :
    (done rest : List ℕ) (targsize : ℕ)
    → pton_loop (pad ∷ []) (at done (0 ∷ rest) state_3) targsize
      ≡ record { target = done ++ (0 ∷ rest); value = length done }
unfolding pton_loop at_pad is_space
pton_loop-pad_one done rest targsize = finish_padded_clean done rest state_3

pub pton_loop-pad_two :
    (done rest : List ℕ) (targsize : ℕ)
    → pton_loop (pad ∷ pad ∷ []) (at done (0 ∷ rest) state_2) targsize
      ≡ record { target = done ++ (0 ∷ rest); value = length done }
unfolding pton_loop at_pad is_space second_pad
pton_loop-pad_two done rest targsize = finish_padded_clean done rest state_2
