-- ===== src/Base64/Decode.antt =====
-- `f_b64_pton` of fbase64.c on any input: it stays inside the target, stops at the NUL, and gives
-- the same answer when it only counts.
use social_timeline.Common.{ℕ, zero, suc, ◌+◌, ◌^◌, ◌≤◌, ◌<◌, ◌≡◌, fun_ext, refl, arith, ◌∙◌}
use social_timeline.Common.{Option, some, none, List, [], ◌∷◌, ◌++◌, inl, inr}
use social_timeline.Common.{if◌then◌else◌, drop, set, leb, u32, ◌==◌, Option-cases, if-cases}
use social_timeline.Base64.{is_space, position, pad, State, state_0, state_1, state_2, state_3}
use social_timeline.Base64.{
  Decoder, Returned, written, put_symbol, pton_loop, f_b64_pton, after_symbol,
}
use social_timeline.Base64.{at_pad, at_end, finish_padded, second_pad, only_space}

only_space-nul : (cs junk : List ℕ) → only_space (cs ++ (0 ∷ junk)) ≡ only_space cs
unfolding only_space
only_space-nul [] junk = refl
only_space-nul (zero ∷ cs) junk = refl
only_space-nul (suc c ∷ cs) junk = rw (only_space-nul cs junk)

finish_padded-nul :
    (d : Decoder) (cs junk : List ℕ) → finish_padded d (cs ++ (0 ∷ junk)) ≡ finish_padded d cs
unfolding finish_padded
finish_padded-nul d cs junk = rw (only_space-nul cs junk)

second_pad-nul :
    (d : Decoder) (cs junk : List ℕ) → second_pad d (cs ++ (0 ∷ junk)) ≡ second_pad d cs
unfolding second_pad
second_pad-nul d [] junk = refl
second_pad-nul d (zero ∷ cs) junk = refl
second_pad-nul d (suc c ∷ cs) junk = rw (second_pad-nul d cs junk, finish_padded-nul d cs junk)

at_pad-nul :
    (s : State) (d : Decoder) (cs junk : List ℕ) → at_pad s d (cs ++ (0 ∷ junk)) ≡ at_pad s d cs
unfolding at_pad
at_pad-nul state_0 d cs junk = refl
at_pad-nul state_1 d cs junk = refl
at_pad-nul state_2 d cs junk = second_pad-nul d cs junk
at_pad-nul state_3 d cs junk = finish_padded-nul d cs junk

-- What stands behind the NUL does not matter.
pub pton_loop-nul :
    (cs junk : List ℕ) (d : Decoder) (targsize : ℕ)
    → pton_loop (cs ++ (0 ∷ junk)) d targsize ≡ pton_loop cs d targsize
unfolding pton_loop
pton_loop-nul [] junk d targsize = refl
pton_loop-nul (zero ∷ cs) junk d targsize = refl
pton_loop-nul (suc c ∷ cs) junk d targsize = rw (
  fun_ext (λ d'. pton_loop-nul cs junk d' targsize),
  pton_loop-nul cs junk d targsize,
  at_pad-nul d.state d cs junk,
)

drop-set_below {ℓ} :
    {A : Type ℓ} (n i : ℕ) (t : List A) (v : A) → i < n → drop n (set t i v) ≡ drop n t
drop-set_below zero i t v h = absurd (omega arith)
drop-set_below (suc n) i [] v h = refl
drop-set_below (suc n) zero (x ∷ t) v h = refl
drop-set_below (suc n) (suc i) (x ∷ t) v h = drop-set_below n i t v (omega arith)

below_targsize :
    (n targsize : ℕ) (x d : Decoder)
    → (if leb targsize n then none else some x) ≡ some d
    → (n < targsize) × (x ≡ d)
below_targsize n targsize x d e = (ground arith, ground arith)

-- The decoder has changed nothing at or behind `targsize`.
abbrev Inside : ℕ → List ℕ → Decoder → Type 0
Inside targsize t0 d =
    (d.target ≡ some (written d.target))
    × (drop targsize (written d.target) ≡ drop targsize t0)
    × (d.tarindex ≤ targsize)

module _ (t0 : List ℕ) (targsize : ℕ) (small : targsize + 1 < 2 ^ 32) where
  -- A symbol is written only where the tests against `targsize` allow it.
  put_symbol-Inside :
      (s : State) (t : List ℕ) (i v : ℕ) (d' : Decoder)
      → i ≤ targsize
      → drop targsize t ≡ drop targsize t0
      → put_symbol s (some t) i targsize v ≡ some d'
      → Inside targsize t0 d'
  unfolding put_symbol
  put_symbol-Inside state_0 t i v d' le h e =
      let (lt, eq) = below_targsize i targsize _ d' e in
      rw (← eq) (refl, drop-set_below targsize i t _ lt ∙ h, le)
  put_symbol-Inside state_1 t i v d' le h e =
      let (lt, eq) = below_targsize (u32 (i + 1)) targsize _ d' e in
      rw (← eq) (
        refl,
        drop-set_below targsize (u32 (i + 1)) _ _ lt
            ∙ drop-set_below targsize i t _ (omega arith)
            ∙ h,
        omega arith,
      )
  put_symbol-Inside state_2 t i v d' le h e =
      let (lt, eq) = below_targsize (u32 (i + 1)) targsize _ d' e in
      rw (← eq) (
        refl,
        drop-set_below targsize (u32 (i + 1)) _ _ lt
            ∙ drop-set_below targsize i t _ (omega arith)
            ∙ h,
        omega arith,
      )
  put_symbol-Inside state_3 t i v d' le h e =
      let (lt, eq) = below_targsize i targsize _ d' e in
      rw (← eq) (refl, drop-set_below targsize i t _ lt ∙ h, omega arith)

  -- The answers behind the loop only read the target.
  second_pad-target : (d : Decoder) (cs : List ℕ) → (second_pad d cs).target ≡ written d.target
  unfolding second_pad finish_padded
  second_pad-target d [] = refl
  second_pad-target d (zero ∷ cs) = refl
  second_pad-target d (suc c ∷ cs) = ground (arith, second_pad-target d cs)

  at_pad-target :
      (s : State) (d : Decoder) (cs : List ℕ) → (at_pad s d cs).target ≡ written d.target
  unfolding at_pad finish_padded
  at_pad-target state_0 d cs = refl
  at_pad-target state_1 d cs = refl
  at_pad-target state_2 d cs = second_pad-target d cs
  at_pad-target state_3 d cs = ground arith

  at_end-target : (s : State) (d : Decoder) → (at_end s d).target ≡ written d.target
  unfolding at_end
  at_end-target state_0 d = refl
  at_end-target state_1 d = refl
  at_end-target state_2 d = refl
  at_end-target state_3 d = refl

  after_symbol-Untouched :
      (d : Decoder) (found : Option ℕ) (next : Decoder → Returned)
      → Inside targsize t0 d
      → ((d' : Decoder) → Inside targsize t0 d' → drop targsize (next d').target ≡ drop targsize t0)
      → drop targsize (after_symbol d targsize found next).target ≡ drop targsize t0
  unfolding after_symbol
  after_symbol-Untouched d none next (e, h, le) ih = h
  after_symbol-Untouched d (some v) next (e, h, le) ih =
      elim (Option-cases (put_symbol d.state d.target d.tarindex targsize v)) [
        | inl q ↦ rw (q, after_symbol) h
        | inr (d', q) ↦
            rw (q, after_symbol)
              (ih d'
                (put_symbol-Inside d.state (written d.target) d.tarindex v d' le h (rw (← e) q)))
      ]

  pton_loop-Untouched :
      (cs : List ℕ) (d : Decoder)
      → Inside targsize t0 d
      → drop targsize (pton_loop cs d targsize).target ≡ drop targsize t0
  unfolding pton_loop
  pton_loop-Untouched [] d (e, h, le) = rw (at_end-target d.state d) h
  pton_loop-Untouched (zero ∷ cs) d (e, h, le) = rw (at_end-target d.state d) h
  pton_loop-Untouched (suc c ∷ cs) d (e, h, le) =
      let P = λ (r : Returned). drop targsize r.target ≡ drop targsize t0 in
      if-cases P (is_space (suc c)) _ _ (pton_loop-Untouched cs d (e, h, le)) (
        if-cases P (suc c == pad) _ _ (rw (at_pad-target d.state d cs) h) (
          after_symbol-Untouched d (position (suc c)) _ (e, h, le)
            (λ d' i. pton_loop-Untouched cs d' i)))

-- `f_b64_pton` never writes at or behind `targsize`, whatever the text and the outcome.
pub pton_inside :
    (src t : List ℕ) (targsize : ℕ)
    → targsize + 1 < 2 ^ 32
    → drop targsize (f_b64_pton src (some t) targsize).target ≡ drop targsize t
unfolding f_b64_pton
pton_inside src t targsize small =
    pton_loop-Untouched t targsize small src _ (refl, refl, omega arith)
