-- ===== src/Base64/Count.antt =====
-- `f_b64_pton` of fbase64.c with a null target only counts, and counts right.
use social_timeline.Common.{ℕ, zero, suc, ◌≡◌, ◌≢◌, refl, arith}
use social_timeline.Common.{Option, some, none, List, [], ◌∷◌, inl, inr}
use social_timeline.Common.{◌==◌, Bool-cases, Option-cases}
use social_timeline.Base64.{is_space, position, pad, State, state_0, state_1, state_2, state_3}
use social_timeline.Base64.{
  Decoder, Returned, minus_one, put_symbol, pton_loop, f_b64_pton, after_symbol,
}
use social_timeline.Base64.{at_pad, at_end, finish_padded, second_pad}

-- The same decoder with a null target.
abbrev counting : Decoder → Decoder
counting d = record { target = none; tarindex = d.tarindex; state = d.state }

-- If the first answer is no -1, the second is the same.
abbrev Agrees : ℕ → ℕ → Type 0
Agrees v w = v ≢ minus_one → w ≡ v

put_symbol-counting :
    (s : State) (target : Option (List ℕ)) (i targsize m v : ℕ) (d' : Decoder)
    → put_symbol s target i targsize v ≡ some d'
    → put_symbol s none i m v ≡ some (counting d')
unfolding put_symbol
put_symbol-counting state_0 none i targsize m v d' e = ground arith
put_symbol-counting state_0 (some t) i targsize m v d' e = ground arith
put_symbol-counting state_1 none i targsize m v d' e = ground arith
put_symbol-counting state_1 (some t) i targsize m v d' e = ground arith
put_symbol-counting state_2 none i targsize m v d' e = ground arith
put_symbol-counting state_2 (some t) i targsize m v d' e = ground arith
put_symbol-counting state_3 none i targsize m v d' e = ground arith
put_symbol-counting state_3 (some t) i targsize m v d' e = ground arith

finish_padded-counting :
    (d : Decoder) (cs : List ℕ)
    → Agrees (finish_padded d cs).value (finish_padded (counting d) cs).value
unfolding finish_padded
finish_padded-counting d cs ne = ground arith

second_pad-counting :
    (d : Decoder) (cs : List ℕ) → Agrees (second_pad d cs).value (second_pad (counting d) cs).value
unfolding second_pad
second_pad-counting d [] ne = refl
second_pad-counting d (zero ∷ cs) ne = refl
second_pad-counting d (suc c ∷ cs) ne =
    ground (arith, second_pad-counting d cs, finish_padded-counting d cs)

at_pad-counting :
    (s : State) (d : Decoder) (cs : List ℕ)
    → Agrees (at_pad s d cs).value (at_pad s (counting d) cs).value
unfolding at_pad
at_pad-counting state_0 d cs ne = refl
at_pad-counting state_1 d cs ne = refl
at_pad-counting state_2 d cs ne = second_pad-counting d cs ne
at_pad-counting state_3 d cs ne = finish_padded-counting d cs ne

at_end-counting : (s : State) (d : Decoder) → (at_end s (counting d)).value ≡ (at_end s d).value
unfolding at_end
at_end-counting state_0 d = refl
at_end-counting state_1 d = refl
at_end-counting state_2 d = refl
at_end-counting state_3 d = refl

after_symbol-counting :
    (d : Decoder) (targsize m : ℕ) (found : Option ℕ) (next next' : Decoder → Returned)
    → ((d' : Decoder) → Agrees (next d').value (next' (counting d')).value)
    → Agrees
        (after_symbol d targsize found next).value
        (after_symbol (counting d) m found next').value
unfolding after_symbol
after_symbol-counting d targsize m none next next' ih = λ ne. refl
after_symbol-counting d targsize m (some v) next next' ih =
    elim (Option-cases (put_symbol d.state d.target d.tarindex targsize v)) [
      | inl q ↦ rw (q, after_symbol) (λ ne. absurd (ne refl))
      | inr (d', q) ↦
          rw (q, put_symbol-counting d.state d.target d.tarindex targsize m v d' q, after_symbol)
            (ih d')
    ]

pton_loop-counting :
    (cs : List ℕ) (d : Decoder) (targsize m : ℕ)
    → Agrees (pton_loop cs d targsize).value (pton_loop cs (counting d) m).value
unfolding pton_loop
pton_loop-counting [] d targsize m = λ ne. at_end-counting d.state d
pton_loop-counting (zero ∷ cs) d targsize m = λ ne. at_end-counting d.state d
pton_loop-counting (suc c ∷ cs) d targsize m = elim (Bool-cases (is_space (suc c))) [
  | inl sp ↦ rw sp (pton_loop-counting cs d targsize m)
  | inr nsp ↦ elim (Bool-cases (suc c == pad)) [
    | inl pd ↦ rw (nsp, pd) (at_pad-counting d.state d cs)
    | inr npd ↦
        rw (nsp, npd)
          (after_symbol-counting d targsize m (position (suc c)) _ _
            (λ d'. pton_loop-counting cs d' targsize m))
  ]
]

-- A text that `f_b64_pton` decodes into a target is counted to the same length with a
-- null target, whatever size is passed with that.
pub pton_count :
    (src t : List ℕ) (targsize m : ℕ)
    → (f_b64_pton src (some t) targsize).value ≢ minus_one
    → (f_b64_pton src none m).value ≡ (f_b64_pton src (some t) targsize).value
unfolding f_b64_pton
pton_count src t targsize m = pton_loop-counting src _ targsize m
