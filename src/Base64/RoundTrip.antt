-- ===== src/Base64/RoundTrip.antt =====
-- Decoding the text that `f_b64_ntop` writes gives the bytes back (fbase64.c).
use social_timeline.Common.{ℕ, suc, ◌+◌, ◌*◌, ◌/◌, ◌%◌, ◌^◌, ◌<◌, ◌≡◌, arith, ◌∙◌}
use social_timeline.Common.{some, List, [], ◌∷◌, ◌++◌, length, append_assoc}
use social_timeline.Common.{All, IsByte}
use native.Mathlib.Nat.{add-zero, zero-add}
use social_timeline.Base64.{symbol, pad, state_0, Returned}
use social_timeline.Base64.{pton_loop, f_b64_pton, at_end}
use social_timeline.Base64.Encode.{encoding, six_bits, ntop-encoding}
use social_timeline.Base64.Decode.{pton_loop-nul}
use social_timeline.Base64.{f_b64_ntop}
use social_timeline.Base64.Groups.{
  at, pton_loop-symbol, length-snoc, pton_loop-group, pton_loop-pad_one, pton_loop-pad_two,
  put_first, put_second, put_third,
}

-- The bytes stand in the target behind what it held before, and the value counts all of them.
abbrev Decodes : List ℕ → List ℕ → List ℕ → Returned → Type 0
Decodes done src rest result =
    (r : List ℕ) × (result
      ≡ record { target = done ++ (src ++ r); value = length done + length src })
    × (length src + length r ≡ length rest)

pton_loop-last_one :
    (a x y targsize : ℕ) (done rest : List ℕ)
    → a < 256
    → length done + 1 < targsize
    → targsize < 2 ^ 32
    → pton_loop
        (symbol (a / 4) ∷ symbol (a % 4 * 16) ∷ pad ∷ pad ∷ [])
        (at done (x ∷ y ∷ rest) state_0)
        targsize
      ≡ record { target = (done ++ (a ∷ [])) ++ (0 ∷ rest); value = length (done ++ (a ∷ [])) }
pton_loop-last_one a x y targsize done rest p h small =
    pton_loop-symbol (a / 4) _ _ _ targsize (omega arith)
      (put_first done targsize (omega arith) x (a / 4) (y ∷ rest) (omega arith) (omega arith))
    ∙ pton_loop-symbol (a % 4 * 16) _ _ _ targsize (omega arith) (
        put_second done targsize (omega arith) (a / 4) (a % 4 * 16) y a 0 rest (omega arith)
          (omega arith) (omega arith) (omega arith) (omega arith))
    ∙ pton_loop-pad_two (done ++ (a ∷ [])) rest targsize

pton_loop-last_two :
    (a b x y z targsize : ℕ) (done rest : List ℕ)
    → a < 256
    → b < 256
    → length done + 2 < targsize
    → targsize < 2 ^ 32
    → pton_loop
        (symbol (a / 4) ∷ symbol (a % 4 * 16 + b / 16) ∷ symbol (b % 16 * 4) ∷ pad ∷ [])
        (at done (x ∷ y ∷ z ∷ rest) state_0)
        targsize
      ≡ record {
        target = ((done ++ (a ∷ [])) ++ (b ∷ [])) ++ (0 ∷ rest);
        value = length ((done ++ (a ∷ [])) ++ (b ∷ []));
      }
pton_loop-last_two a b x y z targsize done rest p q h small =
    let v1 = a % 4 * 16 + b / 16 in
    let done_1 = done ++ (a ∷ []) in
    let n_1 = length-snoc done a in
    pton_loop-symbol (a / 4) _ _ _ targsize (omega arith)
      (put_first done targsize (omega arith) x (a / 4) (y ∷ z ∷ rest) (omega arith) (omega arith))
    ∙ pton_loop-symbol v1 _ _ _ targsize (omega arith) (
        put_second done targsize (omega arith) (a / 4) v1 y a (b / 16) (z ∷ rest) (omega arith)
          (omega arith) (omega arith) (omega arith) (omega arith))
    ∙ pton_loop-symbol (b % 16 * 4) _ _ _ targsize (omega arith) (
        put_third done_1 targsize (omega (arith, n_1)) (b / 16) (b % 16 * 4) z b 0 rest
          (omega arith) (omega arith) (omega (arith, n_1)) (omega arith) (omega arith))
    ∙ pton_loop-pad_one (done_1 ++ (b ∷ [])) rest targsize

-- The digits of a last group.
two_digits :
    (a : ℕ)
    → a < 256
    → (a * 256 * 256 / 64 ^ 3 ≡ a / 4) × (a * 256 * 256 / 64 ^ 2 % 64 ≡ a % 4 * 16)
two_digits a p = omega arith

three_digits :
    (a b : ℕ)
    → a < 256
    → b < 256
    → let n = (a * 256 + b) * 256 in
      (n / 64 ^ 3 ≡ a / 4) × (n / 64 ^ 2 % 64 ≡ a % 4 * 16 + b / 16) × (n / 64 % 64 ≡ b % 16 * 4)
three_digits a b p q = omega arith

regroup :
    (done rest src : List ℕ) (a b c x y z : ℕ) (result : Returned)
    → Decodes (((done ++ (a ∷ [])) ++ (b ∷ [])) ++ (c ∷ [])) src rest result
    → Decodes done (a ∷ b ∷ c ∷ src) (x ∷ y ∷ z ∷ rest) result
regroup done rest src a b c x y z result (r, e, n) =
    let place : (((done ++ (a ∷ [])) ++ (b ∷ [])) ++ (c ∷ [])) ++ (src ++ r)
        ≡ done ++ (a ∷ b ∷ c ∷ (src ++ r)) =
      simp append_assoc in
    let count : length (((done ++ (a ∷ [])) ++ (b ∷ [])) ++ (c ∷ [])) + length src
        ≡ length done + suc (suc (suc (length src))) =
      omega (
        arith,
        length-snoc done a,
        length-snoc (done ++ (a ∷ [])) b,
        length-snoc ((done ++ (a ∷ [])) ++ (b ∷ [])) c,
      ) in
    (r, e ∙ rw (place, count), omega arith)

pton_loop-encoding :
    (src done rest : List ℕ) (targsize : ℕ)
    → All IsByte src
    → length src < length rest
    → length done + length src < targsize
    → targsize < 2 ^ 32
    → Decodes done src rest (pton_loop (encoding src) (at done rest state_0) targsize)
unfolding encoding
pton_loop-encoding [] done rest targsize bytes h k small =
    (rest, unfold pton_loop at_end in rw add-zero, omega arith)
pton_loop-encoding (a ∷ []) done (x ∷ y ∷ rest) targsize (p, _) h k small =
    let (e0, e1) = two_digits a p in
    (
      0 ∷ rest,
      rw (e0, e1)
          (pton_loop-last_one a x y targsize done rest p k small ∙ rw (length-snoc, append_assoc)),
      omega arith,
    )
pton_loop-encoding (a ∷ b ∷ []) done (x ∷ y ∷ z ∷ rest) targsize (p, (q, _)) h k small =
    let (e0, e1, e2) = three_digits a b p q in
    let count : length ((done ++ (a ∷ [])) ++ (b ∷ [])) ≡ length done + 2 =
      omega (arith, length-snoc done a, length-snoc (done ++ (a ∷ [])) b) in
    (
      0 ∷ rest,
      rw (e0, e1, e2)
          (pton_loop-last_two a b x y z targsize done rest p q k small
            ∙ rw (count, append_assoc, append_assoc)),
      omega arith,
    )
pton_loop-encoding (a ∷ b ∷ c ∷ src) done (x ∷ y ∷ z ∷ rest) targsize (p, (q, (r, bytes))) h k
      small =
    let (e0, e1, e2, e3) = six_bits a b c p q r in
    let done_1 = done ++ (a ∷ []) in
    let done_3 = (done_1 ++ (b ∷ [])) ++ (c ∷ []) in
    let count : length done_3 ≡ length done + 3 =
      omega (arith, length-snoc done a, length-snoc done_1 b, length-snoc (done_1 ++ (b ∷ [])) c) in
    rw
      (
        e0,
        e1,
        e2,
        e3,
        pton_loop-group a b c x y z targsize done rest (encoding src) p q r (omega arith) small,
      )
      (regroup done rest src a b c x y z _ (
        pton_loop-encoding src done_3 rest targsize bytes (omega arith) (omega (arith, count))
          small))
pton_loop-encoding (a ∷ src) done [] targsize bytes h k small = absurd (omega arith)
pton_loop-encoding (a ∷ src) done (x ∷ []) targsize bytes h k small = absurd (omega arith)
pton_loop-encoding (a ∷ b ∷ src) done (x ∷ y ∷ []) targsize bytes h k small = absurd (omega arith)

-- With one byte more of room than the bytes take, `f_b64_pton` reads the text of `f_b64_ntop` back:
-- it returns the number of bytes, and the target begins with them.
pub pton-encoding :
    (src t : List ℕ) (targsize : ℕ)
    → All IsByte src
    → length src < length t
    → length src < targsize
    → targsize < 2 ^ 32
    → (r : List ℕ) × (f_b64_pton (encoding src) (some t) targsize
        ≡ record { target = src ++ r; value = length src })
      × (length src + length r ≡ length t)
unfolding f_b64_pton
pton-encoding src t targsize bytes h k small =
    let (r, e, n) = pton_loop-encoding src [] t targsize bytes h (omega arith) small in
    (r, e ∙ rw zero-add, n)

-- `f_b64_pton` reads what `f_b64_ntop` wrote, NUL included: it returns the number of bytes, and the
-- target begins with them. The text's target must hold text and NUL, the other one byte more than
-- the bytes.
pub pton-ntop :
    (src t : List ℕ) (textsize targsize : ℕ)
    → All IsByte src
    → length (encoding src) < textsize
    → textsize < 2 ^ 64
    → length src < length t
    → length src < targsize
    → targsize < 2 ^ 32
    → (r : List ℕ) × (f_b64_pton (f_b64_ntop src textsize).target (some t) targsize
        ≡ record { target = src ++ r; value = length src })
      × (length src + length r ≡ length t)
pton-ntop src t textsize targsize bytes room big h k small =
    let (r, e, n) = pton-encoding src t targsize bytes h k small in
    (
      r,
      rw (ntop-encoding src textsize bytes room big)
          (unfold f_b64_pton in pton_loop-nul (encoding src) [] _ targsize ∙ e),
      n,
    )
