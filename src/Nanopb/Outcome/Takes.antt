-- ===== src/Nanopb/Outcome/Takes.antt =====
-- Functions that never add to what a stream has left.
use social_timeline.Common.{ℕ, ◌≤◌, Bool, true, false, if◌then◌else◌, if-cases}
use native.Mathlib.Nat.{le_refl, le_trans}
use social_timeline.Nanopb.Outcome.{Outcome, ok, fail, Run, bind, left, pure, ◌>>=◌, ◌>>◌}

-- `bytes_of` what is left behind the function, whatever its answer, is at most that before it.
pub data Takes {T A : Type 0} (bytes_of : T → ℕ) (f : Run T A) : Type 0 where
  takes : ((s : T) → bytes_of (left (f s)) ≤ bytes_of s) → Takes bytes_of f

module _ {T : Type 0} {bytes_of : T → ℕ} where
  pub at_most :
      {A : Type 0} {f : Run T A} → Takes bytes_of f → (s : T) → bytes_of (left (f s)) ≤ bytes_of s
  at_most (takes h) = h

  bind_at_most :
      {A B : Type 0} (n : ℕ) (o : Outcome T A) (k : A → Run T B)
      → bytes_of (left o) ≤ n
      → ((a : A) → Takes bytes_of (k a))
      → bytes_of (left (bind o k)) ≤ n
  bind_at_most n (ok a s) k h each = le_trans (at_most (each a) s) h
  bind_at_most n (fail s) k h each = h

  pub Takes-bind :
      {A B : Type 0} {f : Run T A} {k : A → Run T B}
      → Takes bytes_of f
      → ((a : A) → Takes bytes_of (k a))
      → Takes bytes_of (f >>= k)
  Takes-bind {f = f} {k = k} (takes h) each =
      takes λ s. bind_at_most (bytes_of s) (f s) k (h s) each

  pub Takes-then :
      {A B : Type 0} {f : Run T A} {g : Run T B}
      → Takes bytes_of f
      → Takes bytes_of g
      → Takes bytes_of (f >> g)
  Takes-then {f = f} {g = g} (takes h) after =
      takes λ s. bind_at_most (bytes_of s) (f s) (λ _. g) (h s) (λ _. after)

  pub Takes-if :
      {A : Type 0} {f g : Run T A} (b : Bool)
      → Takes bytes_of f
      → Takes bytes_of g
      → Takes bytes_of (if b then f else g)
  Takes-if true f g = f
  Takes-if false f g = g

  pub Takes-either :
      {A : Type 0} {f g : Run T A} (b : Bool)
      → Takes bytes_of f
      → Takes bytes_of g
      → Takes bytes_of (λ s. if b then f s else g s)
  Takes-either true f g = f
  Takes-either false f g = g

  pub Takes-pure : {A : Type 0} (a : A) → Takes bytes_of (pure {T = T} a)
  Takes-pure a = takes λ s. le_refl (bytes_of s)

  -- A test that reads the stream.
  pub Takes-test :
      {A : Type 0} (b : T → Bool) (f g : Run T A)
      → Takes bytes_of f
      → Takes bytes_of g
      → Takes bytes_of (λ s. if b s then f s else g s)
  Takes-test b f g (takes h) (takes h') =
      takes λ s. if-cases (λ o. bytes_of (left o) ≤ bytes_of s) (b s) (f s) (g s) (h s) (h' s)
