-- ===== src/Nanopb/Istream/Takes.antt =====
-- The functions of pb_decode.c on an input stream never add to `bytes_left`, and a tag takes a byte.
use social_timeline.Common.{ℕ, zero, suc, ◌-◌, ◌/◌, ◌≤◌, ◌<◌, arith}
use social_timeline.Common.{true, false, List, [], ◌∷◌, ltb, ◌==◌, Bool-cases, inl, inr}
use native.Mathlib.Nat.{le_refl}
use social_timeline.Nanopb.Outcome.{Errmsg, Outcome, ok, fail, Run, bind, left, ◌>>=◌}
use social_timeline.Nanopb.Outcome.Takes.{Takes, takes, at_most, Takes-bind, Takes-test, Takes-pure}
use social_timeline.Nanopb.Istream
use social_timeline.Nanopb.Istream.{
  Istream, Input, buffer, custom, ReadResult, read_ok, read_fail, first_byte, after_read, call_read,
  pb_read, skip_chunks, skip_input, pb_skip, pb_readbyte,
}

abbrev pub bytes_left : {S : Type 0} → Istream S → ℕ
bytes_left s = s.bytes_left

module _ {S : Type 0} where
  pub return_error-Takes :
      {A : Type 0} (msg : Errmsg) → Takes {A = A} (bytes_left {S = S}) (Istream.return_error msg)
  unfolding Istream.return_error
  return_error-Takes msg = takes λ s. le_refl s.bytes_left

  after_read-at_most :
      (f : S → ℕ → ReadResult S) (count : ℕ) (s : Istream S) (r : ReadResult S)
      → bytes_left (left (after_read f count s r)) ≤ s.bytes_left
  unfolding after_read Istream.return_error
  after_read-at_most f count s (read_ok bytes state) = omega arith
  after_read-at_most f count s (read_fail true state) = omega arith
  after_read-at_most f count s (read_fail false state) = omega arith

  call_read-Takes :
      (input : Input S) (count : ℕ) → Takes (bytes_left {S = S}) (call_read input count)
  unfolding call_read
  call_read-Takes (buffer rest) count = takes λ s. omega arith
  call_read-Takes (custom f state) count = takes λ s. after_read-at_most f count s (f state count)

  pub pb_read-Takes : (count : ℕ) → Takes (bytes_left {S = S}) (pb_read count)
  unfolding pb_read
  pb_read-Takes count =
      Takes-test (λ s. ltb s.bytes_left count) (Istream.return_error Errmsg.end_of_stream)
        (λ s. call_read s.input count s) (return_error-Takes Errmsg.end_of_stream)
        (takes λ s. at_most (call_read-Takes s.input count) s)

  skip_chunks-Takes : (rounds count : ℕ) → Takes (bytes_left {S = S}) (skip_chunks rounds count)
  unfolding skip_chunks
  skip_chunks-Takes zero count = pb_read-Takes count
  skip_chunks-Takes (suc rounds) count =
      Takes-bind (pb_read-Takes 16) (λ _. skip_chunks-Takes rounds (count - 16))

  skip_input-Takes :
      (input : Input S) (count : ℕ) → Takes (bytes_left {S = S}) (skip_input input count)
  unfolding skip_input
  skip_input-Takes (buffer rest) count = pb_read-Takes count
  skip_input-Takes (custom f state) count = skip_chunks-Takes ((count - 1) / 16) count

  pub pb_skip-Takes : (count : ℕ) → Takes (bytes_left {S = S}) (pb_skip count)
  unfolding pb_skip
  pb_skip-Takes count = takes λ s. at_most (skip_input-Takes s.input count) s

  pub first_byte-Takes : (bytes : List ℕ) → Takes (bytes_left {S = S}) (first_byte bytes)
  first_byte-Takes [] = return_error-Takes Errmsg.io_error
  first_byte-Takes (b ∷ bytes) = Takes-pure b

  pub pb_readbyte-Takes : Takes (bytes_left {S = S}) pb_readbyte
  unfolding pb_readbyte
  pb_readbyte-Takes =
      Takes-test (λ s. s.bytes_left == 0) (Istream.return_error Errmsg.end_of_stream)
        (λ s. (call_read s.input 1 >>= first_byte) s) (return_error-Takes Errmsg.end_of_stream)
        (takes λ s. at_most (Takes-bind (call_read-Takes s.input 1) first_byte-Takes) s)

  -- A success has taken from the `n` bytes there were.
  abbrev pub TakesSome : {A : Type 0} → ℕ → Outcome (Istream S) A → Type 0
  TakesSome n (ok a s) = s.bytes_left < n
  TakesSome n (fail s) = Unit {0}

  pub lt-TakesSome :
      {A : Type 0} (n : ℕ) (o : Outcome (Istream S) A) → bytes_left (left o) < n → TakesSome n o
  lt-TakesSome n (ok a s) h = h
  lt-TakesSome n (fail s) h = tt

  bind-TakesSome :
      {A B : Type 0} (n : ℕ) (o : Outcome (Istream S) A) (k : A → Run (Istream S) B)
      → TakesSome n o
      → ((a : A) → Takes (bytes_left {S = S}) (k a))
      → TakesSome n (bind o k)
  bind-TakesSome n (ok a s) k h each = lt-TakesSome n (k a s) (lt (at_most (each a) s) h)
    where
      lt : {a b c : ℕ} → a ≤ b → b < c → a < c
      lt h h' = omega arith
  bind-TakesSome n (fail s) k h each = tt

  after_read-TakesSome :
      (f : S → ℕ → ReadResult S) (s : Istream S) (r : ReadResult S)
      → 0 < s.bytes_left
      → TakesSome s.bytes_left (after_read f 1 s r)
  unfolding after_read Istream.return_error
  after_read-TakesSome f s (read_ok bytes state) h = omega arith
  after_read-TakesSome f s (read_fail at_end state) h = tt

  call_read-TakesSome :
      (input : Input S) (s : Istream S)
      → 0 < s.bytes_left
      → TakesSome s.bytes_left (call_read input 1 s)
  unfolding call_read
  call_read-TakesSome (buffer rest) s h = omega arith
  call_read-TakesSome (custom f state) s h = after_read-TakesSome f s (f state 1) h

  pub pb_readbyte-TakesSome : (s : Istream S) → TakesSome s.bytes_left (pb_readbyte s)
  unfolding pb_readbyte Istream.return_error
  pb_readbyte-TakesSome s = elim (Bool-cases (s.bytes_left == 0)) [
    | inl none_left ↦ rw none_left tt
    | inr some_left ↦ rw some_left (
        bind-TakesSome s.bytes_left (call_read s.input 1 s) first_byte
          (call_read-TakesSome s.input s (ground arith)) first_byte-Takes)
  ]
