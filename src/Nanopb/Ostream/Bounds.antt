-- ===== src/Nanopb/Ostream/Bounds.antt =====
-- `pb_write` and `buf_write` of pb_encode.c: a buffer stream holds exactly what was written, and
-- nothing is written that does not fit.
use social_timeline.Common.{ℕ, ◌+◌, ◌^◌, ◌≤◌, ◌<◌, ◌≡◌, arith, ◌∙◌, ap, sym}
use social_timeline.Common.{
  Bool, true, false, Option, some, none, List, [], ◌∷◌, ◌++◌, length, length-append, append_assoc,
}
use social_timeline.Common.{
  take, take_all, u64, ltb, lt→ltb, le→ltb, set-append, append-nil, Bool-cases, ltb→le, inl, inr,
}
use mathlib.Core.Path.{subst}
use social_timeline.Nanopb.Outcome.{Errmsg, stream_full, ok, fail, first_error, left}
use social_timeline.Nanopb.Ostream.{
  Ostream, Buffer, WriteCallback, buf_write, store_from, pb_write, write_with, advance,
  after_callback,
}

-- A stream on a buffer: `done` lies in front of the pointer, `rest` from it on.
abbrev pub holding : List ℕ → List ℕ → ℕ → ℕ → Option Errmsg → Ostream Buffer
holding done rest max n err = record {
  callback = some buf_write;
  state = record { memory = done ++ rest; pos = length done };
  max_size = max;
  bytes_written = n;
  errmsg = err;
}

store_from-append :
    (bytes done hole rest : List ℕ)
    → length hole ≡ length bytes
    → store_from (length done) bytes (done ++ (hole ++ rest)) ≡ (done ++ bytes) ++ rest
unfolding store_from
store_from-append [] done [] rest h = sym (ap (λ l. l ++ rest) (append-nil done))
store_from-append [] done (x ∷ hole) rest h = absurd (omega arith)
store_from-append (b ∷ bytes) done [] rest h = absurd (omega arith)
store_from-append (b ∷ bytes) done (x ∷ hole) rest h =
    let next : length done + 1 ≡ length (done ++ (b ∷ [])) =
      omega (arith, length-append done (b ∷ [])) in
    let ih = store_from-append bytes (done ++ (b ∷ [])) hole rest (omega arith) in
    rw (set-append, next)
      (ap (λ l. store_from (length (done ++ (b ∷ []))) bytes l)
          (sym (append_assoc done (b ∷ []) (hole ++ rest)))
        ∙ ih
        ∙ rw (append_assoc done (b ∷ []) bytes))

-- A write into a buffer that fits is stored behind what is there, and the pointer and `bytes_written`
-- move by its length.
pub pb_write_fits :
    (bytes done hole rest : List ℕ) (max n : ℕ) (err : Option Errmsg)
    → length hole ≡ length bytes
    → n + length bytes ≤ max
    → max < 2 ^ 64
    → pb_write bytes (length bytes) (holding done (hole ++ rest) max n err)
      ≡ ok tt (holding (done ++ bytes) rest max (n + length bytes) err)
unfolding pb_write buf_write
pb_write_fits bytes done hole rest max n err h fits small =
    let no_wrap : u64 (n + length bytes) ≡ n + length bytes = omega arith in
    rw (no_wrap, le→ltb max (n + length bytes) fits, take_all bytes)
      (rw (store_from-append bytes done hole rest h, length-append))

-- A write that goes past `max_size` fails with "stream full", unless a message is set already, and
-- leaves the buffer, the pointer and `bytes_written` alone.
pub pb_write_full :
    (bytes done rest : List ℕ) (max n : ℕ) (err : Option Errmsg)
    → max < n + length bytes
    → n + length bytes < 2 ^ 64
    → pb_write bytes (length bytes) (holding done rest max n err)
      ≡ fail (holding done rest max n (first_error err stream_full))
unfolding pb_write buf_write
pb_write_full bytes done rest max n err over small =
    let no_wrap : u64 (n + length bytes) ≡ n + length bytes = omega arith in
    rw (no_wrap, lt→ltb max (n + length bytes) over)

-- A sizing stream takes every write, and only counts.
pub pb_write_sizing :
    {S : Type 0} (buf : List ℕ) (count : ℕ) (s : Ostream S)
    → s.callback ≡ none
    → pb_write buf count s ≡ ok tt (advance count s)
unfolding pb_write
pb_write_sizing buf count s e = rw (e, write_with)

-- The count of a stream is within its limit.
abbrev pub IsBounded : {S : Type 0} → Ostream S → Type 0
IsBounded s = s.bytes_written ≤ s.max_size

after_callback-IsBounded :
    {S : Type 0} (s : Ostream S) (count : ℕ) (r : Bool × S)
    → s.bytes_written + count ≤ s.max_size
    → s.bytes_written + count < 2 ^ 64
    → IsBounded (left (after_callback s count r))
unfolding after_callback
after_callback-IsBounded s count (true, state) fits small = omega arith
after_callback-IsBounded s count (false, state) fits small = omega arith

write_with-IsBounded :
    {S : Type 0} (f : WriteCallback S) (buf : List ℕ) (count : ℕ) (s : Ostream S)
    → IsBounded s
    → s.bytes_written + count < 2 ^ 64
    → IsBounded (left (write_with (some f) buf count s))
unfolding write_with
write_with-IsBounded f buf count s h small =
    elim (Bool-cases (ltb s.max_size (u64 (s.bytes_written + count)))) [
      | inl over ↦ rw over h
      | inr fits ↦
          let room : s.bytes_written + count ≤ s.max_size = omega (arith, ltb→le _ _ fits) in
          rw fits (after_callback-IsBounded s count (f s.state (take count buf)) room small)
    ]

-- Whatever the callback does, a `pb_write` that succeeds or fails leaves `bytes_written` within
-- `max_size`, if it was and the sum does not wrap.
pub pb_write-IsBounded :
    {S : Type 0} (buf : List ℕ) (count : ℕ) (s : Ostream S) (f : WriteCallback S)
    → s.callback ≡ some f
    → IsBounded s
    → s.bytes_written + count < 2 ^ 64
    → IsBounded (left (pb_write buf count s))
unfolding pb_write
pb_write-IsBounded buf count s f e h small =
    subst (λ c. IsBounded (left (write_with c buf count s))) (sym e)
      (write_with-IsBounded f buf count s h small)
