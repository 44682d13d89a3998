-- ===== src/Nanopb/Istream/Reads.antt =====
-- Reads from a buffer stream (`buf_read`, `pb_read` and `pb_readbyte` of pb_decode.c): they give the
-- next bytes and leave the rest.
use social_timeline.Common.{ℕ, ◌-◌, ◌≤◌, ◌<◌, ◌≡◌, refl, arith}
use social_timeline.Common.{Option, List, ◌∷◌, ◌++◌, length, take-append, drop-append}
use social_timeline.Common.{lt→ltb, le→ltb}
use social_timeline.Nanopb.Outcome.{Errmsg, end_of_stream, ok, fail, first_error}
use social_timeline.Nanopb.Istream.{Istream, buffer, pb_read, pb_skip, pb_readbyte}

-- A buffer stream in front of `l`, with `n` bytes left.
abbrev pub reading : {S : Type 0} → List ℕ → ℕ → Option Errmsg → Istream S
reading l n err = record { input = buffer l; bytes_left = n; errmsg = err }

module _ {S : Type 0} where
  pub pb_readbyte_next :
      (b : ℕ) (l : List ℕ) (n : ℕ) (err : Option Errmsg)
      → 0 < n
      → pb_readbyte {S = S} (reading (b ∷ l) n err) ≡ ok b (reading l (n - 1) err)
  unfolding pb_readbyte
  pb_readbyte_next b l n err h = ground arith

  pub pb_readbyte_end :
      (l : List ℕ) (err : Option Errmsg)
      → pb_readbyte {S = S} (reading l 0 err) ≡ fail (reading l 0 (first_error err end_of_stream))
  unfolding pb_readbyte
  pb_readbyte_end l err = refl

  pub pb_read_next :
      (bytes l : List ℕ) (n : ℕ) (err : Option Errmsg)
      → length bytes ≤ n
      → pb_read {S = S} (length bytes) (reading (bytes ++ l) n err)
        ≡ ok bytes (reading l (n - length bytes) err)
  unfolding pb_read
  pb_read_next bytes l n err h =
      rw (le→ltb n (length bytes) h, take-append bytes l, drop-append bytes l)

  pub pb_skip_next :
      (bytes l : List ℕ) (n : ℕ) (err : Option Errmsg)
      → length bytes ≤ n
      → pb_skip {S = S} (length bytes) (reading (bytes ++ l) n err)
        ≡ ok bytes (reading l (n - length bytes) err)
  unfolding pb_skip
  pb_skip_next bytes l n err h = pb_read_next bytes l n err h

  -- A read of more than `bytes_left` fails, and takes nothing.
  pub pb_read_short :
      (count : ℕ) (l : List ℕ) (n : ℕ) (err : Option Errmsg)
      → n < count
      → pb_read {S = S} count (reading l n err) ≡ fail (reading l n (first_error err end_of_stream))
  unfolding pb_read
  pb_read_short count l n err h = rw (lt→ltb n count h)
