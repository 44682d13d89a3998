-- ===== src/Nanopb/Outcome.antt =====
-- The functions of pb_encode.c and pb_decode.c return a `bool` and change a stream: a value of
-- `Outcome T A` is that `bool`, the stream of type `T` that is left, and what a true answer stores.
pub mod Takes
use social_timeline.Common.{◌≡◌, refl, Bool, true, false, Option, none, some}

-- The messages of PB_RETURN_ERROR.
pub data Errmsg : Type 0 where
  stream_full io_error : Errmsg
  array_max_size_exceeded missing_required_field invalid_field_type callback_error : Errmsg
  submsg_size_changed invalid_data_size bytes_size_exceeded invalid_field_descriptor : Errmsg
  end_of_stream varint_overflow invalid_wire_type parent_stream_too_short integer_too_large : Errmsg
  bytes_overflow size_too_large string_overflow incorrect_fixed_length array_overflow : Errmsg
  invalid_size realloc_failed too_many_array_entries callback_failed wrong_fixed_count : Errmsg
  invalid_union_tag iterator_error : Errmsg

pub data Outcome (T A : Type 0) : Type 0 where
  ok : A → T → Outcome T A
  fail : T → Outcome T A

abbrev pub Run : Type 0 → Type 0 → Type 0
Run T A = T → Outcome T A

abbrev pub pure : {T A : Type 0} → A → Run T A
pure a s = ok a s

-- What follows an unsuccessful call is not made: `if (!f(stream)) return false; …`.
abbrev pub bind : {T A B : Type 0} → Outcome T A → (A → Run T B) → Outcome T B
bind (ok a s) k = k a s
bind (fail s) k = fail s

infixl 5 ◌>>=◌ ◌>>◌
abbrev pub ◌>>=◌ : {T A B : Type 0} → Run T A → (A → Run T B) → Run T B
◌>>=◌ m k s = bind (m s) k

abbrev pub ◌>>◌ : {T A B : Type 0} → Run T A → Run T B → Run T B
◌>>◌ m k s = bind (m s) (λ _. k)

-- The stream behind either answer.
abbrev pub left : {T A : Type 0} → Outcome T A → T
left (ok a s) = s
left (fail s) = s

abbrev pub succeeds : {T A : Type 0} → Outcome T A → Bool
succeeds (ok a s) = true
succeeds (fail s) = false

-- PB_SET_ERROR keeps the first message.
abbrev pub first_error : Option Errmsg → Errmsg → Option Errmsg
first_error none msg = some msg
first_error (some old) msg = some old

pub bind_assoc :
    {T A B C : Type 0} (o : Outcome T A) (f : A → Run T B) (g : B → Run T C)
    → bind (bind o f) g ≡ bind o (λ a s. bind (f a s) g)
bind_assoc (ok a s) f g = refl
bind_assoc (fail s) f g = refl
