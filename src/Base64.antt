-- ===== src/Base64.antt =====
-- Base64 text of FirebaseDatabase's WebSocket handshake: `f_b64_ntop` and `f_b64_pton` of
-- Timeline/Pods/FirebaseDatabase/Firebase/Database/third_party/SocketRocket/fbase64.c.
-- A `char` is its byte, 0 to 255; a C string is the list of its characters, and the end of the
-- list stands for the terminating NUL. A value of type `int` is its 32-bit pattern, so that
-- `minus_one` is the -1 of both functions.
pub mod Alphabet
pub mod Encode
pub mod Decode
pub mod Count
pub mod Groups
pub mod RoundTrip
mod Runs
use social_timeline.Common.{ℕ, zero, suc, ◌+◌, ◌-◌, ◌^◌, Bool, true, false, ◌&&◌, ◌||◌}
use social_timeline.Common.{Option, none, some, List, [], ◌∷◌, ◌++◌, bit_and, bit_or}
use social_timeline.Common.{length, get_or, set, ltb, leb, ◌==◌, if◌then◌else◌, u8, u32, u64}
use social_timeline.Common.{◌<<<◌, ◌>>>◌}

abbrev pub minus_one : ℕ
minus_one = 2 ^ 32 - 1

-- `Pad64`.
abbrev pub pad : ℕ
pad = b'='

-- `Base64[v]` of a six-bit value: A-Z, a-z, 0-9, +, /.
unfoldable pub symbol : ℕ → ℕ
symbol v =
    if ltb v 26
    then b'A' + v
    else if ltb v 52
    then b'a' + (v - 26)
    else if ltb v 62
    then b'0' + (v - 52)
    else if v == 62
    then b'+'
    else b'/'

-- `strchr(Base64, ch) - Base64` for a `ch` that is not NUL; `none` is the null pointer.
unfoldable pub position : ℕ → Option ℕ
position c =
    if leb b'A' c && leb c b'Z'
    then some (c - b'A')
    else if leb b'a' c && leb c b'z'
    then some (c - b'a' + 26)
    else if leb b'0' c && leb c b'9'
    then some (c - b'0' + 52)
    else if c == b'+'
    then some 62
    else if c == b'/'
    then some 63
    else none

-- `isspace` of the C locale: space, and the codes 9 to 13.
unfoldable pub is_space : ℕ → Bool
is_space c = c == 32 || (leb 9 c && leb c 13)

-- What a call leaves behind: the target array and the returned `int`.
pub record Returned : Type 0 where
  pub target : List ℕ
  pub value : ℕ

-- The four symbols of three input bytes.
unfoldable pub group : ℕ → ℕ → ℕ → List ℕ
unfolding symbol
group a b c =
    symbol (a >>> 2)
    ∷ symbol ((bit_and a 0x03 <<< 4) + (b >>> 4))
    ∷ symbol ((bit_and b 0x0f <<< 2) + (c >>> 6))
    ∷ symbol (bit_and c 0x3f)
    ∷ []

-- The last group of one or two bytes, with its padding.
unfoldable pub last_group : List ℕ → List ℕ
unfolding symbol
last_group (a ∷ []) =
    symbol (a >>> 2) ∷ symbol ((bit_and a 0x03 <<< 4) + (0 >>> 4)) ∷ pad ∷ pad ∷ []
last_group (a ∷ b ∷ _) =
    symbol (a >>> 2)
    ∷ symbol ((bit_and a 0x03 <<< 4) + (b >>> 4))
    ∷ symbol ((bit_and b 0x0f <<< 2) + (0 >>> 6))
    ∷ pad
    ∷ []
last_group [] = []

-- The end of `f_b64_ntop`: the NUL is written if it still fits.
unfoldable pub ntop_finish : List ℕ → ℕ → Returned
ntop_finish out targsize =
    if leb targsize (length out)
    then record { target = out; value = minus_one }
    else record { target = out ++ (0 ∷ []); value = u32 (length out) }

-- `f_b64_ntop` from its loop on. `out` is what `target[0 .. datalength)` holds.
unfoldable pub ntop_loop : List ℕ → List ℕ → ℕ → Returned
ntop_loop (a ∷ b ∷ c ∷ src) out targsize =
    let rest = ntop_loop src (out ++ group a b c) targsize in
    if ltb targsize (u64 (length out + 4)) then record { target = out; value = minus_one } else rest
ntop_loop [] out targsize = ntop_finish out targsize
ntop_loop (a ∷ []) out targsize =
    if ltb targsize (u64 (length out + 4))
    then record { target = out; value = minus_one }
    else ntop_finish (out ++ last_group (a ∷ [])) targsize
ntop_loop (a ∷ b ∷ []) out targsize =
    if ltb targsize (u64 (length out + 4))
    then record { target = out; value = minus_one }
    else ntop_finish (out ++ last_group (a ∷ b ∷ [])) targsize

unfoldable pub f_b64_ntop : List ℕ → ℕ → Returned
unfolding ntop_loop
f_b64_ntop src targsize = ntop_loop src [] targsize

-- The decoder's variable `state`: the characters read of the current group.
pub data State : Type 0 where
  state_0 state_1 state_2 state_3 : State

-- The variables of `f_b64_pton`: `target` is `none` for a null pointer.
pub record Decoder : Type 0 where
  pub target : Option (List ℕ)
  pub tarindex : ℕ
  pub state : State

abbrev pub written : Option (List ℕ) → List ℕ
written none = []
written (some t) = t

-- `return (-1)`, with what the target holds by then.
abbrev pub refused : Option (List ℕ) → Returned
refused t = record { target = written t; value = minus_one }

-- One pass of the `switch` on a character of value `v`; `none` is its `return (-1)`.
unfoldable pub put_symbol : State → Option (List ℕ) → ℕ → ℕ → ℕ → Option Decoder
put_symbol state_0 none i targsize v =
    some (record { target = none; tarindex = i; state = state_1 })
put_symbol state_0 (some t) i targsize v =
    if leb targsize i
    then none
    else some (record { target = some (set t i (u8 (v <<< 2))); tarindex = i; state = state_1 })
put_symbol state_1 none i targsize v =
    some (record { target = none; tarindex = u32 (i + 1); state = state_2 })
put_symbol state_1 (some t) i targsize v =
    if leb targsize (u32 (i + 1))
    then none
    else some (record {
      target = some (
          set (set t i (u8 (bit_or (get_or t i 0) (v >>> 4)))) (u32 (i + 1))
            (u8 (bit_and v 0x0f <<< 4)));
      tarindex = u32 (i + 1);
      state = state_2;
    })
put_symbol state_2 none i targsize v =
    some (record { target = none; tarindex = u32 (i + 1); state = state_3 })
put_symbol state_2 (some t) i targsize v =
    if leb targsize (u32 (i + 1))
    then none
    else some (record {
      target = some (
          set (set t i (u8 (bit_or (get_or t i 0) (v >>> 2)))) (u32 (i + 1))
            (u8 (bit_and v 0x03 <<< 6)));
      tarindex = u32 (i + 1);
      state = state_3;
    })
put_symbol state_3 none i targsize v =
    some (record { target = none; tarindex = u32 (i + 1); state = state_0 })
put_symbol state_3 (some t) i targsize v =
    if leb targsize i
    then none
    else some (record {
      target = some (set t i (u8 (bit_or (get_or t i 0) v)));
      tarindex = u32 (i + 1);
      state = state_0;
    })

-- `return (tarindex)`.
abbrev pub accepted : Decoder → Returned
accepted d = record { target = written d.target; value = d.tarindex }

-- `target && target[tarindex] != 0`: bits slopped past the last full byte.
unfoldable pub leftover : Option (List ℕ) → ℕ → Bool
leftover none i = false
leftover (some t) i = if get_or t i 0 == 0 then false else true

-- The case 3 of the `switch` behind the loop: white space only up to the end.
unfoldable pub only_space : List ℕ → Bool
unfolding is_space
only_space [] = true
only_space (zero ∷ cs) = true
only_space (suc c ∷ cs) = is_space (suc c) && only_space cs

unfoldable pub finish_padded : Decoder → List ℕ → Returned
unfolding only_space leftover
finish_padded d cs =
    if only_space cs && (if leftover d.target d.tarindex then false else true)
    then accepted d
    else refused d.target

-- The case 2: spaces, then a second `=`, then as case 3.
unfoldable pub second_pad : Decoder → List ℕ → Returned
unfolding is_space finish_padded
second_pad d [] = refused d.target
second_pad d (zero ∷ cs) = refused d.target
second_pad d (suc c ∷ cs) =
    let rest = second_pad d cs in
    if is_space (suc c) then rest else if suc c == pad then finish_padded d cs else refused d.target

-- The `switch` on a pad character, by the state in which it was met.
unfoldable pub at_pad : State → Decoder → List ℕ → Returned
unfolding second_pad finish_padded
at_pad state_0 d cs = refused d.target
at_pad state_1 d cs = refused d.target
at_pad state_2 d cs = second_pad d cs
at_pad state_3 d cs = finish_padded d cs

-- The end of the string without a pad character.
unfoldable pub at_end : State → Decoder → Returned
at_end state_0 d = accepted d
at_end state_1 d = refused d.target
at_end state_2 d = refused d.target
at_end state_3 d = refused d.target

-- The body of the loop from `strchr` on: `found` is the position of the character, `next` the loop.
unfoldable pub after_symbol : Decoder → ℕ → Option ℕ → (Decoder → Returned) → Returned
after_symbol d targsize found next = elim found [
  | none ↦ refused d.target
  | some v ↦ elim (put_symbol d.state d.target d.tarindex targsize v) [
    | none ↦ refused d.target
    | some d' ↦ next d'
  ]
]

-- The loop over the characters, with what follows it.
unfoldable pub pton_loop : List ℕ → Decoder → ℕ → Returned
pton_loop [] d targsize = at_end d.state d
pton_loop (zero ∷ cs) d targsize = at_end d.state d
pton_loop (suc c ∷ cs) d targsize =
    let skip = pton_loop cs d targsize in
    if is_space (suc c)
    then skip
    else if suc c == pad
    then at_pad d.state d cs
    else after_symbol d targsize (position (suc c)) (λ d'. pton_loop cs d' targsize)

unfoldable pub f_b64_pton : List ℕ → Option (List ℕ) → ℕ → Returned
unfolding pton_loop
f_b64_pton src target targsize =
    pton_loop src (record { target = target; tarindex = 0; state = state_0 }) targsize
