-- ===== src/Common/Utf8.antt =====
-- `str.encode("utf-8", errors="replace")` and `bytes.decode("utf-8", errors="replace")`: a surrogate
-- is encoded as a question mark, and every maximal part of a broken sequence is decoded as U+FFFD.
pub mod RoundTrip
use Prim.Native.Nat.{ℕ, zero, suc, ◌+◌, ◌-◌, ◌*◌, ◌/◌, ◌%◌}
use mathlib.Core.Bool.{Bool, true, false, ◌&&◌}
use mathlib.Core.List.{List, [], ◌∷◌, ◌++◌}
use sarra.Common.Tests.{ltb, leb, ◌==◌, if◌then◌else◌}
use sarra.Common.Text.{Text}

abbrev pub Bytes : Type 0
Bytes = List ℕ

-- 63 is the question mark.
unfoldable pub encode_char : ℕ → Bytes
encode_char c =
    if ltb c 128
    then c ∷ []
    else if ltb c 2048
    then (192 + c / 64) ∷ (128 + c % 64) ∷ []
    else if leb 55296 c && leb c 57343
    then 63 ∷ []
    else if ltb c 65536
    then (224 + c / 4096) ∷ (128 + c / 64 % 64) ∷ (128 + c % 64) ∷ []
    else (240 + c / 262144) ∷ (128 + c / 4096 % 64) ∷ (128 + c / 64 % 64) ∷ (128 + c % 64) ∷ []

unfoldable pub encode : Text → Bytes
encode [] = []
encode (c ∷ s) = encode_char c ++ encode s

-- Between two characters, or inside one: how many bytes it still needs, the range of the next one, and
-- the bits read so far.
pub data State : Type 0 where
  between : State
  inside : ℕ → ℕ → ℕ → ℕ → State

-- What a byte that begins a character leads to, and the characters it completes.
pub record Step : Type 0 where
  pub state : State
  pub done : Text

abbrev lead : ℕ → ℕ → ℕ → ℕ → Step
lead need lo hi bits = record { state = inside need lo hi bits; done = [] }

unfoldable pub begin : ℕ → Step
begin b =
    if ltb b 128
    then record { state = between; done = b ∷ [] }
    else if ltb b 194
    then record { state = between; done = 65533 ∷ [] }
    else if ltb b 224
    then lead 1 128 191 (b - 192)
    else if b == 224
    then lead 2 160 191 0
    else if b == 237
    then lead 2 128 159 13
    else if ltb b 240
    then lead 2 128 191 (b - 224)
    else if b == 240
    then lead 3 144 191 0
    else if ltb b 244
    then lead 3 128 191 (b - 240)
    else if b == 244
    then lead 3 128 143 4
    else record { state = between; done = 65533 ∷ [] }

-- A broken sequence ends before the byte that does not fit, which is read again.
unfoldable pub replaced : Step → Step
replaced s = record s { done = 65533 ∷ s.done }

unfoldable pub next : State → ℕ → Step
unfolding begin replaced
next between b = begin b
next (inside need lo hi bits) b =
    if leb lo b && leb b hi
    then (if need == 1
        then record { state = between; done = (bits * 64 + (b - 128)) ∷ [] }
        else record { state = inside (need - 1) 128 191 (bits * 64 + (b - 128)); done = [] })
    else replaced (begin b)

unfoldable pub decode_from : State → Bytes → Text
unfolding next
decode_from between [] = []
decode_from (inside need lo hi bits) [] = 65533 ∷ []
decode_from s (b ∷ bs) = (next s b).done ++ decode_from (next s b).state bs

unfoldable pub decode : Bytes → Text
unfolding decode_from
decode = decode_from between
