-- ===== src/Common/Utf8/RoundTrip.antt =====
-- Decoding what was encoded.
use sarra.Common.Tests.{ltb, leb, ◌==◌, Bool-cases}
use Prim.Native.Nat.{ℕ, suc, ◌+◌, ◌-◌, ◌*◌, ◌/◌, ◌%◌, ◌<◌, ◌≤◌}
use mathlib.Core.Path.{◌≡◌, refl, sym, ap, ◌∙◌}
use mathlib.Core.Logic.{◌⊎◌, inl, inr}
use mathlib.Core.Bool.{false, ◌&&◌}
use mathlib.Core.List.{[], ◌∷◌, ◌++◌, append_assoc}
use native.Mathlib.Omega.{arith}
use sarra.Common.Lists.{All, length, length-append}
use sarra.Common.Text.{Text}
use sarra.Common.Utf8.{
  Bytes, encode_char, encode, State, between, inside, begin, replaced, next, decode_from, decode,
}

-- A code point that is no surrogate
abbrev pub IsScalar : ℕ → Type 0
IsScalar c = (c < 55296) ⊎ ((57343 < c) × (c < 1114112))

continuation :
    (need lo hi bits b : ℕ)
    → lo ≤ b
    → b ≤ hi
    → next (inside (suc (suc need)) lo hi bits) b
      ≡ record { state = inside (suc need) 128 191 (bits * 64 + (b - 128)); done = [] }
unfolding next
continuation need lo hi bits b h k = ground arith

last_byte :
    (lo hi bits b : ℕ)
    → lo ≤ b
    → b ≤ hi
    → next (inside 1 lo hi bits) b ≡ record { state = between; done = (bits * 64 + (b - 128)) ∷ [] }
unfolding next
last_byte lo hi bits b h k = ground arith

decode_char_one :
    (c : ℕ) (bs : Bytes) → c < 128 → decode_from between (c ∷ bs) ≡ c ∷ decode_from between bs
unfolding decode_from next begin
decode_char_one c bs h = ground arith

begin_two :
    (c : ℕ)
    → 128 ≤ c
    → c < 2048
    → begin (192 + c / 64) ≡ record { state = inside 1 128 191 (c / 64); done = [] }
unfolding begin
begin_two c h k = ground arith

-- The state after the first byte of a sequence of three or four: the range of the second byte, which
-- the second byte of the character is in.
begin_three :
    (c : ℕ)
    → 2048 ≤ c
    → c < 65536
    → IsScalar c
    → (lo : ℕ) × (hi : ℕ) × (begin (224 + c / 4096)
        ≡ record { state = inside 2 lo hi (c / 4096); done = [] })
      × (lo ≤ 128 + c / 64 % 64)
      × (128 + c / 64 % 64 ≤ hi)
unfolding begin
begin_three c h k s = elim (Bool-cases (ltb c 4096)) [
  | inl e ↦ (160, 191, ground arith, ground arith, ground arith)
  | inr e ↦ elim (Bool-cases (c / 4096 == 13)) [
    | inl f ↦ (128, 159, ground arith, ground arith, ground arith)
    | inr f ↦ (128, 191, ground arith, ground arith, ground arith)
  ]
]

begin_four :
    (c : ℕ)
    → 65536 ≤ c
    → c < 1114112
    → (lo : ℕ) × (hi : ℕ) × (begin (240 + c / 262144)
        ≡ record { state = inside 3 lo hi (c / 262144); done = [] })
      × (lo ≤ 128 + c / 4096 % 64)
      × (128 + c / 4096 % 64 ≤ hi)
unfolding begin
begin_four c h k = elim (Bool-cases (ltb c 262144)) [
  | inl e ↦ (144, 191, ground arith, ground arith, ground arith)
  | inr e ↦ elim (Bool-cases (c / 262144 == 4)) [
    | inl f ↦ (128, 143, ground arith, ground arith, ground arith)
    | inr f ↦ (128, 191, ground arith, ground arith, ground arith)
  ]
]

module _ (c : ℕ) (bs : Bytes) where
  decode_char_two :
      128 ≤ c
      → c < 2048
      → decode_from between ((192 + c / 64) ∷ (128 + c % 64) ∷ bs) ≡ c ∷ decode_from between bs
  unfolding decode_from
  decode_char_two h k = rw (begin_two c h k) (
      rw (last_byte 128 191 (c / 64) (128 + c % 64) (omega arith) (omega arith))
        (ap (λ d. d ∷ decode_from between bs) (omega arith)))

  decode_char_three :
      2048 ≤ c
      → c < 65536
      → IsScalar c
      → decode_from between ((224 + c / 4096) ∷ (128 + c / 64 % 64) ∷ (128 + c % 64) ∷ bs)
        ≡ c ∷ decode_from between bs
  unfolding decode_from
  decode_char_three h k s =
      let (lo, hi, e, l, u) = begin_three c h k s in
      rw e (
        rw
          (
            continuation 0 lo hi (c / 4096) (128 + c / 64 % 64) l u,
            last_byte 128 191 (c / 4096 * 64 + (128 + c / 64 % 64 - 128)) (128 + c % 64)
                (omega arith) (omega arith),
          )
          (ap (λ d. d ∷ decode_from between bs) (omega arith)))

  decode_char_four :
      65536 ≤ c
      → c < 1114112
      → decode_from between
          ((240 + c / 262144) ∷ (128 + c / 4096 % 64) ∷ (128 + c / 64 % 64) ∷ (128 + c % 64) ∷ bs)
        ≡ c ∷ decode_from between bs
  unfolding decode_from
  decode_char_four h k =
      let (lo, hi, e, l, u) = begin_four c h k in
      rw e (
        rw
          (
            continuation 1 lo hi (c / 262144) (128 + c / 4096 % 64) l u,
            continuation 0 128 191 (c / 262144 * 64 + (128 + c / 4096 % 64 - 128))
                (128 + c / 64 % 64) (omega arith) (omega arith),
            last_byte 128 191
                ((c / 262144 * 64 + (128 + c / 4096 % 64 - 128)) * 64 + (128 + c / 64 % 64 - 128))
                (128 + c % 64) (omega arith) (omega arith),
          )
          (ap (λ d. d ∷ decode_from between bs) (omega arith)))

decode-encode_char :
    (c : ℕ) (bs : Bytes)
    → IsScalar c
    → decode_from between (encode_char c ++ bs) ≡ c ∷ decode_from between bs
unfolding encode_char
decode-encode_char c bs s = elim (Bool-cases (ltb c 128)) [
  | inl e ↦ rw e (decode_char_one c bs (ground arith))
  | inr e ↦ elim (Bool-cases (ltb c 2048)) [
    | inl f ↦ rw (e, f) (decode_char_two c bs (ground arith) (ground arith))
    | inr f ↦ elim (Bool-cases (ltb c 65536)) [
      | inl g ↦
          let h : (leb 55296 c && leb c 57343) ≡ false = ground arith in
          rw (e, f, h, g) (decode_char_three c bs (ground arith) (ground arith) s)
      | inr g ↦
          let h : (leb 55296 c && leb c 57343) ≡ false = ground arith in
          rw (e, f, h, g) (decode_char_four c bs (ground arith) (ground arith))
    ]
  ]
]

-- What follows an encoded text is decoded as if it stood alone.
pub decode-encode :
    (s : Text) (bs : Bytes) → All IsScalar s → decode (encode s ++ bs) ≡ s ++ decode bs
unfolding decode encode
decode-encode [] bs h = refl
decode-encode (c ∷ s) bs (h, hs) =
    ap (decode_from between) (append_assoc (encode_char c) (encode s) bs)
    ∙ decode-encode_char c (encode s ++ bs) h
    ∙ ap (λ t. c ∷ t) (decode-encode s bs hs)

pub encode-append : (s t : Text) → encode (s ++ t) ≡ encode s ++ encode t
unfolding encode
encode-append [] t = refl
encode-append (c ∷ s) t =
    rw (encode-append s t) (sym (append_assoc (encode_char c) (encode s) (encode t)))

-- A broken sequence is a character to come.
abbrev pending : State → ℕ
pending between = 0
pending (inside need lo hi bits) = 1

next_cost : (s : State) (b : ℕ) → length (next s b).done + pending (next s b).state ≤ pending s + 1
unfolding next replaced begin
next_cost between b = ground arith
next_cost (inside need lo hi bits) b = ground arith

length-decode_from-le : (s : State) (bs : Bytes) → length (decode_from s bs) ≤ pending s + length bs
unfolding decode_from
length-decode_from-le between [] = omega arith
length-decode_from-le (inside need lo hi bits) [] = omega arith
length-decode_from-le s (b ∷ bs) = omega (
  arith,
  next_cost s b,
  length-append (next s b).done (decode_from (next s b).state bs),
  length-decode_from-le (next s b).state bs,
)

-- There are at most as many characters as bytes.
pub length-decode-le : (bs : Bytes) → length (decode bs) ≤ length bs
unfolding decode
length-decode-le bs = omega (arith, length-decode_from-le between bs)
