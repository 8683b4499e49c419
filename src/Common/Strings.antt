-- ===== src/Common/Strings.antt =====
-- `str.strip` and `str.lower` over native strings: the six ASCII white-space characters, and the
-- letters A to Z.
use Prim.Native.Char.{Char, code}
use Prim.Native.Nat.{ℕ, zero, suc}
use Prim.Native.String.{String, [], ◌∷◌}
use mathlib.Core.Path.{◌≡◌, refl, ap}
use mathlib.Core.Logic.{◌⊎◌, inl, inr}
use mathlib.Core.Bool.{Bool, true, false, not, ◌||◌, ◌&&◌}
use native.Mathlib.Omega.{arith}
use sarra.Common.Tests.{◌==◌, leb, if◌then◌else◌, Bool-cases}

abbrev is_space : Char → Bool
is_space c = code c == 32 || (leb 9 (code c) && leb (code c) 13)

unfoldable pub lstrip : String → String
lstrip [] = []
lstrip (c ∷ s) = let rest = lstrip s in if is_space c then rest else c ∷ s

unfoldable pub rstrip : String → String
rstrip [] = []
rstrip (c ∷ s) = elim (rstrip s) [ [] ↦ if is_space c then [] else c ∷ [] | d ∷ r ↦ c ∷ d ∷ r ]

unfoldable pub strip : String → String
unfolding lstrip rstrip
strip s = rstrip (lstrip s)

-- The character of the second text that stands where `c` stands in the first.
unfoldable pub translate : String → String → Char → Char
translate (a ∷ from) (b ∷ to) c = if code a == code c then b else translate from to c
translate _ _ c = c

unfoldable pub lower : String → String
unfolding translate
lower [] = []
lower (c ∷ s) = translate "ABCDEFGHIJKLMNOPQRSTUVWXYZ" "abcdefghijklmnopqrstuvwxyz" c ∷ lower s

-- Whether the text holds the character of this code.
abbrev pub holds_code : ℕ → String → Bool
holds_code n [] = false
holds_code n (c ∷ s) = (code c == n) || holds_code n s

-- `s[:n]`
abbrev pub prefix : ℕ → String → String
prefix zero s = []
prefix (suc n) [] = []
prefix (suc n) (c ∷ s) = c ∷ prefix n s

-- What a translation leaves is left by it again, if no character that it writes is one that it reads.
abbrev outside : String → String → Bool
outside from [] = true
outside from (d ∷ to) = not (holds_code (code d) from) && outside from to

translate-unread :
    (from to : String) (c : Char) → holds_code (code c) from ≡ false → translate from to c ≡ c
unfolding translate
translate-unread [] to c h = refl
translate-unread (a ∷ from) [] c h = refl
translate-unread (a ∷ from) (b ∷ to) c h = ground (arith, translate-unread from to c)

translate-read :
    (read from to : String) (c : Char)
    → outside read to ≡ true
    → (translate from to c ≡ c) ⊎ (holds_code (code (translate from to c)) read ≡ false)
unfolding translate
translate-read read [] to c h = inl refl
translate-read read (a ∷ from) [] c h = inl refl
translate-read read (a ∷ from) (b ∷ to) c h = elim (Bool-cases (code a == code c)) [
  | inl e ↦ rw e (inr (ground arith))
  | inr e ↦ rw e (translate-read read from to c (ground arith))
]

translate-translate :
    (from to : String) (c : Char)
    → outside from to ≡ true
    → translate from to (translate from to c) ≡ translate from to c
translate-translate from to c h = elim (translate-read from from to c h) [
  | inl e ↦ ap (translate from to) e
  | inr e ↦ translate-unread from to (translate from to c) e
]

pub lower-lower : (s : String) → lower (lower s) ≡ lower s
unfolding lower
lower-lower [] = refl
lower-lower (c ∷ s) =
    rw
      (
        translate-translate "ABCDEFGHIJKLMNOPQRSTUVWXYZ" "abcdefghijklmnopqrstuvwxyz" c refl,
        lower-lower s,
      )
      refl
