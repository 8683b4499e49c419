-- ===== src/Common/Text.antt =====
-- The string methods of Python that the program calls, over lists of code points. `lower` changes
-- the letters A to Z only, and `strip` removes the six ASCII white-space characters.
use Prim.Native.Nat.{ℕ, ◌+◌}
use Prim.Native.Char.{code}
use Prim.Native.String.{String}
use mathlib.Core.Path.{◌≡◌, refl}
use mathlib.Core.Logic.{◌↔◌}
use mathlib.Core.Bool.{Bool, true, false, ◌&&◌, ◌||◌}
use mathlib.Core.List.{List, [], ◌∷◌, ◌++◌, map}
use native.Mathlib.Omega.{arith}
use sarra.Common.Tests.{◌==◌, leb, if◌then◌else◌}

abbrev pub Text : Type 0
Text = List ℕ

-- The code points of a literal.
abbrev pub codes : String → Text
codes String.[] = []
codes (String.◌∷◌ c s) = code c ∷ codes s

unfoldable pub text_eq : Text → Text → Bool
text_eq [] [] = true
text_eq (a ∷ s) (b ∷ t) = a == b && text_eq s t
text_eq _ _ = false

pub text_eq_iff : (s t : Text) → (text_eq s t ≡ true) ↔ (s ≡ t)
unfolding text_eq
text_eq_iff [] [] = ground arith
text_eq_iff [] (b ∷ t) = ground arith
text_eq_iff (a ∷ s) [] = ground arith
text_eq_iff (a ∷ s) (b ∷ t) = ground (arith, text_eq_iff s t)

pub text_eq_refl : (s : Text) → text_eq s s ≡ true
text_eq_refl s = (text_eq_iff s s).1 refl

-- s.startswith(p)
unfoldable pub starts_with : Text → Text → Bool
starts_with s [] = true
starts_with [] (b ∷ p) = false
starts_with (a ∷ s) (b ∷ p) = a == b && starts_with s p

-- s.endswith(p)
unfoldable pub ends_with : Text → Text → Bool
unfolding text_eq
ends_with [] p = text_eq [] p
ends_with (a ∷ s) p = text_eq (a ∷ s) p || ends_with s p

abbrev pub is_space : ℕ → Bool
is_space c = c == 32 || (leb 9 c && leb c 13)

abbrev pub lower_char : ℕ → ℕ
lower_char c = if leb b'A' c && leb c b'Z' then c + 32 else c

unfoldable pub lower : Text → Text
lower = map lower_char

-- s.lstrip(chars) and s.rstrip(chars), for the characters that pass the test
unfoldable pub lstrip : (ℕ → Bool) → Text → Text
lstrip p [] = []
lstrip p (c ∷ s) = let rest = lstrip p s in if p c then rest else c ∷ s

unfoldable pub rstrip : (ℕ → Bool) → Text → Text
rstrip p [] = []
rstrip p (c ∷ s) = elim (rstrip p s) [ [] ↦ if p c then [] else c ∷ [] | d ∷ r ↦ c ∷ d ∷ r ]

unfoldable pub strip_chars : (ℕ → Bool) → Text → Text
unfolding lstrip rstrip
strip_chars p s = rstrip p (lstrip p s)

unfoldable pub strip : Text → Text
unfolding strip_chars
strip = strip_chars is_space

-- s.split(sep) for a separator of one character: the pieces, of which there is at least one
unfoldable pub split_aux : ℕ → Text → Text → List Text
split_aux sep cur [] = cur ∷ []
split_aux sep cur (c ∷ s) =
    let cut = cur ∷ split_aux sep [] s in
    let go_on = split_aux sep (cur ++ c ∷ []) s in if c == sep then cut else go_on

unfoldable pub split : ℕ → Text → List Text
unfolding split_aux
split sep s = split_aux sep [] s

-- The pieces of a text between the characters that pass, after the characters read so far
unfoldable pub pieces : (ℕ → Bool) → Text → Text → List Text
pieces p cur [] = cur ∷ []
pieces p cur (c ∷ s) =
    let cut = cur ∷ pieces p [] s in
    let go_on = pieces p (cur ++ (c ∷ [])) s in if p c then cut else go_on
