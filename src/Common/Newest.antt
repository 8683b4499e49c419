-- ===== src/Common/Newest.antt =====
-- The last items of a list: what a bounded buffer keeps.
use Prim.Native.Nat.{ℕ, zero, suc, ◌+◌, ◌-◌, ◌≤◌, min}
use mathlib.Core.Path.{◌≡◌, refl, ap, sym, ◌∙◌}
use mathlib.Core.List.{List, [], ◌∷◌, ◌++◌}
use native.Mathlib.Omega.{arith}
use sarra.Common.Lists.{length, drop, length-append, length-drop}

module _ {ℓ} {A : Type ℓ} where
  abbrev pub newest : ℕ → List A → List A
  newest n xs = drop (length xs - n) xs

  drop-nil : (k : ℕ) → drop {A = A} k [] ≡ []
  drop-nil zero = refl
  drop-nil (suc k) = refl

  drop-drop : (a b : ℕ) (xs : List A) → drop a (drop b xs) ≡ drop (b + a) xs
  drop-drop a zero xs = ap (λ n. drop n xs) (omega arith)
  drop-drop a (suc b) [] = drop-nil a ∙ sym (drop-nil (suc b + a))
  drop-drop a (suc b) (x ∷ xs) =
      drop-drop a b xs
      ∙ ap (λ n. drop n (x ∷ xs)) (let e : suc (b + a) ≡ suc b + a = omega arith in e)

  pub drop-append : (k : ℕ) (xs ys : List A) → k ≤ length xs → drop k (xs ++ ys) ≡ drop k xs ++ ys
  drop-append zero xs ys h = refl
  drop-append (suc k) [] ys h = absurd (omega arith)
  drop-append (suc k) (x ∷ xs) ys h = drop-append k xs ys (omega arith)

  pub drop-length : (xs ys : List A) → drop (length xs) (xs ++ ys) ≡ ys
  drop-length [] ys = refl
  drop-length (x ∷ xs) ys = drop-length xs ys

  pub newest_all : (n : ℕ) (xs : List A) → length xs ≤ n → newest n xs ≡ xs
  newest_all n xs h = ap (λ k. drop k xs) (let e : length xs - n ≡ 0 = omega arith in e)

  pub length-newest : (n : ℕ) (xs : List A) → length (newest n xs) ≡ min n (length xs)
  length-newest n xs = omega (arith, length-drop (length xs - n) xs)

  -- A buffer may be cut after each new item: the outcome is the same.
  pub newest-newest : (n : ℕ) (xs ys : List A) → newest n (newest n xs ++ ys) ≡ newest n (xs ++ ys)
  newest-newest n xs ys =
      ap (newest n) (sym (drop-append (length xs - n) xs ys (omega arith)))
      ∙ drop-drop (length (drop (length xs - n) (xs ++ ys)) - n) (length xs - n) (xs ++ ys)
      ∙ ap (λ k. drop k (xs ++ ys))
          (omega (arith, length-drop (length xs - n) (xs ++ ys), length-append xs ys))

  -- The newest items of two lists are those of the second, if it has as many.
  pub newest-append : (n : ℕ) (xs ys : List A) → n ≤ length ys → newest n (xs ++ ys) ≡ newest n ys
  newest-append n xs ys h =
      ap (λ k. drop k (xs ++ ys)) (omega (arith, length-append xs ys))
      ∙ sym (drop-drop (length ys - n) (length xs) (xs ++ ys))
      ∙ ap (drop (length ys - n)) (drop-length xs ys)
