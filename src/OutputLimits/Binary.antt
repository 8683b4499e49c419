-- ===== src/OutputLimits/Binary.antt =====
-- What the binary readers return, whatever the chunks.
use sarra.Common.{
  ℕ, zero, suc, ◌+◌, ◌-◌, ◌≤◌, ◌<◌, ◌≡◌, refl, ap, sym, ◌∙◌, Bool, true, false, none, some, List,
  [], ◌∷◌, ◌++◌, arith, length, take, ltb, length-append, Bool-cases, inl, inr,
}
use mathlib.Core.List.{append_assoc, append-nil}
use sarra.Common.Utf8.{Bytes}
use sarra.OutputLimits.{read_chunks, read_binary_stream_limited, read_async_stream_limited}

-- All that the stream would give.
abbrev pub joined : List Bytes → Bytes
joined [] = []
joined (chunk ∷ chunks) = chunk ++ joined chunks

module _ {ℓ} {A : Type ℓ} where
  pub take_all : (n : ℕ) (xs : List A) → length xs ≤ n → take n xs ≡ xs
  take_all zero [] h = refl
  take_all (suc n) [] h = refl
  take_all zero (x ∷ xs) h = absurd (omega arith)
  take_all (suc n) (x ∷ xs) h = ap (λ (t : List A). x ∷ t) (take_all n xs (omega arith))

  pub take-append :
      (n : ℕ) (xs ys : List A) → length xs ≤ n → take n (xs ++ ys) ≡ xs ++ take (n - length xs) ys
  take-append n [] ys h = ap (λ k. take k ys) (omega arith)
  take-append zero (x ∷ xs) ys h = absurd (omega arith)
  take-append (suc n) (x ∷ xs) ys h =
      ap (λ (t : List A). x ∷ t)
        (take-append n xs ys (omega arith) ∙ ap (λ k. xs ++ take k ys) (omega arith))

  -- What lies past the first `n` items does not matter to them.
  pub take-append_left : (n : ℕ) (xs ys : List A) → n ≤ length xs → take n (xs ++ ys) ≡ take n xs
  take-append_left zero xs ys h = refl
  take-append_left (suc n) [] ys h = absurd (omega arith)
  take-append_left (suc n) (x ∷ xs) ys h =
      ap (λ (t : List A). x ∷ t) (take-append_left n xs ys (omega arith))

-- The cap in one cut.
abbrev pub capped : ℕ → Bytes → Bytes × Bool
capped n bytes = (take n bytes, ltb n (length bytes))

capped_of :
    (n : ℕ) (bytes kept : Bytes) (cut : Bool)
    → kept ≡ take n bytes
    → cut ≡ ltb n (length bytes)
    → (kept, cut) ≡ capped n bytes
capped_of n bytes kept cut e f = rw (e, f) refl

module _ (n : ℕ) where
  read_full :
      (buf chunk rest : Bytes)
      → length buf ≤ n
      → n < length buf + length chunk
      → (buf ++ take (n - length buf) chunk, true) ≡ capped n (buf ++ (chunk ++ rest))
  read_full buf chunk rest h lt =
      capped_of n (buf ++ (chunk ++ rest)) _ _
        (sym (
          take-append n buf (chunk ++ rest) h
          ∙ ap (λ (t : Bytes). buf ++ t)
              (take-append_left (n - length buf) chunk rest (omega arith))))
        (ground (arith, length-append buf (chunk ++ rest), length-append chunk rest))

  read_chunks_lem :
      (buf : Bytes) (chunks : List Bytes)
      → length buf ≤ n
      → read_chunks n buf chunks ≡ capped n (buf ++ joined chunks)
  unfolding read_chunks
  read_chunks_lem buf [] h =
      capped_of n (buf ++ []) buf false
        (sym (append-nil buf) ∙ sym (take_all n (buf ++ []) (omega (arith, length-append buf []))))
        (ground (arith, length-append buf []))
  read_chunks_lem buf (chunk ∷ chunks) h = elim (Bool-cases (ltb n (length buf + length chunk))) [
    | inl e ↦ rw e (read_full buf chunk (joined chunks) h (ground arith))
    | inr e ↦ rw e (
        read_chunks_lem (buf ++ chunk) chunks (ground (arith, length-append buf chunk))
        ∙ ap (capped n) (append_assoc buf chunk (joined chunks)))
  ]

-- However the output of a process is cut into chunks, the binary readers return its first `max_bytes`
-- bytes, and tell whether it had more. The asynchronous one returns nothing without a stream, and the
-- same as the other with one.
pub read_binary_stream_limited_lem :
    (chunks : List Bytes) (max_bytes : ℕ)
    → (read_binary_stream_limited chunks max_bytes
        ≡ (take max_bytes (joined chunks), ltb max_bytes (length (joined chunks))))
      × (read_async_stream_limited none max_bytes ≡ ([], false))
      × (read_async_stream_limited (some chunks) max_bytes
          ≡ read_binary_stream_limited chunks max_bytes)
unfolding read_binary_stream_limited read_async_stream_limited
read_binary_stream_limited_lem chunks max_bytes =
    (read_chunks_lem max_bytes [] chunks (omega arith), refl, refl)
