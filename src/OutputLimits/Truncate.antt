-- ===== src/OutputLimits/Truncate.antt =====
-- What `truncate_output` keeps of a text.
use sarra.Common.{
  ℕ, zero, suc, ◌+◌, ◌-◌, ◌/◌, ◌≤◌, ◌<◌, ◌≡◌, refl, ap, sym, ◌∙◌, [], ◌∷◌, ◌++◌, arith, length, All,
  take, drop, length-append, length-take, length-drop, inl,
}
use mathlib.Core.List.{append-nil}
use sarra.Common.Text.{Text, codes, strip, strip_chars, lstrip, rstrip}
use sarra.Common.Utf8.{Bytes, encode, encode_char, decode}
use sarra.Common.Utf8.RoundTrip.{IsScalar, decode-encode, encode-append, length-decode-le}
use sarra.OutputLimits.{truncation_marker, truncate_output}

abbrev pub IsAscii : ℕ → Type 0
IsAscii c = c < 128

encode_ascii : (s : Text) → All IsAscii s → encode s ≡ s
unfolding encode encode_char
encode_ascii [] h = refl
encode_ascii (c ∷ s) (h, hs) = ground (arith, h, encode_ascii s hs)

All-IsScalar : (s : Text) → All IsAscii s → All IsScalar s
All-IsScalar [] h = tt
All-IsScalar (c ∷ s) (h, hs) = (inl (omega arith), All-IsScalar s hs)

decode_ascii : (s : Text) → All IsAscii s → decode s ≡ s
unfolding decode
decode_ascii s h =
    ap decode (sym (encode_ascii s h) ∙ sym (append-nil (encode s)))
    ∙ decode-encode s [] (All-IsScalar s h)
    ∙ append-nil s

All-take : (n : ℕ) (s : Text) → All IsAscii s → All IsAscii (take n s)
All-take zero s h = tt
All-take (suc n) [] h = tt
All-take (suc n) (c ∷ s) (h, hs) = (h, All-take n s hs)

All-drop : (n : ℕ) (s : Text) → All IsAscii s → All IsAscii (drop n s)
All-drop zero s h = h
All-drop (suc n) [] h = tt
All-drop (suc n) (c ∷ s) (h, hs) = All-drop n s hs

marker_bytes : length (encode truncation_marker) ≡ 24
unfolding encode encode_char
marker_bytes = refl

-- The marker without its newlines
abbrev pub notice : Text
notice = codes "… [output truncated]"

-- The parts of the bytes that are kept around the marker.
abbrev pub head_of : ℕ → Bytes → Bytes
head_of n bytes = take ((n - 24) / 2) bytes

abbrev pub tail_of : ℕ → Bytes → Bytes
tail_of n bytes = drop (length bytes - (n - 24 - (n - 24) / 2)) bytes

module _ (text : Text) (n : ℕ) where
  truncate_small : 0 < n → length (encode text) ≤ n → truncate_output text n ≡ text
  unfolding truncate_output
  truncate_small p h = ground arith

  truncate_tiny : 0 < n → n ≤ 24 → n < length (encode text) → truncate_output text n ≡ notice
  unfolding truncate_output strip strip_chars lstrip rstrip
  truncate_tiny p h k = ground (arith, marker_bytes)

  truncate_cut :
      24 < n
      → n < length (encode text)
      → truncate_output text n
        ≡ decode (head_of n (encode text))
          ++ (truncation_marker ++ decode (tail_of n (encode text)))
  unfolding truncate_output
  truncate_cut p k = rw marker_bytes (ground arith)

-- The characters of a text that was cut, around the marker's 22
length-cut :
    (text : Text) (n : ℕ)
    → 24 < n
    → length (
        decode (head_of n (encode text)) ++ (truncation_marker ++ decode (tail_of n (encode text))))
      ≤ n
length-cut text n p =
    let bytes = encode text in
    omega (
      arith,
      length-append (decode (head_of n bytes)) (truncation_marker ++ decode (tail_of n bytes)),
      length-decode-le (head_of n bytes),
      length-decode-le (tail_of n bytes),
      length-take ((n - 24) / 2) bytes,
      length-drop (length bytes - (n - 24 - (n - 24) / 2)) bytes,
    )

bytes_around :
    (h t : Text)
    → All IsAscii h
    → All IsAscii t
    → length (encode (decode h ++ (truncation_marker ++ decode t))) ≡ length h + 24 + length t
bytes_around h t ah at =
    rw (decode_ascii h ah, decode_ascii t at)
      (omega (
        arith,
        ap length (encode-append h (truncation_marker ++ t)),
        ap length (encode-append truncation_marker t),
        length-append (encode h) (encode (truncation_marker ++ t)),
        length-append (encode truncation_marker) (encode t),
        ap length (encode_ascii h ah),
        ap length (encode_ascii t at),
        marker_bytes,
      ))

-- The bytes of an ASCII text that was cut: the marker has 24.
bytes-cut :
    (text : Text) (n : ℕ)
    → 24 < n
    → n < length (encode text)
    → All IsAscii text
    → length (
        encode (
          decode (head_of n (encode text))
          ++ (truncation_marker ++ decode (tail_of n (encode text)))))
      ≡ n
bytes-cut text n p k a = rw (encode_ascii text a) (
    bytes_around (head_of n text) (tail_of n text) (All-take ((n - 24) / 2) text a)
      (All-drop (length text - (n - 24 - (n - 24) / 2)) text a)
    ∙ omega (
      arith,
      ap length (encode_ascii text a),
      length-take ((n - 24) / 2) text,
      length-drop (length text - (n - 24 - (n - 24) / 2)) text,
    ))

-- Truncation by its cases. A cap of nothing leaves nothing, and a text whose encoding is within the
-- cap is left as it is. A longer one, under a cap of more than the marker's 24 bytes, becomes its
-- beginning, the marker and its end, and has at most as many characters as the cap has bytes; if it
-- is ASCII, its encoding has exactly as many bytes. Under a smaller cap it becomes the notice
-- alone, whose encoding has 22 bytes however small the cap is.
pub truncate_output_lem :
    (text : Text) (max_bytes : ℕ)
    → (max_bytes ≡ 0 → truncate_output text max_bytes ≡ [])
      × (0 < max_bytes → length (encode text) ≤ max_bytes → truncate_output text max_bytes ≡ text)
      × (24 < max_bytes
          → max_bytes < length (encode text)
          → (truncate_output text max_bytes
              ≡ decode (head_of max_bytes (encode text))
                ++ (truncation_marker ++ decode (tail_of max_bytes (encode text))))
            × (length (truncate_output text max_bytes) ≤ max_bytes)
            × (All IsAscii text → length (encode (truncate_output text max_bytes)) ≡ max_bytes))
      × (0 < max_bytes
          → max_bytes ≤ 24
          → max_bytes < length (encode text)
          → length (encode (truncate_output text max_bytes)) ≡ 22)
unfolding encode encode_char
truncate_output_lem text n = (
  (λ e. unfold truncate_output in ground arith),
  (λ p h. truncate_small text n p h),
  (λ p k. rw (truncate_cut text n p k) (refl, length-cut text n p, λ a. bytes-cut text n p k a)),
  λ p h k. rw (truncate_tiny text n p h k) refl,
)
