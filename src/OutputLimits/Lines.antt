-- ===== src/OutputLimits/Lines.antt =====
-- What the reader of a text stream keeps.
use sarra.Common.{
  ℕ, ◌+◌, ◌-◌, ◌≤◌, ◌<◌, ◌≡◌, refl, ap, sym, ◌∙◌, true, false, List, [], ◌∷◌, ◌++◌, arith, length,
  All, All-append, take, ltb, leb, if◌then◌else◌, length-append, Bool-cases, inl, inr,
}
use mathlib.Core.Path.{subst}
use mathlib.Core.List.{append_assoc, append-nil}
use sarra.Common.Text.{Text, strip}
use sarra.OutputLimits.Binary.{take-append, take-append_left}
use sarra.Common.Utf8.RoundTrip.{IsScalar, decode-encode, encode-append}
use sarra.Common.Utf8.{Bytes, encode, decode}
use sarra.OutputLimits.{
  truncation_marker, Capture, capture_line, capture_lines, read_text_stream_limited,
}

-- All that the stream gives.
abbrev pub all_lines : List Text → Text
all_lines [] = []
all_lines (line ∷ lines) = line ++ all_lines lines

-- A text under the cap, or as much of it as the cap allows and the marker.
abbrev pub captured_of : ℕ → Text → Text
captured_of n text =
    if leb (length (encode text)) n
    then text
    else decode (take n (encode text)) ++ truncation_marker

capture_truncated :
    (n : ℕ) (lines : List Text) (kept : Text) (captured : ℕ)
    → capture_lines n lines (record { chunks = kept; captured = captured; truncated = true })
      ≡ record { chunks = kept; captured = captured; truncated = true }
unfolding capture_lines capture_line
capture_truncated n [] kept captured = refl
capture_truncated n (line ∷ lines) kept captured = capture_truncated n lines kept captured

-- The part of a text that lies past the cap after whole lines: those are decoded as they were.
decode_cut :
    (n : ℕ) (kept line rest : Text)
    → All IsScalar kept
    → length (encode kept) ≤ n
    → n < length (encode kept) + length (encode line)
    → kept ++ decode (take (n - length (encode kept)) (encode line))
      ≡ decode (take n (encode (kept ++ (line ++ rest))))
decode_cut n kept line rest s h k = sym (
    rw (encode-append kept (line ++ rest), encode-append line rest)
      (ap decode (
          take-append n (encode kept) (encode line ++ encode rest) h
          ∙ ap (λ (t : Bytes). encode kept ++ t)
              (take-append_left (n - length (encode kept)) (encode line) (encode rest)
                (omega arith)))
        ∙ decode-encode kept (take (n - length (encode kept)) (encode line)) s))

module _ (n : ℕ) (line kept : Text) (captured : ℕ) where
  capture_over :
      n < captured + length (encode line)
      → capture_line n line (record { chunks = kept; captured = captured; truncated = false })
        ≡ record {
          chunks = kept ++ (decode (take (n - captured) (encode line)) ++ truncation_marker);
          captured = captured;
          truncated = true;
        }
  unfolding capture_line
  capture_over h = ground arith

  capture_fits :
      captured + length (encode line) ≤ n
      → capture_line n line (record { chunks = kept; captured = captured; truncated = false })
        ≡ record {
          chunks = kept ++ line;
          captured = captured + length (encode line);
          truncated = false;
        }
  unfolding capture_line
  capture_fits h = ground arith

captured_over :
    (n : ℕ) (text : Text)
    → n < length (encode text)
    → captured_of n text ≡ decode (take n (encode text)) ++ truncation_marker
captured_over n text h = ground arith

captured_fits : (n : ℕ) (text : Text) → length (encode text) ≤ n → captured_of n text ≡ text
captured_fits n text h = ground arith

abbrev AsCaptured : ℕ → Text → Capture → Type 0
AsCaptured n text c = (c.chunks ≡ captured_of n text) × (c.truncated ≡ ltb n (length (encode text)))

length-encode-append :
    (s t : Text) → length (encode (s ++ t)) ≡ length (encode s) + length (encode t)
length-encode-append s t = ap length (encode-append s t) ∙ length-append (encode s) (encode t)

-- The first line that does not fit
cut_captured :
    (n : ℕ) (kept line rest : Text) (captured : ℕ)
    → All IsScalar kept
    → captured ≡ length (encode kept)
    → captured ≤ n
    → n < captured + length (encode line)
    → AsCaptured n (kept ++ (line ++ rest)) (record {
      chunks = kept ++ (decode (take (n - captured) (encode line)) ++ truncation_marker);
      captured = captured;
      truncated = true;
    })
cut_captured n kept line rest captured s e h k =
    let long : n < length (encode (kept ++ (line ++ rest))) =
      omega (arith, length-encode-append kept (line ++ rest), length-encode-append line rest) in
    (
      sym (
          captured_over n (kept ++ (line ++ rest)) long
          ∙ ap (λ (t : Text). t ++ truncation_marker)
              (sym (decode_cut n kept line rest s (omega arith) (omega arith)))
          ∙ append_assoc kept (decode (take (n - length (encode kept)) (encode line)))
              truncation_marker
          ∙ ap (λ k. kept ++ (decode (take (n - k) (encode line)) ++ truncation_marker)) (sym e)),
      ground arith,
    )

All-left : (xs ys : Text) → All IsScalar (xs ++ ys) → All IsScalar xs × All IsScalar ys
All-left [] ys h = (tt, h)
All-left (x ∷ xs) ys (p, h) = let (l, r) = All-left xs ys h in ((p, l), r)

capture_lines_lem :
    (n : ℕ) (lines : List Text) (kept : Text) (captured : ℕ)
    → All IsScalar kept
    → All IsScalar (all_lines lines)
    → captured ≡ length (encode kept)
    → captured ≤ n
    → AsCaptured n
        (kept ++ all_lines lines)
        (capture_lines n lines (record { chunks = kept; captured = captured; truncated = false }))
unfolding capture_lines
capture_lines_lem n [] kept captured s sl e h =
    rw (append-nil kept) (sym (captured_fits n kept (omega arith)), ground arith)
capture_lines_lem n (line ∷ lines) kept captured s sl e h =
    let goal =
      λ (c : Capture). AsCaptured n (kept ++ (line ++ all_lines lines)) (capture_lines n lines c) in
    elim (Bool-cases (ltb n (captured + length (encode line)))) [
      | inl f ↦ subst goal (sym (capture_over n line kept captured (ground arith))) (
          subst (AsCaptured n (kept ++ (line ++ all_lines lines)))
            (sym (
              capture_truncated n lines
                (kept ++ (decode (take (n - captured) (encode line)) ++ truncation_marker))
                captured))
            (cut_captured n kept line (all_lines lines) captured s e h (ground arith)))
      | inr f ↦ subst goal (sym (capture_fits n line kept captured (ground arith))) (
          subst
            (λ (t : Text). AsCaptured n t (
              capture_lines n lines (record {
                chunks = kept ++ line;
                captured = captured + length (encode line);
                truncated = false;
              })))
            (append_assoc kept line (all_lines lines))
            (capture_lines_lem n lines (kept ++ line) (captured + length (encode line))
              (All-append IsScalar kept line s (All-left line (all_lines lines) sl).0)
              (All-left line (all_lines lines) sl).1 (omega (arith, length-encode-append kept line))
              (ground arith)))
    ]

-- With a cap of any size, on lines of text whose code points are no surrogates: what is returned is
-- the whole text, without surrounding white space, if its encoding is within the cap; otherwise it
-- is what the first `max_bytes` bytes of its encoding decode to, followed by the marker, stripped
-- likewise. The flag tells which, and every line is passed on.
pub read_text_stream_limited_lem :
    (lines : List Text) (max_bytes : ℕ)
    → All IsScalar (all_lines lines)
    → read_text_stream_limited lines max_bytes ≡ (
      strip (captured_of max_bytes (all_lines lines)),
      ltb max_bytes (length (encode (all_lines lines))),
      lines,
    )
unfolding read_text_stream_limited
read_text_stream_limited_lem lines n s =
    let (e, f) = capture_lines_lem n lines [] 0 tt s (unfold encode in refl) (omega arith) in
    rw (e, f) refl
