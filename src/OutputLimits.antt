-- ===== src/OutputLimits.antt =====
-- syte/output_limits.py: caps for the output of processes that is kept in memory. A stream is the list
-- of what its reads return until the end: lines for a text stream, chunks that are not empty for a
-- binary one. `read_async_stream_limited` is the same loop over awaited reads. `strip` is that of ASCII.
mod Binary
mod Lines
mod Truncate
mod Tests
use sarra.Common.{
  ℕ, zero, ◌+◌, ◌-◌, ◌/◌, String, Bool, true, false, Option, none, some, List, [], ◌∷◌, ◌++◌,
  length, take, drop, ltb, leb, if◌then◌else◌,
}
use sarra.Common.Text.{Text, codes, strip}
use sarra.Common.Utf8.{Bytes, encode, decode}

abbrev pub truncation_marker : Text
truncation_marker = codes "\n… [output truncated]\n"

unfoldable pub truncate_output : Text → ℕ → Text
truncate_output text max_bytes =
    let encoded = encode text in
    let marker = encode truncation_marker in
    let budget = max_bytes - length marker in
    let head = budget / 2 in
    if leb max_bytes 0
    then []
    else if leb (length encoded) max_bytes
    then text
    else if leb max_bytes (length marker)
    then strip truncation_marker
    else decode (take head encoded)
      ++ (truncation_marker ++ decode (drop (length encoded - (budget - head)) encoded))

-- The chunks kept so far joined, the bytes counted, and whether the cap was met
pub record Capture : Type 0 where
  pub chunks : Text
  pub captured : ℕ
  pub truncated : Bool

-- One line of the loop of `read_text_stream_limited`
unfoldable pub capture_line : ℕ → Text → Capture → Capture
capture_line max_bytes line c =
    let line_bytes = length (encode line) in
    let remaining = max_bytes - c.captured in
    if c.truncated
    then c
    else if ltb max_bytes (c.captured + line_bytes)
    then (record c {
      chunks = c.chunks ++ (decode (take remaining (encode line)) ++ truncation_marker);
      truncated = true;
    })
    else record c { chunks = c.chunks ++ line; captured = c.captured + line_bytes }

unfoldable pub capture_lines : ℕ → List Text → Capture → Capture
capture_lines max_bytes [] c = c
capture_lines max_bytes (line ∷ lines) c =
    capture_lines max_bytes lines (capture_line max_bytes line c)

-- The captured text, whether it was cut, and the lines that `on_line` was given
unfoldable pub read_text_stream_limited : List Text → ℕ → Text × Bool × List Text
read_text_stream_limited lines max_bytes =
    let c =
      capture_lines max_bytes lines (record { chunks = []; captured = 0; truncated = false }) in
    (strip c.chunks, c.truncated, lines)

-- The loop of `read_binary_stream_limited` over the chunks that are still to be read: what it returns,
-- and the chunks left unread, which the inner loop drains.
unfoldable pub read_chunks : ℕ → Bytes → List Bytes → Bytes × Bool
read_chunks max_bytes buf [] = (buf, false)
read_chunks max_bytes buf (chunk ∷ chunks) =
    let rest = read_chunks max_bytes (buf ++ chunk) chunks in
    if ltb max_bytes (length buf + length chunk)
    then (buf ++ take (max_bytes - length buf) chunk, true)
    else rest

unfoldable pub read_binary_stream_limited : List Bytes → ℕ → Bytes × Bool
unfolding read_chunks
read_binary_stream_limited chunks max_bytes = read_chunks max_bytes [] chunks

unfoldable pub read_async_stream_limited : Option (List Bytes) → ℕ → Bytes × Bool
unfolding read_chunks
read_async_stream_limited none max_bytes = ([], false)
read_async_stream_limited (some chunks) max_bytes = read_chunks max_bytes [] chunks
