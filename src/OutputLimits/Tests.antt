-- ===== src/OutputLimits/Tests.antt =====
-- The limits on a short text and a few chunks.
use sarra.Common.{◌≤◌, ◌≡◌, true, false, none, some, List, [], ◌∷◌, ◌++◌, arith, length, take}
use sarra.Common.Text.{Text, codes, strip}
use sarra.Common.Utf8.{encode, encode_char, decode}
use sarra.OutputLimits.{
  truncate_output, read_text_stream_limited, read_binary_stream_limited, read_async_stream_limited,
  truncation_marker,
}
use sarra.OutputLimits.Binary.{read_binary_stream_limited_lem}
use sarra.OutputLimits.Lines.{read_text_stream_limited_lem}
use sarra.OutputLimits.Truncate.{truncate_output_lem, head_of, tail_of}

abbrev sentence : Text
sentence = codes "a line of output that is longer than the cap"

-- 6 bytes are left for the text: three at each end.
truncate_output_lem_example :
    (truncate_output sentence 30
      ≡ decode (head_of 30 (encode sentence))
        ++ (truncation_marker ++ decode (tail_of 30 (encode sentence))))
    × (length (truncate_output sentence 30) ≤ 30)
    × (length (encode (truncate_output sentence 30)) ≡ 30)
truncate_output_lem_example =
    let (a, b, c, d) = truncate_output_lem sentence 30 in
    let (e, f, g) = c (omega arith) (unfold encode encode_char in omega arith) in
    (e, f, g (ground arith))

abbrev output : List Text
output = codes "one\n" ∷ codes "two\n" ∷ codes "three\n" ∷ []

read_text_stream_limited_lem_example : read_text_stream_limited output 6 ≡ (
  strip (decode (take 6 (encode (codes "one\ntwo\nthree\n"))) ++ truncation_marker),
  true,
  output,
)
unfolding encode encode_char
read_text_stream_limited_lem_example = read_text_stream_limited_lem output 6 (ground arith)

read_binary_stream_limited_lem_example :
    (read_binary_stream_limited ((1 ∷ 2 ∷ []) ∷ (3 ∷ 4 ∷ []) ∷ []) 3 ≡ (1 ∷ 2 ∷ 3 ∷ [], true))
    × (read_async_stream_limited none 3 ≡ ([], false))
    × (read_async_stream_limited (some ((1 ∷ 2 ∷ []) ∷ (3 ∷ 4 ∷ []) ∷ [])) 3
        ≡ read_binary_stream_limited ((1 ∷ 2 ∷ []) ∷ (3 ∷ 4 ∷ []) ∷ []) 3)
read_binary_stream_limited_lem_example =
    read_binary_stream_limited_lem ((1 ∷ 2 ∷ []) ∷ (3 ∷ 4 ∷ []) ∷ []) 3
