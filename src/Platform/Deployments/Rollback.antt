-- ===== src/Platform/Deployments/Rollback.antt =====
-- What `rollback_candidates` offers.
use sarra.Common.{String, ◌≡◌, Bool, false, List, [], ◌∷◌, any, str_eq}
use sarra.Platform.Codec.{Row}
use sarra.Platform.Deployments.{image_tag, is_taken}

-- The tags of the rows are there, differ from those seen before, and from each other.
abbrev pub Distinct : List String → List Row → Type 0
Distinct seen [] = Unit
Distinct seen (row ∷ rows) =
    (is_taken (image_tag row) seen ≡ false) × Distinct (image_tag row ∷ seen) rows

abbrev pub has_tag : String → List Row → Bool
has_tag tag = any (λ row. str_eq (image_tag row) tag)
