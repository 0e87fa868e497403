-- ===== src/Guards/Binary.antt =====
-- src/reliability/path_guards.cpp: whether a text is written to a file whose extension is that of an image.
use mathlib.Core.List.{reverse}
use droidcli.Common.{Bool, false, not, List, [], ◌∷◌, Bytes, codes, strip, is_some, if◌then◌else◌}
use droidcli.Guards.{to_lower_ascii}

pub record BinarySignature : Type 0 where
  pub extension : Bytes
  pub magic_bytes : Bytes

abbrev pub signature : Bytes → Bytes → BinarySignature
signature extension magic_bytes = record { extension = extension; magic_bytes = magic_bytes }

abbrev pub signatures : List BinarySignature
signatures =
    signature (codes ".png") (137 ∷ 80 ∷ 78 ∷ 71 ∷ 13 ∷ 10 ∷ 26 ∷ 10 ∷ [])
    ∷ signature (codes ".jpg") (255 ∷ 216 ∷ 255 ∷ [])
    ∷ signature (codes ".jpeg") (255 ∷ 216 ∷ 255 ∷ [])
    ∷ signature (codes ".gif") (codes "GIF8")
    ∷ signature (codes ".bmp") (codes "BM")
    ∷ []

unfoldable pub ends_in : Bytes → Bytes → Bool
unfolding strip
ends_in extension path = is_some (strip (reverse extension) (reverse path))

-- The first signature of the path's extension decides.
unfoldable pub mismatched : List BinarySignature → Bytes → Bytes → Bool
unfolding strip ends_in
mismatched [] lowered_path content = false
mismatched (s ∷ ss) lowered_path content =
    if ends_in s.extension lowered_path
    then not (is_some (strip s.magic_bytes content))
    else mismatched ss lowered_path content

unfoldable pub looks_like_mismatched_binary_content : Bytes → Bytes → Bool
unfolding to_lower_ascii mismatched
looks_like_mismatched_binary_content path content =
    mismatched signatures (to_lower_ascii path) content
