-- ===== src/Guards/Invented.antt =====
-- src/reliability/path_guards.cpp: whether a path names a desktop that is not the real one.
use droidcli.Common.{
  ℕ, zero, suc, Bool, true, false, ◌&&◌, ◌||◌, none, some, [], ◌∷◌, Bytes, codes, strip, is_some,
  is_empty, if◌then◌else◌,
}
use droidcli.Guards.{to_lower_ascii, is_path_separator}

abbrev pub ends_component : Bytes → Bool
ends_component [] = true
ends_component (c ∷ s) = is_path_separator c

-- The search for a component "desktop": `left_boundary` says whether one may begin here, and `skip` counts
-- the bytes of a match that are still to be passed over.
unfoldable pub component_from : Bool → ℕ → Bytes → Bool
unfolding strip
component_from left_boundary skip [] = false
component_from left_boundary (suc skip) (c ∷ s) = component_from (is_path_separator c) skip s
component_from left_boundary zero (c ∷ s) = elim (strip (codes "desktop") (c ∷ s)) [
  | some after ↦ (left_boundary && ends_component after) || component_from (is_path_separator c) 6 s
  | none ↦ component_from (is_path_separator c) 0 s
]

unfoldable pub looks_like_invented_desktop_path : Bytes → Bytes → Bool
unfolding to_lower_ascii strip component_from
looks_like_invented_desktop_path resolved_path real_desktop_path =
    let lowered_path = to_lower_ascii resolved_path in
    if is_empty real_desktop_path
    then false
    else if is_some (strip (to_lower_ascii real_desktop_path) lowered_path)
    then false
    else component_from true 0 lowered_path
