-- ===== src/Guards.antt =====
-- src/reliability/command_guards.cpp and src/reliability/path_guards.cpp: the guards on what a model asks
-- for. `std::tolower` is that of the "C" locale.
pub mod Patterns
pub mod Commands
pub mod Paths
pub mod Desktop
pub mod Invented
pub mod Binary
mod Tests
use droidcli.Common.{
  ℕ, ◌+◌, Bool, true, false, not, ◌&&◌, ◌||◌, List, [], ◌∷◌, ◌++◌, Bytes, codes, contains, is_empty,
  any, map, leb, ◌==◌, if◌then◌else◌,
}

unfoldable pub lower_char : ℕ → ℕ
lower_char c = if leb b'A' c && leb c b'Z' then c + 32 else c

unfoldable pub to_lower_ascii : Bytes → Bytes
unfolding lower_char
to_lower_ascii [] = []
to_lower_ascii (c ∷ s) = lower_char c ∷ to_lower_ascii s

abbrev pub destructive_patterns : List Bytes
destructive_patterns =
    codes "rm -rf"
    ∷ codes "rm -fr"
    ∷ codes "rm -r -f"
    ∷ codes "rm -f -r"
    ∷ codes "rd /s"
    ∷ codes "rmdir /s"
    ∷ codes "del /f /s"
    ∷ codes "del /s /f"
    ∷ codes "remove-item -recurse -force"
    ∷ codes "format "
    ∷ codes "diskpart"
    ∷ codes "mkfs"
    ∷ codes "dd if="
    ∷ codes "fdisk"
    ∷ codes "taskkill /f /im *"
    ∷ codes "shutdown /r"
    ∷ codes "shutdown /s"
    ∷ codes "shutdown -r"
    ∷ codes "shutdown -h"
    ∷ codes ":(){ :|:& };:"
    ∷ codes ":(){:|:&};:"
    ∷ []

-- The loop over the patterns.
unfoldable pub matches_any : List Bytes → Bytes → Bool
unfolding contains
matches_any [] s = false
matches_any (p ∷ ps) s = contains p s || matches_any ps s

unfoldable pub looks_like_destructive_command : Bytes → Bool
unfolding to_lower_ascii matches_any
looks_like_destructive_command command = matches_any destructive_patterns (to_lower_ascii command)

abbrev pub placeholder_patterns : List Bytes
placeholder_patterns =
    codes "path/to/"
    ∷ codes "path\\to\\"
    ∷ codes "<"
    ∷ codes "your_file"
    ∷ codes "yourfile"
    ∷ codes "example.txt"
    ∷ codes "filename.ext"
    ∷ codes "username"
    ∷ []

unfoldable pub looks_like_placeholder_path : Bytes → Bool
unfolding to_lower_ascii matches_any
looks_like_placeholder_path path = matches_any placeholder_patterns (to_lower_ascii path)

abbrev pub is_path_separator : ℕ → Bool
is_path_separator c = c == b'/' || c == b'\\'

-- `back()` of a text that is not empty
unfoldable pub ends_in_separator : Bytes → Bool
ends_in_separator [] = false
ends_in_separator (c ∷ []) = is_path_separator c
ends_in_separator (c ∷ d ∷ s) = ends_in_separator (d ∷ s)

abbrev pub has_separator : Bytes → Bool
has_separator s = any is_path_separator s

unfoldable pub default_bare_filename_to_desktop : Bytes → Bytes → Bytes
unfolding ends_in_separator
default_bare_filename_to_desktop path desktop_path =
    if is_empty path || is_empty desktop_path
    then path
    else if has_separator path
    then path
    else desktop_path ++ ((if ends_in_separator desktop_path then [] else codes "\\") ++ path)
