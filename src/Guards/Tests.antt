-- ===== src/Guards/Tests.antt =====
-- The guards on small texts.
use droidcli.Common.{after, true, false, ◌≡◌, ◌↔◌, refl, codes}
use droidcli.Guards.{looks_like_destructive_command, looks_like_placeholder_path, to_lower_ascii}
use droidcli.Guards.Binary.{looks_like_mismatched_binary_content}
use droidcli.Guards.Invented.{looks_like_invented_desktop_path}
use droidcli.Guards.Commands.{Spells, looks_like_destructive_command_lem}
use droidcli.Guards.Desktop.{NoToken, substitute_bare_desktop_token, substitute-NoToken}

listing_passes : looks_like_destructive_command (codes "ls -l") ≡ false
unfolding looks_like_destructive_command
listing_passes = refl

placeholder_found : looks_like_placeholder_path (codes "/Path/To/x") ≡ true
unfolding looks_like_placeholder_path
placeholder_found = refl

-- A formatter of source code is called destructive.
clang_format_flagged : looks_like_destructive_command (codes "clang-format -i x.cpp") ≡ true
unfolding looks_like_destructive_command
clang_format_flagged = refl

destructive_example :
    (looks_like_destructive_command (codes "clang-format -i x.cpp") ≡ true)
    ↔ Spells (codes "clang-format -i x.cpp")
destructive_example = looks_like_destructive_command_lem (codes "clang-format -i x.cpp")

plain_text-NoToken : NoToken (codes "dir")
plain_text-NoToken = record {
  no_slash = unfold after to_lower_ascii in refl;
  no_backslash = unfold after to_lower_ascii in refl;
}

desktop_replaced :
    substitute_bare_desktop_token (codes "./Desktop/a") (codes "/home/u/Desktop")
    ≡ codes "/home/u/Desktop/a"
unfolding substitute_bare_desktop_token
desktop_replaced = refl

substitute-NoToken_example :
    substitute_bare_desktop_token (codes "dir") (codes "/home/u/Desktop") ≡ codes "dir"
substitute-NoToken_example =
    substitute-NoToken (codes "dir") (codes "/home/u/Desktop") plain_text-NoToken

text_in_image : looks_like_mismatched_binary_content (codes "C:/a/X.PNG") (codes "hello") ≡ true
unfolding looks_like_mismatched_binary_content
text_in_image = refl

bitmap_kept : looks_like_mismatched_binary_content (codes "x.bmp") (codes "BM6") ≡ false
unfolding looks_like_mismatched_binary_content
bitmap_kept = refl

other_desktop :
    looks_like_invented_desktop_path (codes "C:/Users/me/Desktop/x") (codes "D:/Desktop") ≡ true
unfolding looks_like_invented_desktop_path
other_desktop = refl
