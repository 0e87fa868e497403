-- ===== src/Guards/Patterns.antt =====
-- src/reliability/command_guards.cpp: the texts that the guard on destructive commands is about, and the
-- patterns of the code.
use droidcli.Common.{ℕ, some, ◌≡◌, refl, Bytes, codes, get_elem?, All}
use droidcli.Guards.{destructive_patterns}

-- The lower-case texts that the guard is about: deletes, disks, terminations and fork bombs.
pub data IsDestructive : Bytes → Type 0 where
  rm_rf : IsDestructive (codes "rm -rf")
  rm_fr : IsDestructive (codes "rm -fr")
  rm_r_f : IsDestructive (codes "rm -r -f")
  rm_f_r : IsDestructive (codes "rm -f -r")
  rd : IsDestructive (codes "rd /s")
  rmdir : IsDestructive (codes "rmdir /s")
  del_f_s : IsDestructive (codes "del /f /s")
  del_s_f : IsDestructive (codes "del /s /f")
  remove_item : IsDestructive (codes "remove-item -recurse -force")
  format : IsDestructive (codes "format ")
  diskpart : IsDestructive (codes "diskpart")
  mkfs : IsDestructive (codes "mkfs")
  dd : IsDestructive (codes "dd if=")
  fdisk : IsDestructive (codes "fdisk")
  taskkill : IsDestructive (codes "taskkill /f /im *")
  shutdown_slash_r : IsDestructive (codes "shutdown /r")
  shutdown_slash_s : IsDestructive (codes "shutdown /s")
  shutdown_r : IsDestructive (codes "shutdown -r")
  shutdown_h : IsDestructive (codes "shutdown -h")
  fork_bomb : IsDestructive (codes ":(){ :|:& };:")
  fork_bomb_tight : IsDestructive (codes ":(){:|:&};:")

-- The place of each of the texts among the patterns.
pub place : (n : Bytes) → IsDestructive n → (i : ℕ) × (get_elem? destructive_patterns i ≡ some n)
place _ rm_rf = (0, refl)
place _ rm_fr = (1, refl)
place _ rm_r_f = (2, refl)
place _ rm_f_r = (3, refl)
place _ rd = (4, refl)
place _ rmdir = (5, refl)
place _ del_f_s = (6, refl)
place _ del_s_f = (7, refl)
place _ remove_item = (8, refl)
place _ format = (9, refl)
place _ diskpart = (10, refl)
place _ mkfs = (11, refl)
place _ dd = (12, refl)
place _ fdisk = (13, refl)
place _ taskkill = (14, refl)
place _ shutdown_slash_r = (15, refl)
place _ shutdown_slash_s = (16, refl)
place _ shutdown_r = (17, refl)
place _ shutdown_h = (18, refl)
place _ fork_bomb = (19, refl)
place _ fork_bomb_tight = (20, refl)

-- Every pattern is one of the texts.
pub patterns-IsDestructive : All IsDestructive destructive_patterns
patterns-IsDestructive = (
  rm_rf,
  (
    rm_fr,
    (
      rm_r_f,
      (
        rm_f_r,
        (
          rd,
          (
            rmdir,
            (
              del_f_s,
              (
                del_s_f,
                (
                  remove_item,
                  (
                    format,
                    (
                      diskpart,
                      (
                        mkfs,
                        (
                          dd,
                          (
                            fdisk,
                            (
                              taskkill,
                              (
                                shutdown_slash_r,
                                (
                                  shutdown_slash_s,
                                  (shutdown_r, (shutdown_h, (fork_bomb, (fork_bomb_tight, tt)))),
                                ),
                              ),
                            ),
                          ),
                        ),
                      ),
                    ),
                  ),
                ),
              ),
            ),
          ),
        ),
      ),
    ),
  ),
)
