-- ===== src/Initfs/Grub.antt =====
-- cmd/void-initfs/bootloader.go: the lines of /etc/default/grub that are set for a fast boot.
pub mod Settings
pub mod Loop
pub mod Laws
pub mod Lines
mod Tests
use void_init.Base.{
  ℕ, Bool, true, false, not, ◌&&◌, ◌||◌, Option, none, some, List, [], ◌∷◌, ◌++◌, any, Bytes, codes,
  equal, ◌==◌, leb, if◌then◌else◌,
}
use void_init.Text.Trim.{is_empty}

-- `\s` of `regexp`
abbrev is_blank : ℕ → Bool
is_blank c = c == b' ' || c == b'\t' || c == b'\n' || c == 12 || c == b'\r'

-- `[A-Z_]`
abbrev is_key_byte : ℕ → Bool
is_key_byte c = leb b'A' c && leb c b'Z' || c == b'_'

-- `\s*`
skip_blanks : Bytes → Bytes
skip_blanks [] = []
skip_blanks (c ∷ s) = let rest = skip_blanks s in if is_blank c then rest else c ∷ s

-- `#?`
skip_hash : Bytes → Bytes
skip_hash [] = []
skip_hash (c ∷ s) = if c == b'#' then s else c ∷ s

-- `([A-Z_]+)=`, behind the `key` that is read already. No byte of the pattern's parts is one of the
-- next part, so that there is one way at most to match.
key_from : Bytes → Bytes → Option Bytes
key_from key [] = none
key_from key (c ∷ s) =
    let rest = key_from (key ++ c ∷ []) s in
    if is_key_byte c then rest else if c == b'=' && not (is_empty key) then some key else none

-- `grubDefaultKeyRE.FindStringSubmatch(line)`: the group of the match.
unfoldable pub assigned_key : Bytes → Option Bytes
unfolding skip_blanks skip_hash key_from
assigned_key line = key_from [] (skip_blanks (skip_hash (skip_blanks line)))

pub record Setting : Type 0 where
  pub key : Bytes
  pub value : Bytes

-- `grubFastbootSettings`
abbrev pub grub_fastboot_settings : List Setting
grub_fastboot_settings =
    record { key = codes "GRUB_TIMEOUT"; value = codes "0" }
    ∷ record { key = codes "GRUB_TIMEOUT_STYLE"; value = codes "hidden" }
    ∷ record { key = codes "GRUB_RECORDFAIL_TIMEOUT"; value = codes "0" }
    ∷ []

-- `fmt.Sprintf("%s=%s", s.key, s.value)`
abbrev pub setting_line : Setting → Bytes
setting_line s = s.key ++ codes "=" ++ s.value

-- The loop over the settings at a line with the key `key`: the line, and the keys of `set`.
pub set_key : List Setting → Bytes → Bytes × List Bytes → Bytes × List Bytes
set_key [] key out = out
set_key (s ∷ settings) key (line, set) =
    set_key settings key (if equal key s.key then (setting_line s, s.key ∷ set) else (line, set))

pub set_line : List Setting → Bytes → List Bytes → Bytes × List Bytes
unfolding set_key
set_line settings line set = elim (assigned_key line) [
  | none ↦ (line, set)
  | some key ↦ set_key settings key (line, set)
]

-- The loop over the lines.
pub set_lines : List Setting → List Bytes → List Bytes → List Bytes × List Bytes
unfolding set_line
set_lines settings [] set = ([], set)
set_lines settings (line ∷ lines) set =
    let (now, more) = set_line settings line set in
    let (rest, all) = set_lines settings lines more in (now ∷ rest, all)

-- The lines of the settings whose keys are not in `set`.
pub missing_lines : List Setting → List Bytes → List Bytes
missing_lines [] set = []
missing_lines (s ∷ settings) set =
    let rest = missing_lines settings set in
    if any (equal s.key) set then rest else setting_line s ∷ rest

-- What `setGrubFastboot` makes of the file's lines.
unfoldable pub fastboot_lines : List Setting → List Bytes → List Bytes
unfolding set_lines missing_lines
fastboot_lines settings lines =
    let (now, set) = set_lines settings lines [] in now ++ missing_lines settings set
