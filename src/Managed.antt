-- ===== src/Managed.antt =====
-- The text of a managed file: what `writeManagedFile` of cmd/void-init/fsutil.go computes from the
-- rendered text and the file that is already there.
pub mod Content
use void_init.Base.{ℕ, ◌+◌, Option, none, some, [], ◌∷◌, ◌++◌, Bytes, codes, length, take, drop}
use void_init.Text.Search.{index}
use void_init.Text.Trim.{trim_right}

-- `userConfigMarker`
abbrev pub user_config_marker : Bytes
user_config_marker = codes "#void-init: user config starts here"

-- `header`: the rendered text up to the end of its first marker, or all of it.
abbrev pub header : Bytes → Bytes → Bytes
header marker rendered = elim (index rendered marker) [
  | none ↦ rendered
  | some i ↦ take (i + length marker) rendered
]

-- `userSection`: what stands behind the first marker of the file that is there.
abbrev pub user_section : Bytes → Bytes → Bytes
user_section marker existing = elim (index existing marker) [
  | none ↦ []
  | some i ↦ drop (i + length marker) existing
]

-- `withSingleTrailingNewline`
unfoldable pub with_single_trailing_newline : Bytes → Bytes
with_single_trailing_newline s = trim_right s ++ b'\n' ∷ []

-- The text that is written over `existing`.
unfoldable pub managed_text : Bytes → Bytes → Bytes → Bytes
unfolding with_single_trailing_newline
managed_text marker rendered existing =
    with_single_trailing_newline (header marker rendered ++ user_section marker existing)
