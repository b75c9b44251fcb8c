-- ===== src/Initfs/Grub/Lines.antt =====
-- The lines that are written to /etc/default/grub are lines: none has a newline.
use void_init.Base.{
  ◌≡◌, ◌≢◌, refl, inl, inr, Bool-cases, none, some, Option, List, [], ◌∷◌, any, All, All-append,
  Bytes, codes, equal,
}
use void_init.Text.Parts.{split, join, Lacks, any-Lacks, split-join, split-All}
use void_init.Initfs.Grub.{
  Setting, setting_line, grub_fastboot_settings, assigned_key, set_key, set_line, set_lines,
  missing_lines, fastboot_lines,
}
use void_init.Initfs.Grub.Settings.{setting, timeout, style, recordfail}

abbrev pub IsLine : Bytes → Type 0
IsLine = Lacks b'\n'

abbrev AreLines : List Setting → Type 0
AreLines = All (λ s. IsLine (setting_line s))

set_key-IsLine :
    (settings : List Setting) (key line : Bytes) (set : List Bytes)
    → AreLines settings
    → IsLine line
    → IsLine (set_key settings key (line, set)).0
unfolding set_key
set_key-IsLine [] key line set hs h = h
set_key-IsLine (s ∷ settings) key line set (h', hs) h = elim (Bool-cases (equal key s.key)) [
  | inl e ↦ rw (e, set_key) (set_key-IsLine settings key (setting_line s) (s.key ∷ set) hs h')
  | inr e ↦ rw (e, set_key) (set_key-IsLine settings key line set hs h)
]

set_line-IsLine :
    (settings : List Setting) (line : Bytes) (set : List Bytes)
    → AreLines settings
    → IsLine line
    → IsLine (set_line settings line set).0
unfolding set_line
set_line-IsLine settings line set hs h = found (assigned_key line)
  where
    found :
        (o : Option Bytes)
        → IsLine
            (elim o as (λ _. Bytes × List Bytes) [
              | none ↦ (line, set)
              | some key ↦ set_key settings key (line, set)
            ]).0
    found none = h
    found (some key) = set_key-IsLine settings key line set hs h

set_lines-IsLine :
    (settings : List Setting) (lines set : List Bytes)
    → AreLines settings
    → All IsLine lines
    → All IsLine (set_lines settings lines set).0
unfolding set_lines
set_lines-IsLine settings [] set hs h = tt
set_lines-IsLine settings (line ∷ lines) set hs (h, h') = (
  set_line-IsLine settings line set hs h,
  set_lines-IsLine settings lines (set_line settings line set).1 hs h',
)

missing_lines-IsLine :
    (settings : List Setting) (set : List Bytes)
    → AreLines settings
    → All IsLine (missing_lines settings set)
unfolding missing_lines
missing_lines-IsLine [] set hs = tt
missing_lines-IsLine (s ∷ settings) set (h, hs) =
    let rest = missing_lines-IsLine settings set hs in
    elim (Bool-cases (any (equal s.key) set)) [ inl e ↦ rw e rest | inr e ↦ rw e (h, rest) ]

settings-AreLines : AreLines grub_fastboot_settings
unfolding codes
settings-AreLines = (
  any-Lacks b'\n' (setting_line (setting timeout)) refl,
  (
    any-Lacks b'\n' (setting_line (setting style)) refl,
    (any-Lacks b'\n' (setting_line (setting recordfail)) refl, tt),
  ),
)

fastboot_lines-IsLine :
    (lines : List Bytes)
    → All IsLine lines
    → All IsLine (fastboot_lines grub_fastboot_settings lines)
unfolding fastboot_lines
fastboot_lines-IsLine lines h =
    let (now, set) = set_lines grub_fastboot_settings lines [] in
    All-append _ now (missing_lines grub_fastboot_settings set)
      (set_lines-IsLine grub_fastboot_settings lines [] settings-AreLines h)
      (missing_lines-IsLine grub_fastboot_settings set settings-AreLines)

-- What is written has just the lines that were made, if there are any.
pub split-fastboot_lines :
    (content : Bytes)
    → fastboot_lines grub_fastboot_settings (split content b'\n') ≢ []
    → split (join (fastboot_lines grub_fastboot_settings (split content b'\n')) (b'\n' ∷ [])) b'\n'
      ≡ fastboot_lines grub_fastboot_settings (split content b'\n')
split-fastboot_lines content ne =
    split-join _ b'\n' ne (fastboot_lines-IsLine _ (split-All content b'\n'))
