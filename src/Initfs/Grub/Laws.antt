-- ===== src/Initfs/Grub/Laws.antt =====
-- After the rewrite each fast boot setting holds, and nothing else has changed.
use void_init.Base.{
  ◌≡◌, ◌≢◌, inl, inr, refl, ap, sym, ◌∙◌, subst, Bool, true, false, not, some, List, [], ◌∷◌, ◌++◌,
  any, All, All-append, append-nil, Bytes, codes, equal, equal_refl, Bool-cases, arith,
  if◌then◌else◌,
}
use void_init.Text.Trim.{is_empty}
use void_init.Initfs.Grub.{
  Setting, setting_line, grub_fastboot_settings, assigned_key, set_lines, missing_lines,
  fastboot_lines,
}
use void_init.Initfs.Grub.Settings.{
  keep_if-append, has_key, assigns, assignments, other_lines, Which, setting, key,
  assigned_key-setting_line, round, timeout, style, recordfail, ours, foreign,
}
use void_init.Initfs.Grub.Loop.{set_lines-cons, set_lines-Seen, missing_lines-assignments}

-- Each assignment to the setting's key gives its value, and there is one at least.
abbrev pub Holds : Setting → List Bytes → Type 0
Holds s lines =
    All (λ l. l ≡ setting_line s) (assignments s.key lines) × (assignments s.key lines ≢ [])

append-ne-nil : (x : Bytes) (xs : List Bytes) → xs ++ x ∷ [] ≢ []
append-ne-nil x [] = cc
append-ne-nil x (y ∷ xs) = cc

filled_up :
    (there : Bool) (x : Bytes) (xs : List Bytes)
    → All (λ l. l ≡ x) xs
    → there ≡ not (is_empty xs)
    → All (λ l. l ≡ x) (xs ++ (if there then [] else x ∷ []))
      × (xs ++ (if there then [] else x ∷ []) ≢ [])
filled_up true x [] h e = absurd (cc e)
filled_up true x (y ∷ xs) (h, hs) e = ((h, All-append _ xs [] hs tt), cc)
filled_up false x xs h e = (All-append _ xs (x ∷ []) h (refl, tt), append-ne-nil x xs)

fastboot_lines-Holds_at :
    (w : Which) (lines : List Bytes)
    → Holds (setting w) (fastboot_lines grub_fastboot_settings lines)
unfolding fastboot_lines
fastboot_lines-Holds_at w lines =
    let (now, set) = set_lines grub_fastboot_settings lines [] in
    let seen = set_lines-Seen w lines [] in
    subst (λ l. All (λ m. m ≡ setting_line (setting w)) l × (l ≢ []))
      (sym (
        keep_if-append (assigns (key w)) now (missing_lines grub_fastboot_settings set)
        ∙ ap (λ l. assignments (key w) now ++ l) (missing_lines-assignments w set)))
      (filled_up (any (equal (key w)) set) (setting_line (setting w)) (assignments (key w) now)
        seen.all_set seen.marked)

-- After the rewrite each fast boot setting has an assignment, and none that gives another value,
-- commented out or not.
pub fastboot_lines-Holds :
    (lines : List Bytes)
    → All (λ s. Holds s (fastboot_lines grub_fastboot_settings lines)) grub_fastboot_settings
fastboot_lines-Holds lines = (
  fastboot_lines-Holds_at timeout lines,
  (fastboot_lines-Holds_at style lines, (fastboot_lines-Holds_at recordfail lines, tt)),
)

-- Whether a setting is about the line.
abbrev is_ours : Bytes → Bool
is_ours line = any (λ (s : Setting). assigns s.key line) grub_fastboot_settings

is_ours-some : (w : Which) (line : Bytes) → assigned_key line ≡ some (key w) → is_ours line ≡ true
unfolding equal codes
is_ours-some timeout line e = rw e refl
is_ours-some style line e = rw e refl
is_ours-some recordfail line e = rw e refl

other_lines-set_lines :
    (lines set : List Bytes)
    → other_lines (set_lines grub_fastboot_settings lines set).0 ≡ other_lines lines
other_lines-set_lines [] set = unfold set_lines in refl
other_lines-set_lines (line ∷ lines) set = elim (round line set) [
  | ours w e f ↦
      ap (λ r. other_lines r.0) (set_lines-cons line lines set f)
      ∙ rw
          (
            is_ours-some w line e,
            is_ours-some w (setting_line (setting w)) (assigned_key-setting_line w),
          )
          (other_lines-set_lines lines (key w ∷ set))
  | foreign others f ↦
      ap (λ r. other_lines r.0) (set_lines-cons line lines set f)
      ∙ ap (λ l. if not (is_ours line) then line ∷ l else l) (other_lines-set_lines lines set)
]

other_lines-missing_lines :
    (set : List Bytes) → other_lines (missing_lines grub_fastboot_settings set) ≡ []
unfolding missing_lines
other_lines-missing_lines set = ground (
  arith,
  is_ours-some timeout _ (assigned_key-setting_line timeout),
  is_ours-some style _ (assigned_key-setting_line style),
  is_ours-some recordfail _ (assigned_key-setting_line recordfail),
)

-- The lines that no fast boot setting is about stay, in their order, and no other line of that kind
-- is there.
pub fastboot_lines-other_lines :
    (lines : List Bytes)
    → other_lines (fastboot_lines grub_fastboot_settings lines) ≡ other_lines lines
unfolding fastboot_lines
fastboot_lines-other_lines lines =
    let (now, set) = set_lines grub_fastboot_settings lines [] in
    keep_if-append (λ line. not (is_ours line)) now (missing_lines grub_fastboot_settings set)
    ∙ ap (λ l. other_lines now ++ l) (other_lines-missing_lines set)
    ∙ append-nil (other_lines now)
    ∙ other_lines-set_lines lines []

-- Every assignment to a setting's key gives its value already.
abbrev AllSet : List Bytes → Type 0
AllSet lines = (w : Which) → All (λ l. l ≡ setting_line (setting w)) (assignments (key w) lines)

AllSet-tail : (line : Bytes) (lines : List Bytes) → AllSet (line ∷ lines) → AllSet lines
AllSet-tail line lines h w = elim (Bool-cases (assigns (key w) line)) [
  | inl e ↦ (let both = h w in (rw e at both).1)
  | inr e ↦ (let both = h w in rw e at both)
]

AllSet-head :
    (w : Which) (line : Bytes) (lines : List Bytes)
    → assigned_key line ≡ some (key w)
    → AllSet (line ∷ lines)
    → line ≡ setting_line (setting w)
AllSet-head w line lines e h =
    let both = h w in let own = ap (has_key (key w)) e ∙ equal_refl (key w) in (rw own at both).0

set_lines-fixed :
    (lines set : List Bytes) → AllSet lines → (set_lines grub_fastboot_settings lines set).0 ≡ lines
set_lines-fixed [] set h = unfold set_lines in refl
set_lines-fixed (line ∷ lines) set h = elim (round line set) [
  | ours w e f ↦
      ap (λ r. r.0) (set_lines-cons line lines set f)
      ∙ ap (λ l. l ∷ (set_lines grub_fastboot_settings lines (key w ∷ set)).0)
          (sym (AllSet-head w line lines e h))
      ∙ ap (◌∷◌ line) (set_lines-fixed lines (key w ∷ set) (AllSet-tail line lines h))
  | foreign others f ↦
      ap (λ r. r.0) (set_lines-cons line lines set f)
      ∙ ap (◌∷◌ line) (set_lines-fixed lines set (AllSet-tail line lines h))
]

missing_lines-eq-nil :
    (set : List Bytes)
    → ((w : Which) → any (equal (key w)) set ≡ true)
    → missing_lines grub_fastboot_settings set ≡ []
unfolding missing_lines
missing_lines-eq-nil set h = rw (h timeout, h style, h recordfail) refl

not-is_empty : (xs : List Bytes) → xs ≢ [] → not (is_empty xs) ≡ true
not-is_empty [] ne = absurd (ne refl)
not-is_empty (x ∷ xs) ne = refl

fastboot_lines-fixed :
    (lines : List Bytes)
    → ((w : Which) → Holds (setting w) lines)
    → fastboot_lines grub_fastboot_settings lines ≡ lines
unfolding fastboot_lines
fastboot_lines-fixed lines h =
    let same = set_lines-fixed lines [] (λ w. (h w).0) in
    let marked = λ (w : Which).
      let seen = set_lines-Seen w lines [] in
      seen.marked
      ∙ ap (λ l. not (is_empty (assignments (key w) l))) same
      ∙ not-is_empty (assignments (key w) lines) (h w).1 in
    ap
      (λ l. l ++ missing_lines grub_fastboot_settings (set_lines grub_fastboot_settings lines []).1)
      same
    ∙ ap (λ l. lines ++ l) (missing_lines-eq-nil _ marked)
    ∙ append-nil lines

-- A second rewrite changes nothing.
pub fastboot_lines_idem :
    (lines : List Bytes)
    → fastboot_lines grub_fastboot_settings (fastboot_lines grub_fastboot_settings lines)
      ≡ fastboot_lines grub_fastboot_settings lines
fastboot_lines_idem lines =
    fastboot_lines-fixed (fastboot_lines grub_fastboot_settings lines)
      (λ w. fastboot_lines-Holds_at w lines)
