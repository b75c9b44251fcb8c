-- ===== src/Initfs/Grub/Loop.antt =====
-- The loop over the lines, and the lines that are put behind them, as one setting sees them.
use void_init.Base.{
  ◌≡◌, inl, inr, refl, ap, sym, ◌∙◌, subst, Bool, true, false, not, ◌||◌, List, [], ◌∷◌, any, All,
  Bytes, codes, equal, equal_refl, Bool-cases, if◌then◌else◌,
}
use void_init.Text.Trim.{is_empty}
use void_init.Initfs.Grub.{
  Setting, setting_line, grub_fastboot_settings, set_line, set_lines, missing_lines,
}
use void_init.Initfs.Grub.Settings.{
  has_key, assigns, assignments, Which, setting, key, assigned_key-setting_line, same_or_apart,
  apart, round, timeout, style, recordfail, ours, foreign,
}

-- What the loop over the lines leaves, as one setting sees it: `set` is what it began with.
pub record Seen (w : Which) (set : List Bytes) (out : List Bytes × List Bytes) : Type 0 where
  pub all_set : All (λ l. l ≡ setting_line (setting w)) (assignments (key w) out.0)
  pub marked :
      any (equal (key w)) out.1
      ≡ (any (equal (key w)) set || not (is_empty (assignments (key w) out.0)))

pub or_false : (b : Bool) → b ≡ (b || false)
or_false true = refl
or_false false = refl

pub or_true : (b : Bool) → true ≡ (b || true)
or_true true = refl
or_true false = refl

pub assigns-setting_line :
    (v w : Which) → assigns (key w) (setting_line (setting v)) ≡ equal (key v) (key w)
assigns-setting_line v w = ap (has_key (key w)) (assigned_key-setting_line v)

pub Seen-own :
    (w : Which) (set : List Bytes) (out : List Bytes × List Bytes)
    → Seen w (key w ∷ set) out
    → Seen w set (setting_line (setting w) ∷ out.0, out.1)
Seen-own w set out h =
    let own = assigns-setting_line w w ∙ equal_refl (key w) in
    record {
      all_set = rw own (refl, h.all_set);
      marked = rw own (h.marked ∙ rw (equal_refl (key w)) (or_true _));
    }

pub Seen-other :
    (w : Which) (line : Bytes) (more set : List Bytes) (out : List Bytes × List Bytes)
    → assigns (key w) line ≡ false
    → any (equal (key w)) more ≡ any (equal (key w)) set
    → Seen w more out
    → Seen w set (line ∷ out.0, out.1)
Seen-other w line more set out e same h = record {
  all_set = rw e h.all_set;
  marked = rw e (rw same at (h.marked));
}

pub set_lines-cons :
    (line : Bytes) (lines set : List Bytes) {now : Bytes} {more : List Bytes}
    → set_line grub_fastboot_settings line set ≡ (now, more)
    → set_lines grub_fastboot_settings (line ∷ lines) set ≡ (
      now ∷ (set_lines grub_fastboot_settings lines more).0,
      (set_lines grub_fastboot_settings lines more).1,
    )
unfolding set_lines
set_lines-cons line lines set f = rw f refl

pub set_lines-Seen :
    (w : Which) (lines set : List Bytes) → Seen w set (set_lines grub_fastboot_settings lines set)
unfolding set_lines
set_lines-Seen w [] set = record { all_set = tt; marked = or_false _ }
set_lines-Seen w (line ∷ lines) set = elim (round line set) [
  | ours v e f ↦ elim (same_or_apart v w) [
    | inl p ↦ subst (Seen w set) (sym (set_lines-cons line lines set f)) (
        subst
          (λ u. Seen w set (
            setting_line (setting u) ∷ (set_lines grub_fastboot_settings lines (key u ∷ set)).0,
            (set_lines grub_fastboot_settings lines (key u ∷ set)).1,
          ))
          (sym p) (Seen-own w set _ (set_lines-Seen w lines (key w ∷ set))))
    | inr (q, r) ↦ subst (Seen w set) (sym (set_lines-cons line lines set f)) (
        Seen-other w _ (key v ∷ set) set _ (assigns-setting_line v w ∙ q) (rw r refl)
          (set_lines-Seen w lines (key v ∷ set)))
  ]
  | foreign others f ↦
      subst (Seen w set) (sym (set_lines-cons line lines set f))
        (Seen-other w line set set _ (others w) refl (set_lines-Seen w lines set))
]

pub missing_lines-skip :
    (v w : Which) (settings : List Setting) (set : List Bytes)
    → equal (key v) (key w) ≡ false
    → assignments (key w) (missing_lines (setting v ∷ settings) set)
      ≡ assignments (key w) (missing_lines settings set)
unfolding missing_lines
missing_lines-skip v w settings set apart = elim (Bool-cases (any (equal (key v)) set)) [
  | inl e ↦ rw e refl
  | inr e ↦ rw (e, assigned_key-setting_line v, apart) refl
]

pub missing_lines-hit :
    (w : Which) (settings : List Setting) (set : List Bytes)
    → assignments (key w) (missing_lines settings set) ≡ []
    → assignments (key w) (missing_lines (setting w ∷ settings) set)
      ≡ (if any (equal (key w)) set then [] else setting_line (setting w) ∷ [])
unfolding missing_lines
missing_lines-hit w settings set none_left = elim (Bool-cases (any (equal (key w)) set)) [
  | inl e ↦ rw e none_left
  | inr e ↦ rw (e, assigned_key-setting_line w, equal_refl (key w), none_left) refl
]

pub missing_lines-assignments :
    (w : Which) (set : List Bytes)
    → assignments (key w) (missing_lines grub_fastboot_settings set)
      ≡ (if any (equal (key w)) set then [] else setting_line (setting w) ∷ [])
unfolding equal codes
missing_lines-assignments timeout set = missing_lines-hit timeout _ set (
    missing_lines-skip style timeout _ set refl
    ∙ missing_lines-skip recordfail timeout [] set refl
    ∙ (unfold missing_lines in refl))
missing_lines-assignments style set =
    missing_lines-skip timeout style _ set refl
    ∙ missing_lines-hit style _ set
        (missing_lines-skip recordfail style [] set refl ∙ (unfold missing_lines in refl))
missing_lines-assignments recordfail set =
    missing_lines-skip timeout recordfail _ set refl
    ∙ missing_lines-skip style recordfail _ set refl
    ∙ missing_lines-hit recordfail [] set (unfold missing_lines in refl)
