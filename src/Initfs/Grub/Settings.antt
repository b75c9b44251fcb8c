-- ===== src/Initfs/Grub/Settings.antt =====
-- The three fast boot settings, and what one round of the loop over the lines does.
use void_init.Base.{
  ◌≡◌, ◌⊎◌, inl, inr, refl, ap, ◌∙◌, Bool, true, false, not, Option, none, some, List, [], ◌∷◌,
  ◌++◌, any, Bytes, codes, equal, equal_iff, Option-cases, Bool-cases, arith, if◌then◌else◌,
}
use void_init.Initfs.Grub.{
  Setting, setting_line, grub_fastboot_settings, assigned_key, set_key, set_line,
}

abbrev pub keep_if {ℓ} : {A : Type ℓ} → (A → Bool) → List A → List A
keep_if p [] = []
keep_if p (x ∷ xs) = let rest = keep_if p xs in if p x then x ∷ rest else rest

pub keep_if-append {ℓ} :
    {A : Type ℓ} (p : A → Bool) (xs ys : List A)
    → keep_if p (xs ++ ys) ≡ keep_if p xs ++ keep_if p ys
keep_if-append p [] ys = refl
keep_if-append p (x ∷ xs) ys = ground (arith, keep_if-append p xs ys)

abbrev pub has_key : Bytes → Option Bytes → Bool
has_key key none = false
has_key key (some k) = equal k key

-- Whether the line is an assignment to the key, commented out or not.
abbrev pub assigns : Bytes → Bytes → Bool
assigns key line = has_key key (assigned_key line)

abbrev pub assignments : Bytes → List Bytes → List Bytes
assignments key = keep_if (assigns key)

-- The lines that no fast boot setting is about.
abbrev pub other_lines : List Bytes → List Bytes
other_lines =
    keep_if (λ line. not (any (λ (s : Setting). assigns s.key line) grub_fastboot_settings))

-- The three settings.
pub data Which : Type 0 where
  timeout style recordfail : Which

abbrev pub setting : Which → Setting
setting timeout = record { key = codes "GRUB_TIMEOUT"; value = codes "0" }
setting style = record { key = codes "GRUB_TIMEOUT_STYLE"; value = codes "hidden" }
setting recordfail = record { key = codes "GRUB_RECORDFAIL_TIMEOUT"; value = codes "0" }

abbrev pub key : Which → Bytes
key w = let s = setting w in s.key

pub assigned_key-setting_line : (w : Which) → assigned_key (setting_line (setting w)) ≡ some (key w)
unfolding assigned_key codes
assigned_key-setting_line timeout = refl
assigned_key-setting_line style = refl
assigned_key-setting_line recordfail = refl

pub same_or_apart :
    (v w : Which) → (v ≡ w) ⊎ ((equal (key v) (key w) ≡ false) × (equal (key w) (key v) ≡ false))
unfolding equal codes
same_or_apart timeout timeout = inl refl
same_or_apart timeout style = inr (refl, refl)
same_or_apart timeout recordfail = inr (refl, refl)
same_or_apart style timeout = inr (refl, refl)
same_or_apart style style = inl refl
same_or_apart style recordfail = inr (refl, refl)
same_or_apart recordfail timeout = inr (refl, refl)
same_or_apart recordfail style = inr (refl, refl)
same_or_apart recordfail recordfail = inl refl

pub set_key_own :
    (w : Which) (line : Bytes) (set : List Bytes)
    → set_key grub_fastboot_settings (key w) (line, set) ≡ (setting_line (setting w), key w ∷ set)
unfolding set_key equal codes
set_key_own timeout line set = refl
set_key_own style line set = refl
set_key_own recordfail line set = refl

pub set_key_other :
    (k line : Bytes) (set : List Bytes)
    → equal k (key timeout) ≡ false
    → equal k (key style) ≡ false
    → equal k (key recordfail) ≡ false
    → set_key grub_fastboot_settings k (line, set) ≡ (line, set)
unfolding set_key
set_key_other k line set a b c = rw (a, b, c) refl

-- One round of the loop: the line is one setting's, or none's.
pub data Round (line : Bytes) (set : List Bytes) : Type 0 where
  ours :
      (w : Which)
      → assigned_key line ≡ some (key w)
      → set_line grub_fastboot_settings line set ≡ (setting_line (setting w), key w ∷ set)
      → Round line set
  foreign :
      ((w : Which) → assigns (key w) line ≡ false)
      → set_line grub_fastboot_settings line set ≡ (line, set)
      → Round line set

pub apart :
    (k : Bytes)
    → equal k (key timeout) ≡ false
    → equal k (key style) ≡ false
    → equal k (key recordfail) ≡ false
    → (w : Which) → equal k (key w) ≡ false
apart k a b c timeout = a
apart k a b c style = b
apart k a b c recordfail = c

pub set_line-some :
    (line : Bytes) {k : Bytes} (set : List Bytes)
    → assigned_key line ≡ some k
    → set_line grub_fastboot_settings line set ≡ set_key grub_fastboot_settings k (line, set)
unfolding set_line
set_line-some line set e = rw (set_line, e) refl

pub ours_at :
    (w : Which) (line : Bytes) {k : Bytes} (set : List Bytes)
    → assigned_key line ≡ some k
    → equal k (key w) ≡ true
    → Round line set
ours_at w line {k} set e h =
    let same = (equal_iff k (key w)).0 h in
    ours w (e ∙ ap some same) (
      set_line-some line set e
      ∙ ap (λ j. set_key grub_fastboot_settings j (line, set)) same
      ∙ set_key_own w line set)

pub key_cases : (line k : Bytes) (set : List Bytes) → assigned_key line ≡ some k → Round line set
key_cases line k set e = elim (Bool-cases (equal k (key timeout))) [
  | inl h ↦ ours_at timeout line set e h
  | inr a ↦ elim (Bool-cases (equal k (key style))) [
    | inl h ↦ ours_at style line set e h
    | inr b ↦ elim (Bool-cases (equal k (key recordfail))) [
      | inl h ↦ ours_at recordfail line set e h
      | inr c ↦
          foreign (λ w. rw e (apart k a b c w))
            (set_line-some line set e ∙ set_key_other k line set a b c)
    ]
  ]
]

pub round : (line : Bytes) (set : List Bytes) → Round line set
unfolding set_line
round line set = elim (Option-cases (assigned_key line)) [
  | inl e ↦ foreign (λ w. rw e refl) (rw (set_line, e) refl)
  | inr (k, e) ↦ key_cases line k set e
]
