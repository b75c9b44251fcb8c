-- ===== src/Initfs/BashPrompt/Laws.antt =====
-- What becomes of the lines of a `.bashrc`.
use void_init.Base.{
  ◌≡◌, ◌≢◌, refl, ap, sym, subst, ◌⊎◌, ◌∙◌, true, false, Bool-cases, inl, inr, List, [], ◌∷◌, map,
  any, All, Bytes, codes, Result, ok, err, is_not_exist, arith,
}
use void_init.Os.{Os}
use void_init.Text.Parts.{Lacks, split, split-join, split-ne-nil, split-All, any-Lacks}
use void_init.Initfs.BashPrompt.{
  bash_prompt_line, bashrc_template, is_ps1_line, has_ps1_line, prompt_instead, replace_ps1_lines,
  prompt_content,
}

is_ps1_line-prompt : is_ps1_line bash_prompt_line ≡ true
unfolding is_ps1_line codes
is_ps1_line-prompt = refl

prompt-Lacks : Lacks b'\n' bash_prompt_line
unfolding codes
prompt-Lacks = any-Lacks b'\n' bash_prompt_line refl

is_ps1_line-instead : (line : Bytes) → is_ps1_line (prompt_instead line) ≡ is_ps1_line line
is_ps1_line-instead line = elim (Bool-cases (is_ps1_line line)) [
  | inl e ↦ rw (e, is_ps1_line-prompt) refl
  | inr e ↦ rw (e, e) refl
]

instead-All :
    (lines : List Bytes) → All (Lacks b'\n') lines → All (Lacks b'\n') (map prompt_instead lines)
instead-All [] h = tt
instead-All (line ∷ lines) (h, hs) = (kept, instead-All lines hs)
  where
    kept : Lacks b'\n' (prompt_instead line)
    kept = elim (Bool-cases (is_ps1_line line)) [ inl e ↦ rw e prompt-Lacks | inr e ↦ rw e h ]

any-instead :
    (lines : List Bytes) → any is_ps1_line (map prompt_instead lines) ≡ any is_ps1_line lines
any-instead [] = refl
any-instead (line ∷ lines) = rw (is_ps1_line-instead line, any-instead lines) refl

map-ne-nil : (f : Bytes → Bytes) (lines : List Bytes) → lines ≢ [] → map f lines ≢ []
map-ne-nil f [] ne = absurd (ne refl)
map-ne-nil f (line ∷ lines) ne = cc

-- The lines are as many as before: those that set PS1 are the prompt's, and the others stay.
pub replace_ps1_lines-split :
    (content : Bytes)
    → split (replace_ps1_lines content) b'\n' ≡ map prompt_instead (split content b'\n')
unfolding replace_ps1_lines codes
replace_ps1_lines-split content =
    split-join (map prompt_instead (split content b'\n')) b'\n'
      (map-ne-nil prompt_instead _ (split-ne-nil content b'\n'))
      (instead-All _ (split-All content b'\n'))

-- A line that does not set PS1, or sets it to the prompt.
abbrev pub OnlyPrompt : Bytes → Type 0
OnlyPrompt line = (is_ps1_line line ≡ false) ⊎ (line ≡ bash_prompt_line)

instead-OnlyPrompt : (lines : List Bytes) → All OnlyPrompt (map prompt_instead lines)
instead-OnlyPrompt [] = tt
instead-OnlyPrompt (line ∷ lines) = (kept, instead-OnlyPrompt lines)
  where
    kept : OnlyPrompt (prompt_instead line)
    kept = elim (Bool-cases (is_ps1_line line)) [
      | inl e ↦ inr (rw e refl)
      | inr e ↦ inl (rw (e, e) refl)
    ]

-- A content that sets PS1, in each line that does to the prompt.
abbrev pub Prompts : Bytes → Type 0
Prompts content = (has_ps1_line content ≡ true) × All OnlyPrompt (split content b'\n')

bashrc_template-Prompts : Prompts bashrc_template
unfolding has_ps1_line is_ps1_line split codes
bashrc_template-Prompts = (
  refl,
  (
    inl refl,
    (inl refl, (inl refl, (inl refl, (inl refl, (inl refl, (inr refl, (inl refl, tt))))))),
  ),
)

replace_ps1_lines-Prompts :
    (content : Bytes) → has_ps1_line content ≡ true → Prompts (replace_ps1_lines content)
unfolding has_ps1_line
replace_ps1_lines-Prompts content h =
    let same = replace_ps1_lines-split content in
    (
      ap (any is_ps1_line) same ∙ any-instead (split content b'\n') ∙ h,
      subst (All OnlyPrompt) (sym same) (instead-OnlyPrompt (split content b'\n')),
    )

-- Whatever was found of the file, what is to be written has a line that sets PS1, and each line that
-- does is the prompt's.
pub prompt_content-Prompts :
    (O : Os) (path : Bytes) (found : Result Bytes) {content : Bytes}
    → prompt_content O path found ≡ ok content
    → Prompts content
unfolding prompt_content
prompt_content-Prompts O path (ok existing) h = elim (Bool-cases (has_ps1_line existing)) [
  | inl e ↦ subst Prompts (ground arith) (replace_ps1_lines-Prompts existing e)
  | inr e ↦ subst Prompts (ground arith) bashrc_template-Prompts
]
prompt_content-Prompts O path (err e) h = elim (Bool-cases (is_not_exist e)) [
  | inl missing ↦ subst Prompts (ground arith) bashrc_template-Prompts
  | inr other ↦ absurd (ground arith)
]
