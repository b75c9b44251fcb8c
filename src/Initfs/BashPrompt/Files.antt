-- ===== src/Initfs/BashPrompt/Files.antt =====
-- cmd/void-initfs/bashprompt.go: the files that set an image's prompt.
use mathlib.Core.Option
use void_init.Base.{
  Bool-cases, is_not_exist, ◌≡◌, ◌≢◌, refl, ap, sym, ◌∙◌, subst, false, Option, none, some, [], ◌∷◌,
  Bytes, ok, inl, inr, if◌then◌else◌,
}
use void_init.Base.Effects.Laws.{bind-eq-ok, Result-cases}
use void_init.Os.{Os}
use void_init.Os.Files.{File, FileLaws}
use void_init.Os.Files.Copies.{CopyLaws}
use void_init.Os.Files.Changes.{
  Puts, Puts-append, Puts-before, Puts-kept, log-Unchanged, overlaid-one,
}
use void_init.Initfs.Util.Copies.{stored_entry, write_file-Puts, copy_file-Puts}
use void_init.Initfs.BashPrompt.{
  profile_template, bashrc_template, has_ps1_line, replace_ps1_lines, prompt_content,
  set_bash_prompt, skel_profile, root_profile, root_bashrc, configure_bash_prompt,
}

-- What is to be written over the bytes of a `.bashrc`.
abbrev pub prompt_text : Option Bytes → Bytes
prompt_text none = bashrc_template
prompt_text (some content) =
    if has_ps1_line content then replace_ps1_lines content else bashrc_template

module _ {O : Os} (L : FileLaws O) where
  abbrev pub bytes_at : O.State → Bytes → Option Bytes
  bytes_at s path = Option.map File.content (L.file s path)

  set_bash_prompt-Puts :
      (path : Bytes) (s t : O.State)
      → set_bash_prompt O path s ≡ (ok tt, t)
      → Puts L (stored_entry path (prompt_text (bytes_at s path)) 0o644 ∷ []) s t
  unfolding set_bash_prompt prompt_content
  set_bash_prompt-Puts path s t h =
      let entry = λ (o : Option Bytes). stored_entry path (prompt_text o) 0o644 in
      elim (Result-cases (O.read_file path s)) [
        | inl (old, e) ↦
            subst (λ o. Puts L (entry o ∷ []) s t) (sym (L.read_file-ok path s e))
              (write_file-Puts L path _ 0o644 s t (rw (e, set_bash_prompt, prompt_content) at h))
        | inr (why, e) ↦ elim (Bool-cases (is_not_exist why)) [
          | inl missing ↦
              subst (λ f. Puts L (entry (Option.map File.content f) ∷ []) s t)
                (sym (L.read_file-missing path s e missing))
                (write_file-Puts L path _ 0o644 s t
                  (rw (e, missing, set_bash_prompt, prompt_content) at h))
          | inr bad ↦
              absurd (cc (ap (λ r. r.0) (rw (e, bad, set_bash_prompt, prompt_content) at h)))
        ]
      ]

  -- If the three files are different and neither the first nor the last is the logger's, a
  -- configuration of the prompt that succeeds puts the profile into the skeleton of the image's
  -- users, the same bytes into root's profile, and over root's `.bashrc`, or a new one, the text with
  -- the prompt in place of its lines that set one, or the whole template where there is no such line,
  -- each with mode 0644; no other file changes, but for the logger's.
  pub configure_bash_prompt-Puts :
      (K : CopyLaws L) (root : Bytes) (s : O.State) {t : O.State}
      → L.is_log (skel_profile root) ≡ false
      → L.is_log (root_bashrc root) ≡ false
      → skel_profile root ≢ root_profile root
      → root_bashrc root ≢ skel_profile root
      → root_bashrc root ≢ root_profile root
      → configure_bash_prompt O root s ≡ (ok tt, t)
      → Puts L
          (stored_entry (skel_profile root) profile_template 0o644
            ∷ stored_entry (root_profile root) profile_template 0o644
            ∷ stored_entry (root_bashrc root) (prompt_text (bytes_at s (root_bashrc root))) 0o644
            ∷ [])
          s
          t
  unfolding configure_bash_prompt
  configure_bash_prompt-Puts K root s {t} free_skel free_rc ne rc_skel rc_profile h =
      let (_, a, wrote, h1) = bind-eq-ok _ _ s h in
      let (_, b, logged1, h2) = bind-eq-ok _ _ a h1 in
      let (_, c, copied, h3) = bind-eq-ok _ _ b h2 in
      let (_, d, logged2, h4) = bind-eq-ok _ _ c h3 in
      let (_, e, set, logged3) = bind-eq-ok _ _ d h4 in
      let skel = skel_profile root in
      let first = stored_entry skel profile_template 0o644 in
      let second = stored_entry (root_profile root) profile_template 0o644 in
      let stored =
        Puts-before L (first ∷ []) s a b (write_file-Puts L skel profile_template 0o644 s a wrote)
          (log-Unchanged L _ a logged1) in
      let there : L.file b skel ≡ some first.1 =
        stored skel free_skel ∙ overlaid-one skel first.1 (L.file s) in
      let put =
        Puts-before L (second ∷ []) b c d
          (copy_file-Puts L K skel (root_profile root) 0o644 b c ne there copied)
          (log-Unchanged L _ c logged2) in
      let two = Puts-append L (first ∷ []) (second ∷ []) s b d stored put in
      let old =
        Puts-kept L (first ∷ second ∷ []) s d (root_bashrc root) two free_rc
          (rc_skel, (rc_profile, tt)) refl in
      let third = λ (f : Option File).
        stored_entry (root_bashrc root) (prompt_text (Option.map File.content f)) 0o644 in
      Puts-append L (first ∷ second ∷ []) (third (L.file s (root_bashrc root)) ∷ []) s d t two (
        subst (λ f. Puts L (third f ∷ []) d t) old
          (Puts-before L _ d e t (set_bash_prompt-Puts (root_bashrc root) d e set)
            (log-Unchanged L _ e logged3)))
