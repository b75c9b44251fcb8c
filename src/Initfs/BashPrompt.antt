-- ===== src/Initfs/BashPrompt.antt =====
-- cmd/void-initfs/bashprompt.go: the shell prompt of an image.
pub mod Laws
pub mod Files
mod Tests
use void_init.Base.{
  ℕ, Bool, true, false, not, ◌||◌, List, [], ◌∷◌, ◌++◌, any, map, Bytes, codes, ◌==◌, Result, ok,
  err, Exec, in_context, is_not_exist, ◌>>=◌, ◌>>◌, if◌then◌else◌,
}
use void_init.Os.{Os, log_info}
use void_init.Text.FilePath.{join_path}
use void_init.Text.Parts.{split, join}
use void_init.Text.Search.{has_prefix}
use void_init.Initfs.Util.{write_file, copy_file}

-- `bashPromptLine`
abbrev pub bash_prompt_line : Bytes
bash_prompt_line = codes "PS1='\\[\\e]0;\\u@\\h: \\w\\a\\]\\u@\\h:\\w\\$ '"

-- `profileTemplate` and `bashrcTemplate`, templates/root/profile and templates/root/bashrc
abbrev pub profile_template : Bytes
profile_template = codes "[ -f ~/.bashrc ] && . ~/.bashrc\n"

abbrev pub bashrc_template : Bytes
bashrc_template =
    codes
      "# .bashrc\n\n# If not running interactively, don't do anything\n[[ $- != *i* ]] && return\n\nalias ls='ls --color=auto'\n"
    ++ bash_prompt_line
    ++ codes "\n"

-- `[ \t]*`
skip_indent : Bytes → Bytes
skip_indent [] = []
skip_indent (c ∷ s) = let rest = skip_indent s in if c == b' ' || c == b'\t' then rest else c ∷ s

-- Whether `ps1LineRE` matches the line: a match begins where the line does, and goes to its end.
unfoldable pub is_ps1_line : Bytes → Bool
unfolding skip_indent has_prefix
is_ps1_line line = has_prefix (skip_indent line) (codes "PS1=")

-- `ps1LineRE.Match`
unfoldable pub has_ps1_line : Bytes → Bool
unfolding is_ps1_line
has_ps1_line content = any is_ps1_line (split content b'\n')

abbrev pub prompt_instead : Bytes → Bytes
prompt_instead line = if is_ps1_line line then bash_prompt_line else line

-- `ps1LineRE.ReplaceAll`. The one `$` of the replacement stands in front of a blank, where `Expand`
-- keeps it.
unfoldable pub replace_ps1_lines : Bytes → Bytes
unfolding is_ps1_line
replace_ps1_lines content = join (map prompt_instead (split content b'\n')) (codes "\n")

abbrev pub skel_profile : Bytes → Bytes
skel_profile root = join_path (root ∷ codes "etc" ∷ codes "skel" ∷ codes ".profile" ∷ [])

abbrev pub root_profile : Bytes → Bytes
root_profile root = join_path (root ∷ codes "root" ∷ codes ".profile" ∷ [])

abbrev pub root_bashrc : Bytes → Bytes
root_bashrc root = join_path (root ∷ codes "root" ∷ codes ".bashrc" ∷ [])

module _ (O : Os) where
  -- What is written for the file's content, or for its error.
  unfoldable pub prompt_content : Bytes → Result Bytes → Result Bytes
  prompt_content path (ok existing) =
      ok (if has_ps1_line existing then replace_ps1_lines existing else bashrc_template)
  prompt_content path (err e) =
      if is_not_exist e then ok bashrc_template else err (in_context (codes "read " ++ path) e)

  -- `setBashPrompt`
  unfoldable pub set_bash_prompt : Bytes → Exec O.State (Unit {0})
  unfolding prompt_content
  set_bash_prompt path s = elim (prompt_content path (O.read_file path s)) [
    | ok content ↦ write_file O path content 0o644 s
    | err e ↦ (err e, s)
  ]

  -- `configureBashPrompt`
  unfoldable pub configure_bash_prompt : Bytes → Exec O.State (Unit {0})
  unfolding set_bash_prompt
  configure_bash_prompt root = do
    write_file O (skel_profile root) profile_template 0o644
    log_info O (codes "wrote " ++ skel_profile root)
    copy_file O (skel_profile root) (root_profile root) 0o644
    log_info O (codes "wrote " ++ root_profile root)
    set_bash_prompt (root_bashrc root)
    log_info O (codes "wrote " ++ root_bashrc root)
