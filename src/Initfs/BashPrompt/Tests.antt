-- ===== src/Initfs/BashPrompt/Tests.antt =====
-- A `.bashrc` with an indented prompt.
use void_init.Base.{◌≡◌, refl, [], ◌∷◌, Bytes, codes, ok, equal, equal-ne, wrapping, ◌>>=◌}
use void_init.Text.FilePath.{clean, join_path}
use void_init.Text.Parts.{split, join}
use void_init.Text.Search.{has_prefix}
use void_init.Os.Files.Changes.{Puts}
use void_init.Os.Memory.{Host, memory, find, put}
use void_init.Os.Memory.Laws.{memory-FileLaws}
use void_init.Os.Memory.Copies.{memory-CopyLaws}
use void_init.Initfs.Util.{copy_file, write_file}
use void_init.Initfs.Util.Copies.{stored_entry}
use void_init.Initfs.BashPrompt.{
  profile_template, has_ps1_line, is_ps1_line, skip_indent, replace_ps1_lines, prompt_content,
  set_bash_prompt, skel_profile, root_profile, root_bashrc, configure_bash_prompt,
}
use void_init.Initfs.BashPrompt.Files.{configure_bash_prompt-Puts}
use void_init.Initfs.BashPrompt.Laws.{Prompts, prompt_content-Prompts}

abbrev existing : Bytes
existing = codes "umask 022\n  PS1=x\n"

replaced :
    prompt_content memory (codes "/root/.bashrc") (ok existing) ≡ ok (replace_ps1_lines existing)
unfolding prompt_content has_ps1_line split codes
replaced = refl

prompt_content-Prompts_example : Prompts (replace_ps1_lines existing)
prompt_content-Prompts_example =
    prompt_content-Prompts memory (codes "/root/.bashrc") (ok existing) replaced

abbrev root : Bytes
root = codes "/r"

abbrev host : Host
host = record {
  files = (codes "/r/root/.bashrc", record { content = existing; mode = 0o600 }) ∷ [];
  path = [];
  commands = [];
  logged = [];
  time = 0;
  handles = [];
  owners = [];
}

configured : Host
unfolding configure_bash_prompt set_bash_prompt prompt_content copy_file write_file codes equal find
    put wrapping ◌>>=◌ join_path clean split join has_prefix has_ps1_line is_ps1_line
    replace_ps1_lines skip_indent
configured = (configure_bash_prompt memory root host).1

configure_bash_prompt-Puts_example :
    Puts memory-FileLaws
      (stored_entry (skel_profile root) profile_template 0o644
        ∷ stored_entry (root_profile root) profile_template 0o644
        ∷ stored_entry (root_bashrc root) (replace_ps1_lines existing) 0o644
        ∷ [])
      host
      configured
unfolding configured
configure_bash_prompt-Puts_example =
    configure_bash_prompt-Puts memory-FileLaws memory-CopyLaws root host refl refl
      (equal-ne _ _ refl) (equal-ne _ _ refl) (equal-ne _ _ refl) refl
