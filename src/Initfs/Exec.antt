-- ===== src/Initfs/Exec.antt =====
-- cmd/void-initfs/exec.go and nspawn.go: the external commands. What they print is also shown to the
-- user, which is left out; every caller drops the output of a command that failed, so it comes back
-- in the error alone.
pub mod Laws
use void_init.Base.{
  List, [], ◌∷◌, ◌++◌, Bytes, codes, wrap, ok, err, Exec, pure, when, not, ◌>>=◌, ◌>>◌,
}
use void_init.Os.{Os, log_info}
use void_init.Text.Parts.{join}
use void_init.Text.Trim.{is_empty}

abbrev words : List Bytes → Bytes
words args = join args (codes " ")

module _ (O : Os) where
  -- `cmd.Run` with its error wrapped.
  unfoldable pub run_words : List Bytes → List Bytes → Exec O.State Bytes
  run_words extra args s =
      let (reply, t) = O.run (record { env = extra; args = args; stdin = [] }) s in
      (
        elim reply.status [
          | ok _ ↦ ok reply.output
          | err e ↦ err (wrap (words args ++ codes ": ") e (codes ": " ++ reply.output))
        ],
        t,
      )

  -- `runCommandEnv`
  unfoldable pub run_command_env : List Bytes → List Bytes → Exec O.State Bytes
  unfolding run_words
  run_command_env extra args = do
    when (not (is_empty extra))
        (log_info O (codes "running: " ++ words args ++ codes " (" ++ words extra ++ codes ")"))
    run_words extra args

  -- `runCommand`
  unfoldable pub run_command : List Bytes → Exec O.State Bytes
  unfolding run_command_env
  run_command args = do log_info O (codes "running: " ++ words args); run_command_env [] args

  -- `if _, err := runCommand(…); err != nil { return err }`
  unfoldable pub command : List Bytes → Exec O.State (Unit {0})
  unfolding run_command
  command args = do _ ← run_command args; pure tt

  -- `nspawn`; `inside` is the source's `command`.
  unfoldable pub nspawn : Bytes → List Bytes → List Bytes → Exec O.State (Unit {0})
  nspawn root extra_args inside =
      command
        ((codes "systemd-nspawn" ∷ codes "-D" ∷ root ∷ []) ++ (extra_args ++ (codes "--" ∷ inside)))

  -- `reconfigure`
  unfoldable pub reconfigure : Bytes → Exec O.State (Unit {0})
  reconfigure root = do
    log_info O (codes "reconfiguring packages in " ++ root)
    nspawn root (codes "--resolv-conf=bind-host" ∷ []) (codes "xbps-reconfigure" ∷ codes "-fa" ∷ [])
