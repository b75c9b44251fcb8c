-- ===== src/Init/Apply.antt =====
-- cmd/void-init/apply.go: the hostname, the password and the keys of a machine.
pub mod Records
pub mod Keys
mod Tests
use void_init.Base.{
  ℕ, not, when, Bool, Option, none, some, List, [], ◌∷◌, ◌++◌, Bytes, codes, length, Error, wrap,
  Result, ok, err, Exec, pure, raise, query, lift, wrapping, ◌>>=◌, ◌>>◌, if◌then◌else◌,
}
use void_init.Os.{Os, Reply, log_info}
use void_init.Text.Atoi.{ℤ, atoi}
use void_init.Text.Decimal.{decimal}
use void_init.Text.FilePath.{join_path}
use void_init.Text.Parts.{join}
use void_init.Text.Trim.{is_empty}
use void_init.Managed.{user_config_marker, with_single_trailing_newline}
use void_init.Init.Fsutil.{write_managed_file}
use void_init.Init.UserData.{UserData}

abbrev hostname_path : Bytes
hostname_path = codes "/etc/hostname"

-- The record that `applyPassword` pipes into `chpasswd -e`.
abbrev pub chpasswd_record : Bytes → Bytes → Bytes
chpasswd_record username hash = username ++ (b':' ∷ (hash ++ b'\n' ∷ []))

-- The content that `applySSHAuthorizedKeys` renders.
abbrev pub authorized_keys : List Bytes → Bytes
authorized_keys keys = join keys (codes "\n") ++ (codes "\n\n" ++ user_config_marker)

-- Its line in the log.
abbrev pub installing : Bytes → List Bytes → Bytes
installing username keys =
    codes "installing "
    ++ decimal (length keys)
    ++ codes " SSH authorized key(s) for user "
    ++ username

abbrev pub ssh_dir : Bytes → Bytes
ssh_dir home = join_path (home ∷ codes ".ssh" ∷ [])

abbrev pub authorized_keys_path : Bytes → Bytes
authorized_keys_path home = join_path (ssh_dir home ∷ codes "authorized_keys" ∷ [])

module _ (O : Os) where
  -- A command whose output is put behind its error.
  run_or : Bytes → List Bytes → Bytes → Exec O.State (Unit {0})
  run_or before args stdin s =
      let (reply, t) = O.run (record { env = []; args = args; stdin = stdin }) s in
      (
        elim reply.status [
          | ok _ ↦ ok tt
          | err e ↦ err (wrap (before ++ codes ": ") e (codes ": " ++ reply.output))
        ],
        t,
      )

  -- `applyHostname`
  unfoldable pub apply_hostname : Bytes → Exec O.State (Unit {0})
  apply_hostname hostname = do
    log_info O (codes "setting hostname to " ++ O.quote hostname)
    wrapping (codes "write " ++ hostname_path)
        (O.write_file hostname_path (with_single_trailing_newline hostname) 0o644)
    wrapping (codes "set hostname") (O.set_hostname hostname)

  -- `applyPassword`
  unfoldable pub apply_password : Bytes → Bytes → Exec O.State (Unit {0})
  unfolding run_or
  apply_password username hash = do
    log_info O (codes "setting password for user " ++ username)
    run_or (codes "chpasswd " ++ username) (codes "chpasswd" ∷ codes "-e" ∷ [])
        (chpasswd_record username hash)

  -- The file of the keys and its directory, for an account whose ids are read.
  install_keys : Bytes → List Bytes → ℤ → ℤ → Exec O.State (Unit {0})
  install_keys home keys uid gid = do
    let dir = ssh_dir home
    wrapping (codes "create " ++ dir) (O.mkdir_all dir 0o700)
    wrapping (codes "chown " ++ dir) (O.chown dir uid gid)
    let path = authorized_keys_path home
    write_managed_file O path (authorized_keys keys) 0o600
    wrapping (codes "chown " ++ path) (O.chown path uid gid)

  -- `applySSHAuthorizedKeys`
  unfoldable pub apply_ssh_authorized_keys : Bytes → List Bytes → Exec O.State (Unit {0})
  unfolding install_keys
  apply_ssh_authorized_keys username keys = do
    log_info O (installing username keys)
    u ← wrapping (codes "lookup user " ++ username) (query (O.lookup_user username))
    uid ← wrapping (codes "parse uid " ++ u.uid) (lift (atoi O.quote u.uid))
    gid ← wrapping (codes "parse gid " ++ u.gid) (lift (atoi O.quote u.gid))
    install_keys u.home_dir keys uid gid

  -- `ApplyUserData`
  unfoldable pub apply_user_data : UserData → Exec O.State (Unit {0})
  unfolding apply_hostname apply_password apply_ssh_authorized_keys
  apply_user_data u = do
    when (not (is_empty u.hostname)) (apply_hostname u.hostname)
    when (not (is_empty u.user)) do
      when (not (is_empty u.password)) (apply_password u.user u.password)
      when (not (is_empty u.ssh_authorized_keys))
          (apply_ssh_authorized_keys u.user u.ssh_authorized_keys)
