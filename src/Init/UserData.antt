-- ===== src/Init/UserData.antt =====
-- cmd/void-init/userdata.go: the user data that a machine is set up from. The YAML decoder of
-- gopkg.in/yaml.v3 is the parameter `unmarshal`, and `%q` of `fmt` the parameter `quote`.
pub mod Safety
use mathlib.Core.Option
use void_init.Base.{
  ℕ, suc, ◌+◌, Bool, true, false, not, ◌&&◌, ◌||◌, Option, none, some, List, [], ◌∷◌, ◌++◌, ◌==◌,
  any, Bytes, codes, equal, text, Result, ok, err, in_context, and_then, map_error, if◌then◌else◌,
}
use void_init.Text.Decimal.{decimal}
use void_init.Text.Search.{cut, has_prefix}
use void_init.Text.Runes.{contains_func, is_space, is_control}
use void_init.Text.Space.{trim_space}

abbrev pub cloud_config_header : Bytes
cloud_config_header = codes "#cloud-config"

-- `UserData`; `chpasswd_expire` is `Chpasswd.Expire`.
pub record UserData : Type 0 where
  pub hostname : Bytes
  pub fqdn : Bytes
  pub manage_etc_hosts : Bool
  pub user : Bytes
  pub disable_root : Bool
  pub password : Bytes
  pub ssh_authorized_keys : List Bytes
  pub chpasswd_expire : Bool

-- `isSpaceOrControl`
unfoldable pub is_space_or_control : ℕ → Bool
is_space_or_control r = is_space r || is_control r

-- The loop over the keys, from the key with the number `i`.
unfoldable pub validate_keys : ℕ → List Bytes → Result (Unit {0})
validate_keys i [] = ok tt
validate_keys i (key ∷ keys) =
    let rest = validate_keys (i + 1) keys in
    if contains_func key is_control
    then err (
        text
          (codes "ssh_authorized_keys entry " ++ decimal i ++ codes " contains control characters"))
    else rest

-- What stands before the first newline: the first result of `bytes.Cut`.
abbrev first_line : Bytes → Bytes
first_line input = elim (cut input (codes "\n")) [ none ↦ input | some (line, _) ↦ line ]

module _ (quote : Bytes → Bytes) where
  -- `validate`
  unfoldable pub validate : UserData → Result (Unit {0})
  validate u =
      if contains_func u.hostname is_space_or_control
      then err (
          text (
            codes "hostname "
            ++ quote u.hostname
            ++ codes " contains whitespace or control characters"))
      else if contains_func u.fqdn is_space_or_control
      then err (
          text
            (codes "fqdn " ++ quote u.fqdn ++ codes " contains whitespace or control characters"))
      else if contains_func u.user is_space_or_control
          || any (λ b. b == b':') u.user
          || has_prefix u.user (codes "-")
      then err (
          text
            (codes "user " ++ quote u.user ++ codes " contains characters unsafe for a username"))
      else if contains_func u.password is_space_or_control
      then err (text (codes "password hash contains whitespace or control characters"))
      else validate_keys 0 u.ssh_authorized_keys

  abbrev checked : UserData → Result UserData
  checked u = map_error (in_context (codes "invalid user-data")) (and_then (validate u) (λ _. ok u))

  -- `ParseUserData`
  unfoldable pub parse_user_data : (Bytes → Result UserData) → Bytes → Result UserData
  parse_user_data unmarshal input =
      if not (equal (trim_space (first_line input)) cloud_config_header)
      then err (text (codes "unsupported user-data format: missing \"#cloud-config\" header"))
      else and_then (map_error (in_context (codes "parse user-data")) (unmarshal input)) checked
