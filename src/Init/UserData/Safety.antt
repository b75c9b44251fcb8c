-- ===== src/Init/UserData/Safety.antt =====
-- What the checks on user data give the places where the values are spliced in.
use void_init.Base.{
  ℕ, ◌+◌, ◌<◌, ◌≡◌, refl, ap, Bool, true, false, List, [], ◌∷◌, ◌==◌, any, All, Bytes, codes, ok,
  arith, Bool-cases, inl, inr,
}
use void_init.Text.Search.{has_prefix}
use void_init.Text.Parts.{any-Lacks, Lacks}
use void_init.Text.Runes.{contains_func, is_space, is_control}
use void_init.Text.Runes.Ascii.{NoAscii, contains_func-NoAscii}
use void_init.Init.UserData.{UserData, is_space_or_control, validate_keys, validate}

-- A byte that breaks lines is not in a text without control characters.
pub NoAscii-Lacks :
    (p : ℕ → Bool) (b : ℕ) (s : Bytes) → b < 0x80 → p b ≡ true → NoAscii p s → Lacks b s
NoAscii-Lacks p b [] small h _ = tt
NoAscii-Lacks p b (c ∷ s) small h (hc, hs) =
    ((λ e. absurd (ground (arith, ap p e))), NoAscii-Lacks p b s small h hs)

-- A text that the checks take for one token: no ASCII white space, no ASCII control character.
abbrev pub IsToken : Bytes → Type 0
IsToken = NoAscii is_space_or_control

-- What the checks on user data establish.
pub record IsSafe (u : UserData) : Type 0 where
  pub hostname_token : IsToken u.hostname
  pub fqdn_token : IsToken u.fqdn
  pub user_token : IsToken u.user
  pub user_colon : Lacks b':' u.user
  pub user_dash : has_prefix u.user (codes "-") ≡ false
  pub password_token : IsToken u.password
  pub keys_lines : All (NoAscii is_control) u.ssh_authorized_keys

space_or_control-newline : is_space_or_control b'\n' ≡ true
unfolding is_space_or_control is_space is_control
space_or_control-newline = refl

control-newline : is_control b'\n' ≡ true
unfolding is_control
control-newline = refl

-- A token stands on one line.
pub token-Lacks : (s : Bytes) → IsToken s → Lacks b'\n' s
token-Lacks s = NoAscii-Lacks _ b'\n' s (omega arith) space_or_control-newline

pub lines-Lacks : (keys : List Bytes) → All (NoAscii is_control) keys → All (Lacks b'\n') keys
lines-Lacks [] h = tt
lines-Lacks (key ∷ keys) (h, hs) =
    (NoAscii-Lacks _ b'\n' key (omega arith) control-newline h, lines-Lacks keys hs)

validate_keys-All :
    (i : ℕ) (keys : List Bytes) → validate_keys i keys ≡ ok tt → All (NoAscii is_control) keys
unfolding validate_keys
validate_keys-All i [] h = tt
validate_keys-All i (key ∷ keys) h = elim (Bool-cases (contains_func key is_control)) [
  | inl bad ↦ absurd (ground arith)
  | inr good ↦
      (contains_func-NoAscii key is_control good, validate_keys-All (i + 1) keys (ground arith))
]

module _ (quote : Bytes → Bytes) where
  validate-split :
      (u : UserData)
      → validate quote u ≡ ok tt
      → (contains_func u.hostname is_space_or_control ≡ false)
        × (contains_func u.fqdn is_space_or_control ≡ false)
        × (contains_func u.user is_space_or_control ≡ false)
        × (any (λ b. b == b':') u.user ≡ false)
        × (has_prefix u.user (codes "-") ≡ false)
        × (contains_func u.password is_space_or_control ≡ false)
        × (validate_keys 0 u.ssh_authorized_keys ≡ ok tt)
  unfolding validate
  validate-split u h = ground arith

  -- User data that passes the checks is safe to splice: hostname, FQDN, user name and password hash
  -- have no ASCII white space or control character, the user name has no colon and does not start
  -- with a dash, and no key has an ASCII control character.
  pub validate-IsSafe : (u : UserData) → validate quote u ≡ ok tt → IsSafe u
  validate-IsSafe u h =
      let (host, fqdn, user, colon, dash, hash, keys) = validate-split u h in
      record {
        hostname_token = contains_func-NoAscii u.hostname _ host;
        fqdn_token = contains_func-NoAscii u.fqdn _ fqdn;
        user_token = contains_func-NoAscii u.user _ user;
        user_colon = any-Lacks b':' u.user colon;
        user_dash = dash;
        password_token = contains_func-NoAscii u.password _ hash;
        keys_lines = validate_keys-All 0 u.ssh_authorized_keys keys;
      }
