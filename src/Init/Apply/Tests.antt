-- ===== src/Init/Apply/Tests.antt =====
-- The theorems on user data at a machine with one user and two keys.
use void_init.Base.{◌≡◌, ◌≢◌, refl, true, false, some, [], ◌∷◌, ◌++◌, Bytes, codes, ok, arith}
use void_init.Text.Search.{cut, has_prefix}
use void_init.Text.Parts.{split}
use void_init.Text.Runes.{contains_func, is_space, is_control}
use void_init.Managed.{user_config_marker}
use void_init.Init.UserData.{UserData, is_space_or_control, validate_keys, validate}
use void_init.Init.UserData.Safety.{IsSafe, validate-IsSafe}
use void_init.Init.Apply.{chpasswd_record, authorized_keys}
use void_init.Init.Apply.Records.{chpasswd_record-cut, authorized_keys-split}

abbrev machine : UserData
machine = record {
  hostname = codes "vm";
  fqdn = codes "vm.lan";
  manage_etc_hosts = true;
  user = codes "void";
  disable_root = true;
  password = codes "$6$x";
  ssh_authorized_keys = codes "rsa A me" ∷ codes "rsa B" ∷ [];
  chpasswd_expire = false;
}

abbrev as_is : Bytes → Bytes
as_is s = s

accepted : validate as_is machine ≡ ok tt
unfolding validate validate_keys is_space_or_control is_space is_control contains_func has_prefix
    codes
accepted = refl

two-ne-nil : machine.ssh_authorized_keys ≢ []
two-ne-nil = ground arith

validate-IsSafe_example : IsSafe machine
validate-IsSafe_example = validate-IsSafe as_is machine accepted

chpasswd_record-cut_example :
    (split (chpasswd_record (codes "void") (codes "$6$x")) b'\n'
      ≡ (codes "void" ++ (b':' ∷ codes "$6$x")) ∷ [] ∷ [])
    × (cut (chpasswd_record (codes "void") (codes "$6$x")) (b':' ∷ [])
        ≡ some (codes "void", codes "$6$x" ++ b'\n' ∷ []))
chpasswd_record-cut_example = chpasswd_record-cut as_is machine accepted

authorized_keys-split_example :
    split (authorized_keys machine.ssh_authorized_keys) b'\n'
    ≡ machine.ssh_authorized_keys ++ ([] ∷ user_config_marker ∷ [])
authorized_keys-split_example = authorized_keys-split as_is machine accepted two-ne-nil
