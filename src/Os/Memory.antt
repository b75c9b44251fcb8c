-- ===== src/Os/Memory.antt =====
-- A host in memory, on which the theorems are applied to concrete runs: a table of files, the
-- commands that ran, and the environment's PATH. Every call on it succeeds, but for reads and
-- changes of files that are not there.
pub mod Laws
pub mod Copies
pub mod Owners
use void_init.Base.{
  ℕ, Bool, true, false, List, [], ◌∷◌, ◌++◌, Option, none, some, map, Bytes, codes, equal, length,
  drop, Error, not_exist, other, Result, ok, err, Exec, if◌then◌else◌,
}
use void_init.Os.{Os, Command, DirEntry}
use void_init.Os.Files.{File}
use void_init.Os.Files.Copies.{is_below}
use void_init.Text.Search.{has_prefix}
use void_init.Text.Atoi.{ℤ}

pub record Host : Type 0 where
  pub files : List (Bytes × File)
  pub path : Bytes
  pub commands : List (List Bytes)
  pub logged : List Bytes
  pub time : ℕ
  -- The names of the open files, and who owns a path.
  pub handles : List Bytes
  pub owners : List (Bytes × (ℤ × ℤ))

abbrev pub Files : Type 0
Files = List (Bytes × File)

unfoldable pub find : Bytes → Files → Option File
find p [] = none
find p ((q, f) ∷ files) = if equal q p then some f else find p files

unfoldable pub put : Bytes → File → Files → Files
put p f [] = (p, f) ∷ []
put p f ((q, g) ∷ files) = if equal q p then (p, f) ∷ files else (q, g) ∷ put p f files

unfoldable pub delete : Bytes → Files → Files
delete p [] = []
delete p ((q, g) ∷ files) = let rest = delete p files in if equal q p then rest else (q, g) ∷ rest

-- The files that do not lie in a directory.
unfoldable pub delete_below : Bytes → Files → Files
delete_below dir [] = []
delete_below dir ((q, g) ∷ files) =
    let rest = delete_below dir files in if is_below dir q then rest else (q, g) ∷ rest

-- The part of a path behind the slash of a directory.
abbrev pub inside : Bytes → Bytes → Bytes
inside dir path = drop (length (dir ++ codes "/")) path

-- The files of a directory, which has no other directories.
unfoldable pub entries_in : Bytes → Files → List DirEntry
entries_in dir [] = []
entries_in dir ((q, g) ∷ files) =
    let rest = entries_in dir files in
    if has_prefix q (dir ++ codes "/")
    then record { name = inside dir q; is_dir = false } ∷ rest
    else rest

abbrev missing : Error
missing = not_exist (codes "no such file or directory")

abbrev pub found {ℓ} : {A : Type ℓ} → Option A → Result A
found none = err missing
found (some a) = ok a

abbrev pub mode_or : ℕ → Option File → ℕ
mode_or m none = m
mode_or m (some f) = f.mode

abbrev with_files : Host → Files → Host
with_files h files = record h { files = files }

-- Changes a file that is there.
abbrev update : (File → Host → Host) → Option File → Exec Host (Unit {0})
update change none h = (err missing, h)
update change (some f) h = (ok tt, change f h)

abbrev done : Host → Result (Unit {0}) × Host
done h = (ok tt, h)

-- Makes a link, where nothing is there.
abbrev linked : File → Bytes → Option File → Exec Host (Unit {0})
linked f p none h = (ok tt, with_files h (put p f h.files))
linked f p (some _) h = (err (other (codes "file exists")), h)

abbrev pub memory : Os
memory = record {
  State = Host;
  quote = λ s. codes "\"" ++ s ++ codes "\"";
  log = λ l m h. record h { logged = m ∷ h.logged };
  geteuid = λ h. 0;
  getenv = λ name h. h.path;
  setenv = λ name value h. record h { path = value };
  read_file = λ p h. elim (find p h.files) [ none ↦ err missing | some f ↦ ok f.content ];
  write_file = λ p c m h.
      done
        (with_files h (put p (record { content = c; mode = mode_or m (find p h.files) }) h.files));
  chmod = λ p m h.
      update (λ f g. with_files g (put p (record f { mode = m }) g.files)) (find p h.files) h;
  chown = λ p u g h. done (record h { owners = (p, (u, g)) ∷ h.owners });
  stat = λ p h. elim (find p h.files) [
    | none ↦ err missing
    | some f ↦ ok (record { size = 0; mode = f.mode })
  ];
  lstat = λ p h. elim (find p h.files) [ none ↦ err missing | some f ↦ ok tt ];
  remove = λ p h. update (λ f g. with_files g (delete p g.files)) (find p h.files) h;
  remove_all = λ p h. done (with_files h (delete_below p h.files));
  symlink = λ target p h. linked (record { content = target; mode = 0o777 }) p (find p h.files) h;
  mkdir = λ p m h. done h;
  mkdir_all = λ p m h. done h;
  mkdir_temp = λ p h. (ok (codes "/tmp/" ++ p), h);
  read_dir = λ p h. ok (entries_in p h.files);
  glob = λ p h. ok [];
  open_read = λ p h. elim (find p h.files) [ none ↦ err missing | some f ↦ ok tt ];
  open_truncate = λ p m h.
      done
        (with_files h (put p (record { content = []; mode = mode_or m (find p h.files) }) h.files));
  copy = λ p q h.
      update
        (λ f g. with_files g (put q (record f { mode = mode_or f.mode (find q g.files) }) g.files))
        (find p h.files) h;
  look_path = λ name h. ok name;
  run = λ c h.
      (record { output = []; status = ok tt }, record h { commands = h.commands ++ c.args ∷ [] });
  set_hostname = λ name h. done h;
  lookup_user =
      λ name h. ok (record { uid = codes "0"; gid = codes "0"; home_dir = codes "/root" });
  interfaces = λ h. ok [];
  mount = λ device p h. done h;
  unmount = λ p h. h;
}
