-- ===== src/Initfs/Xbps/Tests.antt =====
-- The search path and a download, on the host in memory.
use void_init.Base.{
  ◌≡◌, some, none, true, refl, false, List, [], ◌∷◌, ◌++◌, filter, Bytes, codes, equal, equal-ne,
  ok, ◌>>=◌, wrapping, for_each, if◌then◌else◌,
}
use void_init.Os.{DirEntry}
use void_init.Os.Files.Copies.{is_below, cleared}
use void_init.Os.Files.Changes.{Puts, Has, overlaid}
use void_init.Text.FilePath.{join_path, clean}
use void_init.Text.Search.{has_prefix, has_suffix}
use void_init.Initfs.Util.{copy_file}
use void_init.Os.Memory.Laws.{memory-FileLaws}
use void_init.Os.Memory.Copies.{memory-CopyLaws}
use void_init.Initfs.Xbps.{
  ensure_xbps, refresh, permitted, install_extracted, still_missing, found_tools, path_of,
  install_tool, install_extracted_xbps, cache_key, install_extracted_keys,
}
use void_init.Initfs.Xbps.Files.{last_of, install_extracted_xbps-Puts, install_extracted_keys-Has}
use void_init.Os.Memory.{Host, memory, find, put, entries_in, delete_below}
use void_init.Initfs.Exec.{command}
use void_init.Text.Parts.{split, join}
use void_init.Text.Space.{fields}
use void_init.Initfs.Xbps.Tools.{
  extend_path, missing_tools, missing_of, have_cached_keys, split_list,
}
use void_init.Initfs.Xbps.Download.{removing_tree, download, download_and_verify_static_xbps}
use void_init.Initfs.Xbps.Checksum.{verify_checksum}
use void_init.Initfs.Xbps.Memory.{remote, visits_in}

abbrev host : Host
host = record {
  files = [];
  path = codes "/usr/bin:/bin";
  commands = [];
  logged = [];
  time = 0;
  handles = [];
  owners = [];
}

-- A directory that is not on the path is not put there.
not_extended : extend_path memory (codes "/usr/local/bin") host ≡ host
unfolding extend_path split_list split codes equal
not_extended = refl

extracted : download_and_verify_static_xbps memory remote host ≡ (
  ok (codes "/tmp/void-initfs-xbps-extract"),
  (download_and_verify_static_xbps memory remote host).1,
)
unfolding download_and_verify_static_xbps download verify_checksum split fields codes equal ◌>>=◌
    wrapping command
extracted = refl

-- The tools and a key of an extracted tarball, and an old key.
abbrev unpacked : Host
unpacked = record {
  files =
      (codes "/t/xbps-install", record { content = codes "I"; mode = 0o700 })
      ∷ (codes "/t/xbps-reconfigure", record { content = codes "R"; mode = 0o755 })
      ∷ (codes "/t/var/db/xbps/keys/a.plist", record { content = codes "K"; mode = 0o600 })
      ∷ (codes "/k/old.plist", record { content = codes "O"; mode = 0o644 })
      ∷ [];
  path = [];
  commands = [];
  logged = [];
  time = 0;
  handles = [];
  owners = [];
}

abbrev tool_path : Bytes → Bytes
tool_path tool = codes "/t/" ++ tool

abbrev tool_bytes : Bytes → Bytes
tool_bytes tool = if equal tool (codes "xbps-install") then codes "I" else codes "R"

tools : Host
unfolding install_extracted_xbps found_tools install_tool path_of copy_file codes equal find put
    wrapping ◌>>=◌ for_each join_path clean split join has_prefix visits_in entries_in
tools = (install_extracted_xbps memory remote (codes "/t") (codes "/bin") unpacked).1

install_extracted_xbps-Puts_example :
    Puts memory-FileLaws
      ((codes "/bin/xbps-install", record { content = codes "I"; mode = 0o755 })
        ∷ (codes "/bin/xbps-reconfigure", record { content = codes "R"; mode = 0o755 })
        ∷ [])
      unpacked
      tools
unfolding tools last_of
install_extracted_xbps-Puts_example =
    install_extracted_xbps-Puts memory-FileLaws memory-CopyLaws remote (codes "/t") (codes "/bin")
      tool_path tool_bytes unpacked (refl, (refl, tt))
      (
        ((0o700, refl), refl, (equal-ne _ _ refl, (equal-ne _ _ refl, tt))),
        (((0o755, refl), refl, (equal-ne _ _ refl, (equal-ne _ _ refl, tt))), tt),
      )
      refl

cached : Host
unfolding install_extracted_keys cache_key copy_file codes equal find put delete_below is_below
    wrapping ◌>>=◌ for_each join_path clean split join has_prefix has_suffix entries_in
cached = (install_extracted_keys memory remote (codes "/t") (codes "/k") unpacked).1

abbrev bundle : List DirEntry
bundle = record { name = codes "a.plist"; is_dir = false } ∷ []

install_extracted_keys-Has_example :
    Has memory-FileLaws
      (overlaid
        ((codes "/k/a.plist", record { content = codes "K"; mode = 0o644 }) ∷ [])
        (cleared (codes "/k") (λ p. find p unpacked.files)))
      cached
unfolding cached filter
install_extracted_keys-Has_example =
    install_extracted_keys-Has memory-FileLaws memory-CopyLaws remote (codes "/t") (codes "/k")
      (λ e. codes "K") bundle unpacked refl (((0o600, refl), refl, (equal-ne _ _ refl, tt)), tt)
      refl

-- A host on which the tarball has been extracted to the directory that the download names.
abbrev builder : Host
builder = record {
  files =
      (
        codes "/tmp/void-initfs-xbps-extract/xbps-install",
        record { content = codes "I"; mode = 0o700 },
      )
      ∷ (
        codes "/tmp/void-initfs-xbps-extract/xbps-reconfigure",
        record { content = codes "R"; mode = 0o755 },
      )
      ∷ (
        codes "/tmp/void-initfs-xbps-extract/var/db/xbps/keys/a.plist",
        record { content = codes "K"; mode = 0o600 },
      )
      ∷ [];
  path = [];
  commands = [];
  logged = [];
  time = 0;
  handles = [];
  owners = [];
}

ready : Host
unfolding ensure_xbps refresh permitted install_extracted still_missing missing_tools missing_of
    have_cached_keys extend_path split_list download_and_verify_static_xbps download verify_checksum
    command fields install_extracted_xbps found_tools install_tool path_of install_extracted_keys
    cache_key copy_file codes equal find put delete_below is_below wrapping ◌>>=◌ for_each join_path
    clean split join has_prefix has_suffix visits_in entries_in removing_tree
ready = (ensure_xbps memory remote true true builder).1

-- The key is in the cache, and the extracted tarball is gone.
cache :
    (find (codes "/usr/local/share/void-initfs/keys/a.plist") ready.files
      ≡ some (record { content = codes "K"; mode = 0o644 }))
    × (find (codes "/tmp/void-initfs-xbps-extract/xbps-install") ready.files ≡ none)
unfolding ready
cache = (refl, refl)
