-- ===== src/Initfs/Xbps/Checksum.antt =====
-- cmd/void-initfs/xbps.go: the check of a download's digest against the published list. The lines are
-- those of `bufio.Scanner`.
pub mod Laws
mod Tests
use void_init.Base.{
  ℕ, Bool, true, false, not, ◌&&◌, Option, none, some, List, [], ◌∷◌, ◌++◌, Bytes, codes, equal,
  length, ◌==◌, ltb, Error, other, text, in_context, Result, ok, err, if◌then◌else◌,
}
use void_init.Text.Parts.{split}
use void_init.Text.Space.{fields}
use void_init.Text.Trim.{is_empty}

-- `staticXbpsFilename`
abbrev pub static_xbps_filename : Bytes
static_xbps_filename = codes "xbps-static-latest.x86_64-musl.tar.xz"

-- `bufio.MaxScanTokenSize`: the scanner's buffer holds as many bytes, a line's newline included.
abbrev pub max_scan_token_size : ℕ
max_scan_token_size = 65536

-- `bufio.ErrTooLong`
abbrev pub too_long : Error
too_long = other (codes "bufio.Scanner: token too long")

-- A line without the carriage return at its end.
pub drop_cr : Bytes → Bytes
drop_cr [] = []
drop_cr (c ∷ s) = let rest = drop_cr s in if c == b'\r' && is_empty s then [] else c ∷ rest

-- The parts between newlines, without the last where it is empty.
pub lines_of : List Bytes → List Bytes
lines_of [] = []
lines_of (part ∷ []) = if is_empty part then [] else part ∷ []
lines_of (part ∷ more ∷ parts) = part ∷ lines_of (more ∷ parts)

-- Whether `fields[0]` is the digest, of two fields.
lists_digest : Bytes → List Bytes → Bool
lists_digest digest (field ∷ _ ∷ []) = equal field digest
lists_digest digest _ = false

-- The loop over the lines that `Scan` gives: whether the digest was found, or the scanner's error.
scan_sums : Bytes → List Bytes → Result Bool
scan_sums digest [] = ok false
scan_sums digest (line ∷ lines) =
    let rest = scan_sums digest lines in
    if ltb (length line) max_scan_token_size
    then (if lists_digest digest (fields (drop_cr line)) then ok true else rest)
    else err too_long

-- What `verifyChecksum` returns behind its loop.
verdict : Bytes → Result Bool → Result (Unit {0})
verdict digest (ok true) = ok tt
verdict digest (ok false) = err (
    text (
      codes "downloaded "
      ++ static_xbps_filename
      ++ codes " (sha256 "
      ++ digest
      ++ codes ") not listed in sha256sums.txt - refusing to trust it"))
verdict digest (err e) = err (in_context (codes "parse sha256sums.txt") e)

-- `verifyChecksum`
unfoldable pub verify_checksum : Bytes → Bytes → Result (Unit {0})
unfolding drop_cr lines_of lists_digest scan_sums verdict
verify_checksum sums digest = verdict digest (scan_sums digest (lines_of (split sums b'\n')))
