-- ===== src/Initfs/Xbps/Checksum/Laws.antt =====
-- Which digests are trusted.
use void_init.Base.{
  ◌<◌, ◌≡◌, ◌↔◌, refl, ap, Bool, true, false, Bool-cases, inl, inr, List, [], ◌∷◌, Bytes, equal_iff,
  equal_refl, length, ltb, Result, ok, err, arith,
}
use void_init.Text.Parts.{split}
use void_init.Text.Space.{fields}
use void_init.Initfs.Xbps.Checksum.{
  max_scan_token_size, drop_cr, lines_of, lists_digest, scan_sums, verdict, verify_checksum,
}

-- A line that fits into the scanner's buffer.
abbrev pub Fits : Bytes → Type 0
Fits line = length line < max_scan_token_size

-- A line of two fields, whose first is the digest.
abbrev pub Lists : Bytes → Bytes → Type 0
Lists digest line = (name : Bytes) × (fields (drop_cr line) ≡ digest ∷ name ∷ [])

-- Among the lines there is one that lists the digest, and it and all lines before it fit.
pub data Listed (digest : Bytes) : List Bytes → Type 0 where
  here :
      {line : Bytes} {lines : List Bytes}
      → Fits line
      → Lists digest line
      → Listed digest (line ∷ lines)
  below :
      {line : Bytes} {lines : List Bytes}
      → Fits line
      → Listed digest lines
      → Listed digest (line ∷ lines)

lists_digest-Lists :
    (digest : Bytes) (words : List Bytes)
    → lists_digest digest words ≡ true
    → (name : Bytes) × (words ≡ digest ∷ name ∷ [])
unfolding lists_digest
lists_digest-Lists digest [] h = absurd (cc)
lists_digest-Lists digest (a ∷ []) h = absurd (cc)
lists_digest-Lists digest (a ∷ b ∷ []) h = (b, ap (λ x. x ∷ b ∷ []) ((equal_iff a digest).0 h))
lists_digest-Lists digest (a ∷ b ∷ c ∷ words) h = absurd (cc)

Lists-lists_digest :
    (digest line : Bytes) → Lists digest line → lists_digest digest (fields (drop_cr line)) ≡ true
unfolding lists_digest
Lists-lists_digest digest line (name, e) = rw (e, equal_refl digest) refl

scan_sums-Listed :
    (digest : Bytes) (lines : List Bytes) → scan_sums digest lines ≡ ok true → Listed digest lines
unfolding scan_sums
scan_sums-Listed digest [] h = absurd (cc)
scan_sums-Listed digest (line ∷ lines) h =
    elim (Bool-cases (ltb (length line) max_scan_token_size)) [
      | inr long ↦ absurd (ground arith)
      | inl short ↦ elim (Bool-cases (lists_digest digest (fields (drop_cr line)))) [
        | inl found ↦ here (ground arith) (lists_digest-Lists digest _ found)
        | inr other ↦ below (ground arith) (scan_sums-Listed digest lines (ground arith))
      ]
    ]

Listed-scan_sums :
    (digest : Bytes) (lines : List Bytes) → Listed digest lines → scan_sums digest lines ≡ ok true
unfolding scan_sums
Listed-scan_sums digest [] x = elim x [ ]
Listed-scan_sums digest (line ∷ lines) (here short found) =
    ground (arith, Lists-lists_digest digest line found)
Listed-scan_sums digest (line ∷ lines) (below short rest) =
    ground (arith, Listed-scan_sums digest lines rest)

verdict-found : (digest : Bytes) (r : Result Bool) → verdict digest r ≡ ok tt → r ≡ ok true
unfolding verdict
verdict-found digest (ok true) h = refl
verdict-found digest (ok false) h = absurd (cc)
verdict-found digest (err e) h = absurd (cc)

-- A download is trusted exactly if its digest is the first of the two fields of a line of the list,
-- and neither that line nor one before it is longer than the scanner takes.
pub verify_checksum_iff :
    (sums digest : Bytes)
    → (verify_checksum sums digest ≡ ok tt) ↔ Listed digest (lines_of (split sums b'\n'))
unfolding verify_checksum verdict
verify_checksum_iff sums digest = (
  λ h. scan_sums-Listed digest _ (verdict-found digest _ h),
  λ h. rw (Listed-scan_sums digest _ h) refl,
)
