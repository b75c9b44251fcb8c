-- ===== src/Vlog/Rotate/Shift.antt =====
-- A rotation moves every segment of the log one place up and drops the oldest.
use void_init.Base.{
  ℕ, All, zero, suc, ◌≤◌, ◌<◌, ◌≡◌, ◌≢◌, ◌⊎◌, inl, inr, refl, ap, sym, ◌∙◌, true, none, [], ◌∷◌,
  ◌++◌, Bytes, codes, ok, err, Error, Exec, is_not_exist, arith, Bool-cases,
}
use void_init.Base.Effects.Laws.{bind-eq-ok, Result-cases}
use void_init.Text.Decimal.{decimal, decimal-injective, decimal-All}
use void_init.Text.FilePath.{dir_part, dir_part-append, dir_part-All}
use void_init.Vlog.Disk.{Disk, DiskLaws}
use void_init.Vlog.Rotate.{
  max_log_backups, backup, unless_missing, rename_backup, shift_backups, rotate_log_file,
}

-- The segments by age: the active file, then its backups.
abbrev pub segment : Bytes → ℕ → Bytes
segment path zero = path
segment path (suc n) = backup path (suc n)

append-cancel : (p x y : Bytes) → p ++ x ≡ p ++ y → x ≡ y
append-cancel [] x y h = h
append-cancel (c ∷ p) x y h = append-cancel p x y cc

append-ne_self : (p : Bytes) (c : ℕ) (x : Bytes) → p ++ (c ∷ x) ≢ p
append-ne_self [] c x h = cc
append-ne_self (d ∷ p) c x h = append-ne_self p c x cc

-- Segments of different age are different files.
pub segment-injective : (path : Bytes) (m n : ℕ) → segment path m ≡ segment path n → m ≡ n
unfolding backup
segment-injective path zero zero h = refl
segment-injective path zero (suc n) h = absurd (append-ne_self path _ _ (sym h))
segment-injective path (suc m) zero h = absurd (append-ne_self path _ _ h)
segment-injective path (suc m) (suc n) h =
    decimal-injective (suc m) (suc n) (cc (append-cancel path _ _ h))

digits_ne_slash : (s : Bytes) → All (λ c. b'0' ≤ c) s → All (λ c. c ≢ b'/') s
digits_ne_slash [] h = tt
digits_ne_slash (c ∷ s) (digit, h) = (omega arith, digits_ne_slash s h)

dir_part-decimal : (n : ℕ) → dir_part (b'.' ∷ decimal n) ≡ []
dir_part-decimal n = dir_part-All _ (omega arith, digits_ne_slash (decimal n) (decimal-All n))

dir_part-segment : (path : Bytes) (n : ℕ) → dir_part (segment path n) ≡ dir_part path
unfolding backup
dir_part-segment path zero = refl
dir_part-segment path (suc n) = dir_part-append path _ (dir_part-decimal (suc n))

le_cases : (k n : ℕ) → k ≤ suc n → (k ≤ n) ⊎ (k ≡ suc n)
le_cases k n h = grind arith

zero_cases : (k : ℕ) → (k ≡ 0) ⊎ (1 ≤ k)
zero_cases k = grind arith

module _ {D : Disk} (L : DiskLaws D) where
  unless_missing-ok :
      (before : Bytes) (call : Exec D.State (Unit {0})) (s : D.State) {t : D.State}
      → unless_missing before call s ≡ (ok tt, t)
      → (call s ≡ (ok tt, t)) ⊎ ((e : Error) × (call s ≡ (err e, t)) × (is_not_exist e ≡ true))
  unfolding unless_missing
  unless_missing-ok before call s h = elim (Result-cases (call s).0) [
    | inl (_, e) ↦ inl (λ i. (e i, (ap (λ r. r.1) h) i))
    | inr (why, e) ↦ elim (Bool-cases (is_not_exist why)) [
      | inl gone ↦ inr (why, (λ i. (e i, (ap (λ r. r.1) h) i)), gone)
      | inr bad ↦ absurd (ground arith)
    ]
  ]

  -- A rename onto a name that no file has moves the file, if there is one.
  rename_backup-moves :
      (src dst : Bytes) (s : D.State) {t : D.State}
      → dst ≢ src
      → dir_part dst ≡ dir_part src
      → L.content s dst ≡ none
      → rename_backup D src dst s ≡ (ok tt, t)
      → (L.content t dst ≡ L.content s src)
        × (L.content t src ≡ none)
        × ((q : Bytes) → q ≢ src → q ≢ dst → L.content t q ≡ L.content s q)
  unfolding rename_backup
  rename_backup-moves src dst s ne same free h = elim (unless_missing-ok _ (D.rename src dst) s h) [
    | inl renamed ↦
        let (there, gone) = L.rename-ok src dst s ne renamed in
        (
          there,
          gone,
          λ q a b. ap (λ r. L.content r.1 q) (sym renamed) ∙ L.rename-frame src dst s q a b,
        )
    | inr (e, failed, missing) ↦
        let (none_src, same_src, same_dst) = L.rename-missing src dst s same failed missing in
        (
          same_dst ∙ free ∙ sym none_src,
          same_src ∙ none_src,
          λ q a b. ap (λ r. L.content r.1 q) (sym failed) ∙ L.rename-frame src dst s q a b,
        )
  ]

  module _ (path : Bytes) where
    -- What the loop over the backups does, from `n` down to 1.
    record Shifted (n : ℕ) (s t : D.State) : Type 0 where
      moved :
          (k : ℕ)
          → 1 ≤ k
          → k ≤ n
          → L.content t (segment path (suc k)) ≡ L.content s (segment path k)
      freed : L.content t (segment path 1) ≡ none
      others :
          (q : Bytes)
          → ((k : ℕ) → 1 ≤ k → k ≤ suc n → q ≢ segment path k)
          → L.content t q ≡ L.content s q

    segment-ne : (m n : ℕ) → m ≢ n → segment path m ≢ segment path n
    segment-ne m n ne e = ne (segment-injective path m n e)

    siblings : (m n : ℕ) → dir_part (segment path m) ≡ dir_part (segment path n)
    siblings m n = dir_part-segment path m ∙ sym (dir_part-segment path n)

    shift_backups-Shifted :
        (n : ℕ) (s : D.State) {t : D.State}
        → L.content s (segment path (suc n)) ≡ none
        → shift_backups D path n s ≡ (ok tt, t)
        → Shifted n s t
    unfolding shift_backups
    shift_backups-Shifted zero s free h = record {
      moved = λ k a b. absurd (omega arith);
      freed = ap (λ r. L.content r.1 (segment path 1)) (sym h) ∙ free;
      others = λ q ne. ap (λ r. L.content r.1 q) (sym h);
    }
    shift_backups-Shifted (suc n) s free h =
        let (_, u, first, later) = bind-eq-ok _ _ s h in
        let (there, gone, rest) =
          rename_backup-moves (segment path (suc n)) (segment path (suc (suc n))) s
            (segment-ne (suc (suc n)) (suc n) (omega arith)) (siblings (suc (suc n)) (suc n)) free
            first in
        let ih = shift_backups-Shifted n u gone later in
        record {
          moved = λ k a b. elim (le_cases k n b) [
            | inl lower ↦
                ih.moved k a lower
                ∙ rest (segment path k) (segment-ne k (suc n) (omega arith))
                    (segment-ne k (suc (suc n)) (omega arith))
            | inr last ↦ rw last (
                ih.others (segment path (suc (suc n)))
                  (λ j c d. segment-ne (suc (suc n)) j (omega arith))
                ∙ there)
          ];
          freed = ih.freed;
          others = λ q ne.
              ih.others q (λ k a b. ne k a (omega arith))
              ∙ rest q (ne (suc n) (omega arith) (omega arith))
                  (ne (suc (suc n)) (omega arith) (omega arith));
        }

    remove-oldest :
        (s : D.State) {t : D.State}
        → unless_missing (codes "remove " ++ segment path 5) (D.remove (segment path 5)) s
          ≡ (ok tt, t)
        → (L.content t (segment path 5) ≡ none)
          × ((q : Bytes) → q ≢ segment path 5 → L.content t q ≡ L.content s q)
    remove-oldest s h = elim (unless_missing-ok _ (D.remove (segment path 5)) s h) [
      | inl removed ↦ (
        L.remove-ok _ s removed,
        λ q ne. ap (λ r. L.content r.1 q) (sym removed) ∙ L.remove-frame _ s q ne,
      )
      | inr (e, failed, missing) ↦ (
        L.remove-missing _ s failed missing,
        λ q ne. ap (λ r. L.content r.1 q) (sym failed) ∙ L.remove-frame _ s q ne,
      )
    ]

    -- A rotation that succeeds moves each segment one place up, whether there was one or not. The
    -- oldest is gone, the active file is missing, and no other file changes.
    pub rotate_log_file-segment :
        (s : D.State) {t : D.State}
        → rotate_log_file D path s ≡ (ok tt, t)
        → ((k : ℕ)
            → k < max_log_backups
            → L.content t (segment path (suc k)) ≡ L.content s (segment path k))
          × (L.content t path ≡ none)
          × ((q : Bytes)
              → ((k : ℕ) → k ≤ max_log_backups → q ≢ segment path k)
              → L.content t q ≡ L.content s q)
    unfolding rotate_log_file
    rotate_log_file-segment s h =
        let (_, a, removed, h1) = bind-eq-ok _ _ s h in
        let (_, b, shifted, h2) = bind-eq-ok _ _ a h1 in
        let (gone, kept) = remove-oldest s removed in
        let up = shift_backups-Shifted 4 a gone shifted in
        let (there, free, rest) =
          rename_backup-moves path (segment path 1) b (segment-ne 1 0 (omega arith)) (siblings 1 0)
            up.freed h2 in
        (
          λ k h. elim (zero_cases k) [
            | inl first ↦ rw first (
                there
                ∙ up.others path (λ j c d. segment-ne 0 j (omega arith))
                ∙ kept path (segment-ne 0 5 (omega arith)))
            | inr later ↦
                rest (segment path (suc k)) (segment-ne (suc k) 0 (omega arith))
                  (segment-ne (suc k) 1 (omega arith))
                ∙ up.moved k (omega arith) (omega arith)
                ∙ kept (segment path k) (segment-ne k 5 (omega arith))
          ],
          free,
          λ q ne.
              rest q (ne 0 (omega arith)) (ne 1 (omega arith))
              ∙ up.others q (λ j c d. ne j (omega arith))
              ∙ kept q (ne 5 (omega arith)),
        )
