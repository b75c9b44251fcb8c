-- ===== src/Vlog/Rotate/History.antt =====
-- The segments of the log as one text, over any number of writes.
use void_init.Base.{
  ℕ, zero, suc, ◌≤◌, ◌<◌, ◌≡◌, ◌⊎◌, inl, inr, refl, ap, sym, ◌∙◌, subst, Bool-cases, Option, none,
  some, List, [], ◌∷◌, ◌++◌, append_assoc, append-nil, All, Bytes, length, ok, arith,
}
use void_init.Vlog.Disk.{Disk, DiskLaws}
use void_init.Vlog.Rotate.{RotatingWriter, max_log_size, max_log_backups, must_rotate, write}
use void_init.Vlog.Rotate.Shift.{segment, segment-injective}
use void_init.Vlog.Rotate.Write.{Tracks, MovedUp, SameElsewhere, Wrote, write-Wrote}

-- What a file holds, a missing one being empty.
abbrev pub bytes_of : Option Bytes → Bytes
bytes_of none = []
bytes_of (some c) = c

abbrev pub concat : List Bytes → Bytes
concat [] = []
concat (x ∷ xs) = x ++ concat xs

abbrev pub IsSuffix : Bytes → Bytes → Type 0
IsSuffix xs ys = (front : Bytes) × (front ++ xs ≡ ys)

-- A suffix of a suffix that was made longer.
pub IsSuffix-trans :
    (a b c x y : Bytes) → IsSuffix b (a ++ x) → IsSuffix c (b ++ y) → IsSuffix c (a ++ (x ++ y))
IsSuffix-trans a b c x y (front, e) (more, f) = (
  front ++ more,
  append_assoc front more c
      ∙ ap (λ l. front ++ l) f
      ∙ sym (append_assoc front b y)
      ∙ ap (λ l. l ++ y) e
      ∙ append_assoc a x y,
)

size_within :
    (size now added : ℕ)
    → (size ≤ max_log_size) ⊎ (size ≡ added)
    → size ≡ now
    → added ≤ max_log_size
    → now ≤ max_log_size
size_within size now added (inl h) e small = omega (arith, h, e)
size_within size now added (inr h) e small = omega (arith, h, e, small)

module _ {D : Disk} (L : DiskLaws D) where
  -- The segments up to a number, from the oldest to the active file.
  abbrev pub history : Bytes → ℕ → D.State → Bytes
  history path zero s = bytes_of (L.content s path)
  history path (suc n) s = bytes_of (L.content s (segment path (suc n))) ++ history path n s

  history-in_place :
      (path : Bytes) (n : ℕ) (c x : Bytes) (s t : D.State)
      → L.content s path ≡ some c
      → L.content t path ≡ some (c ++ x)
      → SameElsewhere L path s t
      → history path n t ≡ history path n s ++ x
  history-in_place path zero c x s t before after others = rw (before, after) refl
  history-in_place path (suc n) c x s t before after others =
      ap (λ b. bytes_of b ++ history path n t)
        (others (segment path (suc n))
          (λ e. absurd (omega (arith, segment-injective path (suc n) 0 e))))
      ∙ ap (λ l. bytes_of (L.content s (segment path (suc n))) ++ l)
          (history-in_place path n c x s t before after others)
      ∙ sym (append_assoc (bytes_of (L.content s (segment path (suc n)))) (history path n s) x)

  history-in_new :
      (path : Bytes) (n : ℕ) (x : Bytes) (s t : D.State)
      → n < max_log_backups
      → L.content t path ≡ some x
      → MovedUp L path s t
      → history path (suc n) t ≡ history path n s ++ x
  history-in_new path zero x s t lt now up = rw (up zero lt, now) refl
  history-in_new path (suc n) x s t lt now up =
      ap (λ b. bytes_of b ++ history path (suc n) t) (up (suc n) lt)
      ∙ ap (λ l. bytes_of (L.content s (segment path (suc n))) ++ l)
          (history-in_new path n x s t (omega (arith, lt)) now up)
      ∙ sym (append_assoc (bytes_of (L.content s (segment path (suc n)))) (history path n s) x)

  -- One write: the text of the log, and the file that the writer tracks.
  pub record Kept (w : RotatingWriter D) (x : Bytes) (s : D.State) (v : RotatingWriter D)
      (t : D.State) : Type 0 where
    pub path_kept : v.path ≡ w.path
    pub now : (c : Bytes) × Tracks L v c t
    pub suffix : IsSuffix (history w.path max_log_backups t) (history w.path max_log_backups s ++ x)
    pub bounded : (v.size ≤ max_log_size) ⊎ (v.size ≡ length x)

  pub Wrote-Kept :
      (w : RotatingWriter D) (c x : Bytes) (s : D.State) (v : RotatingWriter D) (t : D.State)
      → Tracks L w c s
      → Wrote L w c x s v t
      → Kept w x s v t
  Wrote-Kept w c x s v t tracked h = elim (Bool-cases (must_rotate w.size x)) [
    | inr fits ↦
        let (now, others) = h.in_place fits in
        let holds = subst (λ p. L.content t p ≡ some (c ++ x)) h.path_kept now.holds in
        record {
          path_kept = h.path_kept;
          now = (c ++ x, now);
          suffix = ([], history-in_place w.path max_log_backups c x s t tracked.holds holds others);
          bounded = h.bounded;
        }
    | inl full ↦
        let (now, up) = h.in_new full in
        let holds = subst (λ p. L.content t p ≡ some x) h.path_kept now.holds in
        let oldest = bytes_of (L.content s (segment w.path max_log_backups)) in
        record {
          path_kept = h.path_kept;
          now = (x, now);
          suffix = (
            oldest,
            ap (λ l. oldest ++ l) (history-in_new w.path 4 x s t (omega arith) holds up)
                ∙ sym (append_assoc oldest (history w.path 4 s) x),
          );
          bounded = h.bounded;
        }
  ]

  -- Writes that succeed, one behind the other.
  pub data Writes
      : RotatingWriter D → D.State → List Bytes → RotatingWriter D → D.State → Type 0 where
    done : {w : RotatingWriter D} {s : D.State} → Writes w s [] w s
    wrote :
        {w v u : RotatingWriter D} {s t r : D.State} {xs : List Bytes} (n : ℕ) (x : Bytes)
        → write D w x s ≡ ((n, ok tt), v, t)
        → Writes v t xs u r
        → Writes w s (x ∷ xs) u r

  -- If the writer tracks its file, any number of writes that succeed leave, as the text of the
  -- segments from the oldest to the active file, an end of what that text was before with all that was
  -- written behind it.
  pub Writes-history :
      (w v : RotatingWriter D) (c : Bytes) (xs : List Bytes) (s t : D.State)
      → Tracks L w c s
      → Writes w s xs v t
      → IsSuffix (history w.path max_log_backups t) (history w.path max_log_backups s ++ concat xs)
  Writes-history w v c xs s t tracked done = ([], sym (append-nil _))
  Writes-history w v c xs s t tracked (wrote {v = u} {t = r} {xs = more} n x h rest) =
      let kept = Wrote-Kept w c x s u r tracked (write-Wrote L w c x s tracked h).1 in
      IsSuffix-trans _ _ _ x (concat more) kept.suffix (
        subst
          (λ p. IsSuffix (history p max_log_backups t) (history p max_log_backups r ++ concat more))
          kept.path_kept (Writes-history u v kept.now.0 more r t kept.now.1 rest))

  -- If the writer tracks its file, and that file and each text that is written are within the size
  -- limit, then so is the active file after any number of writes that succeed, and the writer still
  -- tracks it.
  pub Writes-bounded :
      (w v : RotatingWriter D) (c : Bytes) (xs : List Bytes) (s t : D.State)
      → Tracks L w c s
      → length c ≤ max_log_size
      → All (λ x. length x ≤ max_log_size) xs
      → Writes w s xs v t
      → (d : Bytes) × Tracks L v d t × (length d ≤ max_log_size)
  Writes-bounded w v c xs s t tracked small all done = (c, tracked, small)
  Writes-bounded w v c xs s t tracked small all (wrote {v = u} {t = r} {xs = more} n x h rest) =
      let kept = Wrote-Kept w c x s u r tracked (write-Wrote L w c x s tracked h).1 in
      let (d, now) = kept.now in
      Writes-bounded u v d more r t now
        (size_within u.size (length d) (length x) kept.bounded now.size_is all.0) all.1 rest
