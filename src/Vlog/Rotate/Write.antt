-- ===== src/Vlog/Rotate/Write.antt =====
-- What `Write` does to the segments of the log, and to the size that the writer tracks.
use void_init.Base.{
  ℕ, suc, ◌+◌, ◌≤◌, ◌<◌, ◌≡◌, ◌≢◌, ◌⊎◌, inl, inr, refl, ap, sym, ◌∙◌, true, false, some, [], ◌++◌,
  Bytes, length, length-append, ok, err, arith, Bool-cases, subst, err, Result,
}
use void_init.Base.Effects.Laws.{bind-eq-ok, wrapping-eq-ok, pure_elim}
use void_init.Vlog.Disk.{Disk, DiskLaws}
use void_init.Vlog.Rotate.{
  RotatingWriter, max_log_size, max_log_backups, must_rotate, rotate, make_room, append,
  append_into, write,
}
use void_init.Vlog.Rotate.Shift.{segment, rotate_log_file-segment, segment-injective}

-- Without a rotation the file stays below the limit, unless it was empty.
size_in_place :
    (size : ℕ) (x : Bytes) {grown : ℕ}
    → must_rotate size x ≡ false
    → grown ≡ size + length x
    → (grown ≤ max_log_size) ⊎ (grown ≡ length x)
size_in_place size x fits h = grind arith

module _ {D : Disk} (L : DiskLaws D) where
  -- The writer's file is the active segment, it holds `c`, and the writer knows how long that is.
  pub record Tracks (w : RotatingWriter D) (c : Bytes) (s : D.State) : Type 0 where
    pub file_open : L.opened s w.file ≡ some w.path
    pub holds : L.content s w.path ≡ some c
    pub size_is : w.size ≡ length c

  -- Every segment of `s` stands one place further up in `t`.
  abbrev pub MovedUp : Bytes → D.State → D.State → Type 0
  MovedUp path s t =
      (k : ℕ)
      → k < max_log_backups
      → L.content t (segment path (suc k)) ≡ L.content s (segment path k)

  -- `path` aside, the files are as they were.
  abbrev pub SameElsewhere : Bytes → D.State → D.State → Type 0
  SameElsewhere path s t = (q : Bytes) → q ≢ path → L.content t q ≡ L.content s q

  rotate-Tracks :
      (w : RotatingWriter D) (s : D.State) {v : RotatingWriter D} {t : D.State}
      → rotate D w s ≡ (ok v, t)
      → (v.path ≡ w.path) × Tracks v [] t × MovedUp w.path s t
  unfolding rotate
  rotate-Tracks w s h =
      let (_, a, closed, h1) = bind-eq-ok _ _ s h in
      let (_, b, moved, h2) = bind-eq-ok _ _ a h1 in
      let (f, c, opened, h3) = bind-eq-ok _ _ b h2 in
      let (up, gone, _) = rotate_log_file-segment L w.path a moved in
      let opened' = wrapping-eq-ok _ _ b opened in
      let (empty, handle) = L.open-created w.path 0o644 b opened' gone in
      let goal = λ (v : RotatingWriter D) (t : D.State).
        (v.path ≡ w.path) × Tracks v [] t × MovedUp w.path s t in
      let before = λ (q : Bytes).
        ap (λ r. L.content r.1 q) (sym (wrapping-eq-ok _ _ s closed)) ∙ L.close-frame w.file s q in
      let after = λ (q : Bytes) (ne : q ≢ w.path).
        ap (λ r. L.content r.1 q) (sym opened') ∙ L.open-frame w.path 0o644 b q ne in
      pure_elim goal h3 (
        refl,
        record { file_open = handle; holds = empty; size_is = refl },
        λ k lt.
            after (segment w.path (suc k))
              (λ e. absurd (omega (arith, segment-injective w.path (suc k) 0 e)))
            ∙ up k lt
            ∙ before (segment w.path k),
      )

  append-Tracks :
      (w : RotatingWriter D) (c x : Bytes) (s : D.State) {n : ℕ} {v : RotatingWriter D}
      {t : D.State}
      → Tracks w c s
      → append D w x s ≡ ((n, ok tt), v, t)
      → (n ≡ length x) × (v.path ≡ w.path) × Tracks v (c ++ x) t × SameElsewhere w.path s t
  unfolding append
  append-Tracks w c x s {n} {v} {t} tracked h =
      let wrote : D.write w.file x s ≡ ((n, ok tt), t) = λ i. ((h i).0, (h i).2) in
      let count : (D.write w.file x s).0.0 ≡ n = ap (λ r. r.0.0) wrote in
      let (all, now, handle) = L.write-ok w.file x s tracked.file_open tracked.holds wrote in
      let about = λ (v : RotatingWriter D). (v.path ≡ w.path) × Tracks v (c ++ x) t in
      let grown =
        subst about (λ i. (h i).1)
          (
            refl,
            record {
              file_open = handle;
              holds = now;
              size_is = omega (arith, length-append c x, count, all, tracked.size_is);
            },
          ) in
      (
        all,
        grown.0,
        grown.1,
        λ q ne.
            ap (λ r. L.content r.1 q) (sym wrote) ∙ L.write-frame w.file x s q tracked.file_open ne,
      )

  -- A write that succeeds.
  pub record Wrote (w : RotatingWriter D) (c x : Bytes) (s : D.State) (v : RotatingWriter D)
      (t : D.State) : Type 0 where
    pub path_kept : v.path ≡ w.path
    pub in_place : must_rotate w.size x ≡ false → Tracks v (c ++ x) t × SameElsewhere w.path s t
    pub in_new : must_rotate w.size x ≡ true → Tracks v x t × MovedUp w.path s t
    pub bounded : (v.size ≤ max_log_size) ⊎ (v.size ≡ length x)

  append_into-eq-ok :
      (w : RotatingWriter D) (x : Bytes) (room : Result (RotatingWriter D)) (a : D.State) {n : ℕ}
      {v : RotatingWriter D} {t : D.State}
      → append_into D w x room a ≡ ((n, ok tt), v, t)
      → (u : RotatingWriter D) × (room ≡ ok u) × (append D u x a ≡ ((n, ok tt), v, t))
  append_into-eq-ok w x (ok u) a h = (u, refl, h)
  append_into-eq-ok w x (err e) a h = absurd (cc (ap (λ r. r.0.1) h))

  write-eq-ok :
      (w : RotatingWriter D) (x : Bytes) (s : D.State) {n : ℕ} {v : RotatingWriter D} {t : D.State}
      → write D w x s ≡ ((n, ok tt), v, t)
      → (u : RotatingWriter D) × (a : D.State) × (make_room D w x s ≡ (ok u, a))
        × (append D u x a ≡ ((n, ok tt), v, t))
  unfolding write
  write-eq-ok w x s h =
      let (u, e, appended) = append_into-eq-ok w x (make_room D w x s).0 (make_room D w x s).1 h in
      (u, (make_room D w x s).1, (λ i. (e i, (make_room D w x s).1)), appended)

  write_in_place :
      (w : RotatingWriter D) (c x : Bytes) (s : D.State) {n : ℕ} {v : RotatingWriter D}
      {t : D.State}
      → Tracks w c s
      → must_rotate w.size x ≡ false
      → append D w x s ≡ ((n, ok tt), v, t)
      → (n ≡ length x) × Wrote w c x s v t
  write_in_place w c x s {n} {v} {t} tracked fits appended =
      let (all, kept, now, others) = append-Tracks w c x s tracked appended in
      let grown : v.size ≡ w.size + length x =
        omega (arith, now.size_is, tracked.size_is, length-append c x) in
      (
        all,
        record {
          path_kept = kept;
          in_place = λ _. (now, others);
          in_new = λ full. absurd (cc);
          bounded = size_in_place w.size x fits grown;
        },
      )

  -- Where the writer tracks its file, a write that succeeds has written all of `x`. Without a
  -- rotation `x` stands behind what the active file held, and the other files are as they were; with
  -- one, `x` is all that the active file holds and each segment stands one place further up. The
  -- writer still tracks the file's size, which passes the limit only where `x` alone does.
  pub write-Wrote :
      (w : RotatingWriter D) (c x : Bytes) (s : D.State) {n : ℕ} {v : RotatingWriter D}
      {t : D.State}
      → Tracks w c s
      → write D w x s ≡ ((n, ok tt), v, t)
      → (n ≡ length x) × Wrote w c x s v t
  unfolding make_room
  write-Wrote w c x s {n} {v} {t} tracked h =
      let (u, a, room, appended) = write-eq-ok w x s h in
      let goal = λ (u : RotatingWriter D) (a : D.State).
        append D u x a ≡ ((n, ok tt), v, t) → (n ≡ length x) × Wrote w c x s v t in
      elim (Bool-cases (must_rotate w.size x)) [
        | inl full ↦
            let (same, empty, up) = rotate-Tracks w s (rw full at room) in
            let (all, kept, now, others) = append-Tracks u [] x a empty appended in
            (
              all,
              record {
                path_kept = kept ∙ same;
                in_place = λ fits. absurd (cc);
                in_new = λ _. (
                  now,
                  λ k lt.
                      others (segment w.path (suc k))
                        (λ e. absurd (omega (arith, segment-injective w.path (suc k) 0 (e ∙ same))))
                      ∙ up k lt,
                );
                bounded = inr now.size_is;
              },
            )
        | inr fits ↦ pure_elim goal (rw fits at room) (write_in_place w c x s tracked fits) appended
      ]
