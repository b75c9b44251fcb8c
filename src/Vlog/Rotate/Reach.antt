-- ===== src/Vlog/Rotate/Reach.antt =====
-- Which files the log can reach: whatever fails, no file but its segments changes, and nothing is
-- printed.
use void_init.Base.{
  ℕ, zero, suc, ◌≤◌, ◌≡◌, ◌≢◌, ◌⊎◌, inl, inr, refl, sym, ◌∙◌, subst, Bool-cases, none, some, Bytes,
  ok, err, Result, pure, map_error, in_context, continue, wrapping, ◌>>=◌, arith,
}
use void_init.Base.Effects.Laws.{bind-post}
use void_init.Vlog.Disk.{Disk, DiskLaws}
use void_init.Vlog.Disk.Handles.{HandleLaws}
use void_init.Vlog.Rotate.{
  RotatingWriter, max_log_backups, must_rotate, unless_missing, rename_backup, shift_backups,
  rotate_log_file, rotate, make_room, append, append_into, write,
}
use void_init.Vlog.Rotate.Shift.{segment}

module _ {D : Disk} {L : DiskLaws D} (H : HandleLaws L) where
  -- A file of the log: the active one or a backup that can come of it.
  abbrev pub Foreign : Bytes → Bytes → Type 0
  Foreign path q = (k : ℕ) → k ≤ max_log_backups → q ≢ segment path k

  -- `t` differs from `s` in files of the log at most.
  pub record Outside (path : Bytes) (s t : D.State) : Type 0 where
    pub same_files : (q : Bytes) → Foreign path q → L.content t q ≡ L.content s q
    pub same_output : H.printed t ≡ H.printed s

  pub Outside-refl : (path : Bytes) (s : D.State) → Outside path s s
  Outside-refl path s = record { same_files = λ q _. refl; same_output = refl }

  pub Outside-trans :
      (path : Bytes) (s a t : D.State) → Outside path s a → Outside path a t → Outside path s t
  Outside-trans path s a t f g = record {
    same_files = λ q n. g.same_files q n ∙ f.same_files q n;
    same_output = g.same_output ∙ f.same_output;
  }

  -- A rotation keeps what removals and renames keep, and all but the files of the log.
  module _ (path : Bytes) (s : D.State) (C : D.State → Type 0)
      (removed : (p : Bytes) (a : D.State) → C a → C (D.remove p a).1)
      (renamed : (p q : Bytes) (a : D.State) → C a → C (D.rename p q a).1) where
    abbrev Kept : D.State → Type 0
    Kept t = C t × Outside path s t

    remove-Kept :
        (k : ℕ) (a : D.State) → k ≤ max_log_backups → Kept a → Kept (D.remove (segment path k) a).1
    remove-Kept k a le (c, out) = (
      removed _ a c,
      record {
        same_files = λ q n. L.remove-frame _ a q (n k le) ∙ out.same_files q n;
        same_output = H.remove-printed _ a ∙ out.same_output;
      },
    )

    rename-Kept :
        (j k : ℕ) (a : D.State)
        → j ≤ max_log_backups
        → k ≤ max_log_backups
        → Kept a
        → Kept (rename_backup D (segment path j) (segment path k) a).1
    unfolding rename_backup unless_missing
    rename-Kept j k a lej lek (c, out) = (
      renamed _ _ a c,
      record {
        same_files = λ q n. L.rename-frame _ _ a q (n j lej) (n k lek) ∙ out.same_files q n;
        same_output = H.rename-printed _ _ a ∙ out.same_output;
      },
    )

    shift_backups-Kept :
        (n : ℕ) (a : D.State) → suc n ≤ max_log_backups → Kept a → Kept (shift_backups D path n a).1
    unfolding shift_backups
    shift_backups-Kept zero a le c = c
    shift_backups-Kept (suc n) a le c =
        bind-post Kept (λ _ t. Kept t) _ _ a
          (rename-Kept (suc n) (suc (suc n)) a (omega (arith, le)) le c) (λ _ _ c. c)
          (λ _ b c. shift_backups-Kept n b (omega (arith, le)) c)

    rotate_log_file-Kept : (a : D.State) → Kept a → Kept (rotate_log_file D path a).1
    unfolding rotate_log_file unless_missing
    rotate_log_file-Kept a c =
        bind-post Kept (λ _ t. Kept t) _ _ a (remove-Kept 5 a (omega arith) c) (λ _ _ c. c)
          λ _ b c.
            bind-post Kept (λ _ t. Kept t) (shift_backups D path 4) _ b
              (shift_backups-Kept 4 b (omega arith) c) (λ _ _ c. c)
              λ _ d c. rename-Kept 0 1 d (omega arith) (omega arith) c

  -- A state in which a handle is closed.
  abbrev Closed : Bytes → D.Handle → D.State → D.State → Type 0
  Closed path h s t = (L.opened t h ≡ none) × Outside path s t

  rotate_log_file-Closed :
      (path : Bytes) (h : D.Handle) (s a : D.State)
      → Closed path h s a
      → Closed path h s (rotate_log_file D path a).1
  rotate_log_file-Closed path h s a c =
      rotate_log_file-Kept path s (λ t. L.opened t h ≡ none) (λ p a o. H.remove-closed p a h o)
        (λ p q a o. H.rename-closed p q a h o) a c

  pub rotate_log_file-Outside :
      (path : Bytes) (s : D.State) → Outside path s (rotate_log_file D path s).1
  rotate_log_file-Outside path s =
      (rotate_log_file-Kept path s (λ _. Unit {0}) (λ _ _ c. c) (λ _ _ _ c. c) s
        (tt, Outside-refl path s)).1

  -- A writer's file is closed, or it is open by the writer's path.
  abbrev pub Bound : RotatingWriter D → D.State → Type 0
  Bound w t = (L.opened t w.file ≡ none) ⊎ (L.opened t w.file ≡ some w.path)

  -- What is known of a run that gives a writer for `path`, or fails and leaves the writer `w`.
  abbrev Room : RotatingWriter D → D.State → Result (RotatingWriter D) → D.State → Type 0
  Room w s (ok v) t = (v.path ≡ w.path) × Bound v t × Outside w.path s t
  Room w s (err e) t = Bound w t × Outside w.path s t

  pub open-Outside :
      (path : Bytes) (m : ℕ) (s : D.State) → Outside path s (D.open_append path m s).1
  open-Outside path m s = record {
    same_files = λ q n. L.open-frame path m s q (n 0 (omega arith));
    same_output = H.open-printed path m s;
  }

  pub close-Outside : (path : Bytes) (h : D.Handle) (s : D.State) → Outside path s (D.close h s).1
  close-Outside path h s = record {
    same_files = λ q n. L.close-frame h s q;
    same_output = H.close-printed h s;
  }

  reopened-Room :
      (w : RotatingWriter D) (before : Bytes) (s a : D.State) (r : Result D.Handle) (t : D.State)
      → D.open_append w.path 0o644 a ≡ (r, t)
      → Closed w.path w.file s a
      → (let run =
            continue
              (map_error (in_context before) r)
              (λ file. pure (record w { file = file; size = 0 }))
              t in
          Room w s run.0 run.1)
  reopened-Room w before s a (ok h) t opened (closed, out) = (
    refl,
    inr (H.open-opened w.path 0o644 a opened),
    Outside-trans w.path s a t out
        (subst (λ r. Outside w.path a r.1) opened (open-Outside w.path 0o644 a)),
  )
  reopened-Room w before s a (err e) t failed (closed, out) = (
    inl (H.open-failed w.path 0o644 a w.file failed closed),
    Outside-trans w.path s a t out
        (subst (λ r. Outside w.path a r.1) failed (open-Outside w.path 0o644 a)),
  )

  rotate-Room : (w : RotatingWriter D) (s : D.State) → Room w s (rotate D w s).0 (rotate D w s).1
  unfolding rotate wrapping ◌>>=◌
  rotate-Room w s =
      let closed : Closed w.path w.file s (D.close w.file s).1 =
        (H.close-closed w.file s, close-Outside w.path w.file s) in
      bind-post (Closed w.path w.file s) (Room w s) (wrapping _ (D.close w.file)) _ s closed
        (λ e t c. (inl c.0, c.1))
        λ _ a c.
          bind-post (Closed w.path w.file s) (Room w s) (rotate_log_file D w.path) _ a
            (rotate_log_file-Closed w.path w.file s a c) (λ e t c. (inl c.0, c.1))
            λ _ b c.
              reopened-Room w _ s b (D.open_append w.path 0o644 b).0
                (D.open_append w.path 0o644 b).1 refl c

  make_room-Room :
      (w : RotatingWriter D) (x : Bytes) (s : D.State)
      → Bound w s
      → Room w s (make_room D w x s).0 (make_room D w x s).1
  unfolding make_room
  make_room-Room w x s bound = elim (Bool-cases (must_rotate w.size x)) [
    | inl full ↦ rw full (rotate-Room w s)
    | inr fits ↦ rw fits (refl, bound, Outside-refl w.path s)
  ]

  write_handle-Outside :
      (w : RotatingWriter D) (x : Bytes) (s : D.State)
      → Bound w s
      → Outside w.path s (D.write w.file x s).1
  write_handle-Outside w x s bound = record {
    same_files = λ q n. elim bound [
      | inl closed ↦ H.write-closed w.file x s q closed
      | inr there ↦ L.write-frame w.file x s q there (n 0 (omega arith))
    ];
    same_output = H.write-printed w.file x s;
  }

  -- The writer that a write leaves, and the state.
  abbrev pub Written : RotatingWriter D → D.State → RotatingWriter D → D.State → Type 0
  Written w s v t = (v.path ≡ w.path) × Bound v t × Outside w.path s t

  append_into-Written :
      (w : RotatingWriter D) (x : Bytes) (s : D.State) (room : Result (RotatingWriter D))
      (a : D.State)
      → Room w s room a
      → (let run = append_into D w x room a in Written w s run.1 run.2)
  unfolding append
  append_into-Written w x s (ok v) a (same, bound, out) = (
    same,
    subst (λ o. (o ≡ none) ⊎ (o ≡ some v.path)) (sym (H.write-opened v.file x a)) bound,
    Outside-trans w.path s a _ out
        (subst (λ p. Outside p a (D.write v.file x a).1) same (write_handle-Outside v x a bound)),
  )
  append_into-Written w x s (err e) a (bound, out) = (refl, bound, out)

  -- Whether a write succeeds or not, no file but the log's segments changes, nothing is printed, and
  -- the writer stays bound to its path.
  pub write-Written :
      (w : RotatingWriter D) (x : Bytes) (s : D.State)
      → Bound w s
      → (let run = write D w x s in Written w s run.1 run.2)
  unfolding write
  write-Written w x s bound =
      append_into-Written w x s (make_room D w x s).0 (make_room D w x s).1
        (make_room-Room w x s bound)
