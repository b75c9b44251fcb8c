-- ===== src/Vlog/Rotate/Opening.antt =====
-- The opening of the log: whatever fails, no file but the log's segments changes.
use void_init.Base.{
  ℕ, ◌≡◌, inl, inr, refl, subst, Bool-cases, some, Bytes, leb, ok, err, Result, pure, map_error,
  in_context, continue, wrapping, ◌>>=◌,
}
use void_init.Base.Effects.Laws.{bind-post, Result-cases}
use void_init.Text.FilePath.{dir}
use void_init.Vlog.Disk.{Disk, DiskLaws}
use void_init.Vlog.Disk.Handles.{HandleLaws}
use void_init.Vlog.Rotate.{
  RotatingWriter, max_log_size, rotate_if_full, size_or_close, open_rotating_writer,
}
use void_init.Vlog.Rotate.Reach.{
  Outside, Outside-refl, Outside-trans, Bound, open-Outside, close-Outside, rotate_log_file-Outside,
}

module _ {D : Disk} {L : DiskLaws D} (H : HandleLaws L) where
  -- What an opening gives: a writer bound to the path, or an error.
  abbrev pub Opened : Bytes → D.State → Result (RotatingWriter D) → D.State → Type 0
  Opened path s (ok v) t = (v.path ≡ path) × Bound H v t × Outside H path s t
  Opened path s (err e) t = Outside H path s t

  rotate_if_full-Outside :
      (path : Bytes) (s : D.State) → Outside H path s (rotate_if_full D path s).1
  unfolding rotate_if_full
  rotate_if_full-Outside path s = elim (Result-cases (D.stat_size path s)) [
    | inl (size, e) ↦ elim (Bool-cases (leb max_log_size size)) [
      | inl full ↦ rw (e, full, rotate_if_full) (rotate_log_file-Outside H path s)
      | inr fits ↦ rw (e, fits, rotate_if_full) (Outside-refl H path s)
    ]
    | inr (why, e) ↦ rw (e, rotate_if_full) (Outside-refl H path s)
  ]

  abbrev fresh : Bytes → D.Handle → ℕ → RotatingWriter D
  fresh path file size = record { path = path; file = file; size = size }

  sized-Opened :
      (path : Bytes) (s a : D.State) (h : D.Handle)
      → (L.opened a h ≡ some path)
      → Outside H path s a
      → (let run = (size_or_close D path h >>= λ size. pure (fresh path h size)) a in
          Opened path s run.0 run.1)
  unfolding size_or_close ◌>>=◌
  sized-Opened path s a h there out = elim (Result-cases (D.handle_size h a)) [
    | inl (size, e) ↦ rw (e, size_or_close) (refl, inr there, out)
    | inr (why, e) ↦
        rw (e, size_or_close) (Outside-trans H path s a _ out (close-Outside H path h a))
  ]

  reopened-Opened :
      (path : Bytes) (before : Bytes) (s a : D.State) (r : Result D.Handle) (t : D.State)
      → D.open_append path 0o644 a ≡ (r, t)
      → Outside H path s a
      → (let run =
            continue
              (map_error (in_context before) r)
              (λ file. size_or_close D path file >>= λ size. pure (fresh path file size))
              t in
          Opened path s run.0 run.1)
  reopened-Opened path before s a (ok h) t opened out =
      sized-Opened path s t h (H.open-opened path 0o644 a opened) (
        Outside-trans H path s a t out
          (subst (λ r. Outside H path a r.1) opened (open-Outside H path 0o644 a)))
  reopened-Opened path before s a (err e) t failed out =
      Outside-trans H path s a t out
        (subst (λ r. Outside H path a r.1) failed (open-Outside H path 0o644 a))

  pub open_rotating_writer-Opened :
      (path : Bytes) (s : D.State)
      → (let run = open_rotating_writer D path s in Opened path s run.0 run.1)
  unfolding open_rotating_writer wrapping ◌>>=◌
  open_rotating_writer-Opened path s =
      let made : Outside H path s (D.mkdir_all (dir path) 0o755 s).1 = record {
        same_files = λ q n. H.mkdir_all-content _ _ s q;
        same_output = H.mkdir_all-printed _ _ s;
      } in
      bind-post (Outside H path s) (Opened path s) (wrapping _ (D.mkdir_all (dir path) 0o755)) _ s
        made (λ e t out. out)
        λ _ a out.
          bind-post (Outside H path s) (Opened path s) (rotate_if_full D path) _ a
            (Outside-trans H path s a _ out (rotate_if_full-Outside path a)) (λ e t out. out)
            λ _ b out.
              reopened-Opened path _ s b (D.open_append path 0o644 b).0
                (D.open_append path 0o644 b).1 refl out
