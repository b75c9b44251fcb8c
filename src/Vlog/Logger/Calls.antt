-- ===== src/Vlog/Logger/Calls.antt =====
-- Any number of calls of a logger, one behind the other, whatever becomes of its file.
use void_init.Base.{
  ◌≡◌, ◌⊎◌, inl, inr, refl, ap, sym, ◌∙◌, subst, Option, none, some, List, [], ◌∷◌, ◌++◌,
  append_assoc, append-nil, Bool-cases, Bytes, Result, ok, err,
}
use void_init.Text.Trim.{is_empty}
use void_init.Vlog.Level.{Level}
use void_init.Vlog.Disk.{Disk, DiskLaws}
use void_init.Vlog.Disk.Handles.{HandleLaws}
use void_init.Vlog.Rotate.{RotatingWriter, write, open_rotating_writer}
use void_init.Vlog.Rotate.History.{concat}
use void_init.Vlog.Rotate.Reach.{Foreign, Outside, Outside-refl, Bound, write-Written}
use void_init.Vlog.Rotate.Opening.{Opened, open_rotating_writer-Opened}
use void_init.Vlog.Logger.{Logger, with_file, new, line, write_line, logf}

abbrev pub Messages : Type 0
Messages = List (Level × Bytes)

module _ (D : Disk) where
  -- The calls of a list, in their order.
  unfoldable pub log_each : Logger D → Messages → D.State → Logger D × D.State
  unfolding logf
  log_each l [] s = (l, s)
  log_each l ((level, text) ∷ more) s = let (m, t) = logf D l level text s in log_each m more t

  -- Their lines, each with the time and the host name of its call.
  unfoldable pub printed_lines : Logger D → Messages → D.State → List Bytes
  unfolding logf line
  printed_lines l [] s = []
  printed_lines l ((level, text) ∷ more) s =
      let (m, t) = logf D l level text s in line D l.program level text s ∷ printed_lines m more t

module _ {D : Disk} {L : DiskLaws D} (H : HandleLaws L) where
  -- The logger's file, if it has one, is bound to the path.
  abbrev Attached : Bytes → Option (RotatingWriter D) → D.State → Type 0
  Attached path none s = Unit
  Attached path (some w) s = (w.path ≡ path) × Bound H w s

  write_line-Outside :
      (path : Bytes) (file : Option (RotatingWriter D)) (x : Bytes) (s : D.State)
      → Attached path file s
      → (let run = write_line D file x s in Attached path run.0 run.1 × Outside H path s run.1)
  unfolding write_line
  write_line-Outside path none x s h = (tt, Outside-refl H path s)
  write_line-Outside path (some w) x s (at, bound) =
      let (same, now, out) = write-Written H w x s bound in
      ((same ∙ at, now), subst (λ p. Outside H p s (write D w x s).2) at out)

  stderr-Attached :
      (path : Bytes) (file : Option (RotatingWriter D)) (x : Bytes) (s : D.State)
      → Attached path file s
      → Attached path file (D.stderr x s)
  stderr-Attached path none x s h = tt
  stderr-Attached path (some w) x s (at, bound) =
      (at, subst (λ o. (o ≡ none) ⊎ (o ≡ some w.path)) (sym (H.stderr-opened x s w.file)) bound)

  -- What is known of a logger that has printed `x`.
  record Said (path : Bytes) (s : D.State) (x : Bytes) (l : Logger D) (t : D.State) : Type 0 where
    pub attached : Attached path l.file t
    pub same_files : (q : Bytes) → Foreign H path q → L.content t q ≡ L.content s q
    pub same_output : H.printed t ≡ H.printed s ++ x

  logf-Said :
      (path : Bytes) (l : Logger D) (level : Level) (text : Bytes) (s : D.State)
      → Attached path l.file s
      → (let run = logf D l level text s in Said path s (line D l.program level text s) run.0 run.1)
  unfolding logf
  logf-Said path l level text s h =
      let x = line D l.program level text s in
      let (now, out) =
        write_line-Outside path l.file x (D.stderr x s) (stderr-Attached path l.file x s h) in
      record {
        attached = now;
        same_files = λ q n. out.same_files q n ∙ H.stderr-content x s q;
        same_output = out.same_output ∙ H.stderr-printed x s;
      }

  log_each-Said :
      (path : Bytes) (l : Logger D) (messages : Messages) (s : D.State)
      → Attached path l.file s
      → (let run = log_each D l messages s in
          Said path s (concat (printed_lines D l messages s)) run.0 run.1)
  unfolding log_each printed_lines
  log_each-Said path l [] s h = record {
    attached = h;
    same_files = λ q n. refl;
    same_output = sym (append-nil (H.printed s));
  }
  log_each-Said path l ((level, text) ∷ more) s h =
      let first = logf-Said path l level text s h in
      let run = logf D l level text s in
      let rest = log_each-Said path run.0 more run.1 first.attached in
      let x = line D l.program level text s in
      record {
        attached = rest.attached;
        same_files = λ q n. rest.same_files q n ∙ first.same_files q n;
        same_output =
            rest.same_output
            ∙ ap (λ o. o ++ concat (printed_lines D run.0 more run.1)) first.same_output
            ∙ append_assoc (H.printed s) x (concat (printed_lines D run.0 more run.1));
      }

  with_file-Attached :
      (path program : Bytes) (s : D.State) (r : Result (RotatingWriter D)) (t : D.State)
      → Opened H path s r t
      → (let run = with_file D program r t in
          Attached path run.0.file run.1
          × ((q : Bytes) → Foreign H path q → L.content run.1 q ≡ L.content s q))
  unfolding with_file
  with_file-Attached path program s (ok w) t (at, bound, out) = ((at, bound), out.same_files)
  with_file-Attached path program s (err e) t out =
      (tt, λ q n. H.stderr-content _ t q ∙ out.same_files q n)

  new-Attached :
      (program path : Bytes) (s : D.State)
      → (let run = new D program path s in
          Attached path run.0.file run.1
          × ((q : Bytes) → Foreign H path q → L.content run.1 q ≡ L.content s q))
  unfolding new
  new-Attached program path s = elim (Bool-cases (is_empty path)) [
    | inl empty ↦ rw empty (tt, λ q n. refl)
    | inr named ↦ rw named (
        with_file-Attached path program s (open_rotating_writer D path s).0
          (open_rotating_writer D path s).1 (open_rotating_writer-Opened H path s))
  ]

  -- Whatever fails in opening, rotating or writing the file, a new logger and any number of its
  -- calls print each line to the standard error, in the order of the calls, and change no file but
  -- the segments of the log.
  pub new-log_each :
      (program path : Bytes) (messages : Messages) (s : D.State)
      → (let (l, a) = new D program path s in
          let t = (log_each D l messages a).1 in
          (H.printed t ≡ H.printed a ++ concat (printed_lines D l messages a))
          × ((q : Bytes) → Foreign H path q → L.content t q ≡ L.content s q))
  new-log_each program path messages s =
      let run = new D program path s in
      let (attached, made) = new-Attached program path s in
      let said = log_each-Said path run.0 messages run.1 attached in
      (said.same_output, λ q n. said.same_files q n ∙ made q n)

  -- Without a file.
  pub log_each-unfiled :
      (program : Bytes) (messages : Messages) (s : D.State) (q : Bytes)
      → L.content (log_each D (record { program = program; file = none }) messages s).1 q
        ≡ L.content s q
  unfolding log_each logf write_line
  log_each-unfiled program [] s q = refl
  log_each-unfiled program ((level, text) ∷ more) s q =
      let x = line D program level text s in
      log_each-unfiled program more (D.stderr x s) q ∙ H.stderr-content x s q
