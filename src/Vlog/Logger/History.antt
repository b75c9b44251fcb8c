-- ===== src/Vlog/Logger/History.antt =====
-- The lines of a logger in its file, over any number of rotations.
use void_init.Base.{
  ℕ, zero, suc, ◌≡◌, ap, sym, ◌∙◌, subst, some, [], ◌∷◌, ◌++◌, append-nil, Bytes, ok,
}
use void_init.Vlog.Disk.{Disk, DiskLaws}
use void_init.Vlog.Disk.Handles.{HandleLaws}
use void_init.Vlog.Rotate.{RotatingWriter, max_log_backups, write}
use void_init.Vlog.Rotate.Shift.{segment}
use void_init.Vlog.Rotate.Write.{Tracks, write-Wrote}
use void_init.Vlog.Rotate.History.{
  bytes_of, concat, history, IsSuffix, IsSuffix-trans, Kept, Wrote-Kept,
}
use void_init.Vlog.Logger.{Logger, line, logf}
use void_init.Vlog.Logger.Calls.{Messages, log_each, printed_lines}

abbrev pub logging_to : {D : Disk} → Bytes → RotatingWriter D → Logger D
logging_to program w = record { program = program; file = some w }

module _ {D : Disk} {L : DiskLaws D} (H : HandleLaws L) where
  -- None of the calls' writes to the file fails. A logger does not tell.
  abbrev pub AllWritten : Bytes → RotatingWriter D → Messages → D.State → Type 0
  AllWritten program w [] s = Unit
  AllWritten program w ((level, text) ∷ more) s =
      let x = line D program level text s in
      let run = write D w x (D.stderr x s) in
      (run.0.1 ≡ ok tt) × AllWritten program run.1 more run.2

  stderr-Tracks :
      (w : RotatingWriter D) (c x : Bytes) (s : D.State)
      → Tracks L w c s
      → Tracks L w c (D.stderr x s)
  stderr-Tracks w c x s h = record {
    file_open = H.stderr-opened x s w.file ∙ h.file_open;
    holds = H.stderr-content x s w.path ∙ h.holds;
    size_is = h.size_is;
  }

  history-stderr :
      (path : Bytes) (n : ℕ) (x : Bytes) (s : D.State)
      → history L path n (D.stderr x s) ≡ history L path n s
  history-stderr path zero x s = ap bytes_of (H.stderr-content x s path)
  history-stderr path (suc n) x s =
      ap (λ c. bytes_of c ++ history L path n (D.stderr x s))
        (H.stderr-content x s (segment path (suc n)))
      ∙ ap (λ h. bytes_of (L.content s (segment path (suc n))) ++ h) (history-stderr path n x s)

  -- One call.
  logged-Kept :
      (w : RotatingWriter D) (c x : Bytes) (s : D.State)
      → Tracks L w c s
      → (write D w x (D.stderr x s)).0.1 ≡ ok tt
      → (let run = write D w x (D.stderr x s) in Kept L w x (D.stderr x s) run.1 run.2)
  logged-Kept w c x s tracked fine =
      let now = stderr-Tracks w c x s tracked in
      let run = write D w x (D.stderr x s) in
      Wrote-Kept L w c x (D.stderr x s) run.1 run.2 now
        (write-Wrote L w c x (D.stderr x s) now (λ i. ((run.0.0, fine i), run.1, run.2))).1

  -- If the logger's writer tracks its file, and none of its writes fails, any number of calls leave,
  -- as the text of the segments from the oldest to the active file, an end of what that text was
  -- before with the lines of all calls behind it, in their order.
  pub log_each-history :
      (program : Bytes) (w : RotatingWriter D) (c : Bytes) (messages : Messages) (s : D.State)
      → Tracks L w c s
      → AllWritten program w messages s
      → IsSuffix
          (history L w.path max_log_backups (log_each D (logging_to program w) messages s).1)
          (history L w.path max_log_backups s
            ++ concat (printed_lines D (logging_to program w) messages s))
  unfolding log_each printed_lines logf
  log_each-history program w c [] s tracked all = ([], sym (append-nil _))
  log_each-history program w c ((level, text) ∷ more) s tracked (fine, all) =
      let x = line D program level text s in
      let run = write D w x (D.stderr x s) in
      let kept = logged-Kept w c x s tracked fine in
      let lines = concat (printed_lines D (logging_to program run.1) more run.2) in
      let after = (log_each D (logging_to program run.1) more run.2).1 in
      IsSuffix-trans _ _ _ x lines
        (subst (λ h. IsSuffix (history L w.path max_log_backups run.2) (h ++ x))
          (history-stderr w.path max_log_backups x s) kept.suffix)
        (subst
          (λ p.
            IsSuffix (history L p max_log_backups after)
              (history L p max_log_backups run.2 ++ lines))
          kept.path_kept (log_each-history program run.1 kept.now.0 more run.2 kept.now.1 all))
