-- ===== src/Initfs/Exec/Laws.antt =====
-- cmd/void-initfs/exec.go: what a command that succeeds has done.
use void_init.Base.{
  ◌≡◌, refl, ap, ◌∙◌, inl, inr, List, [], ◌++◌, Bytes, codes, Error, ok, err, ◌>>=◌,
}
use void_init.Base.Effects.Laws.{bind-eq-ok, Result-cases}
use void_init.Vlog.Level.{info}
use void_init.Os.{Os, Command}
use void_init.Initfs.Exec.{words, run_words, run_command_env, run_command, command}

abbrev pub plain : List Bytes → Command
plain args = record { env = []; args = args; stdin = [] }

module _ (O : Os) where
  run_words-ok :
      (args : List Bytes) (s : O.State) {out : Bytes} {t : O.State}
      → run_words O [] args s ≡ (ok out, t)
      → ((O.run (plain args) s).0.status ≡ ok tt) × ((O.run (plain args) s).1 ≡ t)
  unfolding run_words
  run_words-ok args s h = elim (Result-cases (O.run (plain args) s).0.status) [
    | inl (_, e) ↦ (e, ap (λ r. r.1) h)
    | inr (why, e) ↦ absurd (cc (ap (λ r. r.0) (rw (e, run_words) at h)))
  ]

  -- A command that succeeds has run behind the line in the log that announces it.
  pub command-ok :
      (args : List Bytes) (s : O.State) {t : O.State}
      → command O args s ≡ (ok tt, t)
      → (let a = O.log info (codes "running: " ++ words args) s in
          ((O.run (plain args) a).0.status ≡ ok tt) × ((O.run (plain args) a).1 ≡ t))
  unfolding command run_command run_command_env ◌>>=◌
  command-ok args s h =
      let (out, b, ran, done) = bind-eq-ok (run_command O args) _ s h in
      let (said, at) = run_words-ok args (O.log info (codes "running: " ++ words args) s) ran in
      (said, at ∙ ap (λ r. r.1) done)

  -- What a command leaves is what the program leaves, whether it succeeds or fails.
  pub command-state :
      (args : List Bytes) (s : O.State)
      → (command O args s).1
        ≡ (O.run (plain args) (O.log info (codes "running: " ++ words args) s)).1
  unfolding command run_command run_command_env run_words ◌>>=◌
  command-state args s =
      let a = O.log info (codes "running: " ++ words args) s in
      elim (Result-cases (O.run (plain args) a).0.status) [
        | inl (_, e) ↦ rw e refl
        | inr (why, e) ↦ rw e refl
      ]

  pub command-err :
      (args : List Bytes) (s : O.State) {e : Error}
      → (command O args s).0 ≡ err e
      → (why : Error) × ((O.run
            (plain args)
            (O.log info (codes "running: " ++ words args) s)).0.status
          ≡ err why)
  unfolding command run_command run_command_env run_words ◌>>=◌
  command-err args s h =
      let a = O.log info (codes "running: " ++ words args) s in
      elim (Result-cases (O.run (plain args) a).0.status) [
        | inl (_, e) ↦ absurd (cc (rw e at h))
        | inr found ↦ found
      ]
