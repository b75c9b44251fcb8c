-- ===== src/Initfs/Run/Prepared.antt =====
-- A run that is not prepared for touches nothing.
use void_init.Base.{
  ◌≡◌, ◌≢◌, ◌⊎◌, ap, inl, inr, List, [], ◌∷◌, All, Bytes, Error, Result, err, continue, ◌>>=◌,
}
use void_init.Os.{Os}
use void_init.Text.Trim.{is_empty}
use void_init.Initfs.Cleanup.{on_host, unwind, run_below}
use void_init.Initfs.Flags.{Config}
use void_init.Initfs.Fstab.{FstabTemplateData}
use void_init.Initfs.Nbd.{Clock}
use void_init.Initfs.Preflight.{required_tools, preflight}
use void_init.Initfs.Preflight.Laws.{Found, Lacking, first, later, preflight-cases}
use void_init.Initfs.Run.{reuse_or_build, steps, fresh, run}
use void_init.Initfs.Xbps.Download.{Remote}

module _ (O : Os) (C : Clock O) (R : Remote O) (template : Bytes)
    (parse : Bytes → Result (FstabTemplateData → Result Bytes)) where
  Found-Lacking :
      (s : O.State) (tools : List Bytes) → All (Found O R s) tools → Lacking O R s tools → ⊥
  Found-Lacking s [] all x = elim x [ ]
  Found-Lacking s (tool ∷ tools) ((path, found), all) (first e missing) = absurd (cc)
  Found-Lacking s (tool ∷ tools) (found, all) (later lacking) = Found-Lacking s tools all lacking

  -- What fails ahead of the stack is the whole run.
  run-eq-err :
      (c : Config) (s : O.State) {e : Error}
      → preflight O R (is_empty c.image) c.update_xbps c.assume_yes s ≡ (err e, s)
      → run O C R template parse c s ≡ (err e, s)
  unfolding run steps on_host ◌>>=◌ unwind run_below
  run-eq-err c s {e} h =
      let rest = λ (p : Result (Unit {0}) × O.State).
        continue p.0 (λ _. reuse_or_build O C R template parse c) (fresh p.1) in
      ap (λ p. ((rest p).0, let w = unwind (rest p).1 in w.host)) h

  -- For another user than root, or where a tool is not found, a run fails and changes nothing on the
  -- host.
  pub run-unprepared :
      (c : Config) (s : O.State)
      → (O.geteuid s ≢ 0) ⊎ Lacking O R s required_tools
      → (e : Error) × (run O C R template parse c s ≡ (err e, s))
  run-unprepared c s lacking =
      elim (preflight-cases O R (is_empty c.image) c.update_xbps c.assume_yes s) [
        | inr (_, (e, failed)) ↦ (e, run-eq-err c s failed)
        | inl (root, all, _) ↦ absurd (elim lacking [
          | inl other ↦ other root
          | inr tool ↦ Found-Lacking s required_tools all tool
        ])
      ]
