-- ===== src/Initfs/Preflight/Laws.antt =====
-- What a run needs before it touches anything.
use void_init.Base.{
  ◌≡◌, ◌≢◌, ◌⊎◌, refl, inl, inr, Bool, Bool-cases, when, List, [], ◌∷◌, ◌++◌, All, Bytes, codes,
  Error, text, ok, err, ◌==◌, arith,
}
use void_init.Base.Effects.Laws.{Result-cases}
use void_init.Os.{Os}
use void_init.Text.Parts.{shown}
use void_init.Initfs.Preflight.{required_tools, preflight}
use void_init.Initfs.Xbps.{ensure_xbps}
use void_init.Initfs.Xbps.Download.{Remote}
use void_init.Initfs.Xbps.Tools.{missing_of}

module _ (O : Os) (R : Remote O) where
  abbrev pub Found : O.State → Bytes → Type 0
  Found s tool = (path : Bytes) × (O.look_path tool s ≡ ok path)

  -- A tool of the list that is not found.
  pub data Lacking (s : O.State) : List Bytes → Type 0 where
    first :
        {tool : Bytes} {tools : List Bytes} (e : Error)
        → O.look_path tool s ≡ err e
        → Lacking s (tool ∷ tools)
    later : {tool : Bytes} {tools : List Bytes} → Lacking s tools → Lacking s (tool ∷ tools)

  missing_of-cases :
      (tools : List Bytes) (s : O.State)
      → (All (Found s) tools × (missing_of O tools s ≡ []))
        ⊎ (Lacking s tools
            × ((tool : Bytes) × (more : List Bytes) × (missing_of O tools s ≡ tool ∷ more)))
  unfolding missing_of
  missing_of-cases [] s = inl (tt, refl)
  missing_of-cases (tool ∷ tools) s = elim (Result-cases (O.look_path tool s)) [
    | inr (e, missing) ↦
        inr (first e missing, (tool, missing_of O tools s, rw (missing_of, missing) refl))
    | inl (path, found) ↦ elim (missing_of-cases tools s) [
      | inl (all, empty) ↦ inl (((path, found), all), rw (missing_of, found, empty) refl)
      | inr (lacking, (other, more, e)) ↦
          inr (later lacking, (other, more, rw (missing_of, found, e) refl))
    ]
  ]

  -- For root with every required tool, the check does what is left for the tools of XBPS, if they are
  -- needed; for another user, or where a tool is not found, it fails and changes nothing.
  pub preflight-cases :
      (need_xbps update assume_yes : Bool) (s : O.State)
      → ((O.geteuid s ≡ 0)
          × All (Found s) required_tools
          × (preflight O R need_xbps update assume_yes s
              ≡ when need_xbps (ensure_xbps O R update assume_yes) s))
        ⊎ (((O.geteuid s ≢ 0) ⊎ Lacking s required_tools)
            × ((e : Error) × (preflight O R need_xbps update assume_yes s ≡ (err e, s))))
  unfolding preflight
  preflight-cases need_xbps update assume_yes s = elim (Bool-cases (O.geteuid s == 0)) [
    | inr other ↦
        inr (inl (ground arith), (text (codes "void-initfs must run as root"), rw other refl))
    | inl root ↦ elim (missing_of-cases required_tools s) [
      | inl (all, empty) ↦ inl (ground arith, all, rw (root, empty) refl)
      | inr (lacking, (tool, others, more)) ↦ inr (
        inr lacking,
        (text (codes "missing required tools: " ++ shown (tool ∷ others)), rw (root, more) refl),
      )
    ]
  ]
