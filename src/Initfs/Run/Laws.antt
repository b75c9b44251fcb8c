-- ===== src/Initfs/Run/Laws.antt =====
-- What a run leaves of what it did to the host.
use void_init.Base.{
  ◌≡◌, refl, sym, ap, ◌∙◌, Bool-cases, inl, inr, not, List, [], ◌∷◌, ◌++◌, append_assoc, append-nil,
  subst, Bytes, Error, Result, ok, err, Exec, continue, ◌>>=◌, ◌>>◌,
}
use void_init.Os.{Os}
use void_init.Text.Trim.{is_empty}
use void_init.Initfs.Cleanup.{Session, on_host, push, unwind}
use void_init.Initfs.Cleanup.Laws.{last_first, pushed, unwind-pushed}
use void_init.Initfs.Cleanup.Pushes.{IsPrefix}
use void_init.Initfs.Flags.{Config}
use void_init.Initfs.Fstab.{FstabTemplateData}
use void_init.Initfs.Image.{mount, push_callback}
use void_init.Initfs.Image.Laws.{mount_callbacks, Mounted, mount-Mounted}
use void_init.Initfs.Layout.{Layout, bios}
use void_init.Initfs.Nbd.{Clock, detach_image}
use void_init.Initfs.Run.{run_reuse, run_build, reuse_or_build, steps, fresh, run}
use void_init.Initfs.Xbps.Download.{Remote}

module _ {S : Type 0} where
  pushed-fns : (fns : List (S → S)) (w : Session S) → pushed fns w ≡ record w { fns = w.fns ++ fns }
  unfolding push
  pushed-fns [] w = ap (λ l. record w { fns = l }) (sym (append-nil w.fns))
  pushed-fns (f ∷ fns) w =
      pushed-fns fns (push f w) ∙ ap (λ l. record w { fns = l }) (append_assoc w.fns (f ∷ []) fns)

  -- Unwinding applies the whole stack from its end.
  unwind-host : (w : Session S) → (let v = unwind w in v.host) ≡ last_first w.fns w.host
  unfolding unwind
  unwind-host w =
      ap (λ (v : Session S). let u = unwind v in u.host)
        (sym (pushed-fns w.fns (record w { fns = [] })))
      ∙ ap (λ (v : Session S). v.host) (unwind-pushed w.fns (record w { fns = [] })).0

module _ (O : Os) (C : Clock O) (R : Remote O) (template : Bytes)
    (parse : Bytes → Result (FstabTemplateData → Result Bytes)) where
  -- What undoes a whole run.
  abbrev pub callbacks : Layout → Bytes → List (O.State → O.State)
  callbacks l root = detach_image O C ∷ mount_callbacks O l root

  abbrev pub Covers :
      Result (Unit {0}) → List (O.State → O.State) → List (O.State → O.State) → Type 0
  Covers (ok _) part all = part ≡ all
  Covers (err _) part all = IsPrefix part all

  -- A run that succeeds has registered all of them, and one that fails a part, from the first on.
  abbrev pub Kept : Result (Unit {0}) × Session O.State → Type 0
  Kept (r, w) = (l : Layout) × (root : Bytes) × Covers r w.fns (callbacks l root)

  finished :
      (l : Layout) (root : Bytes) (r : Result (Unit {0})) (w : Session O.State)
      → w.fns ≡ callbacks l root
      → Kept (r, w)
  finished l root (ok u) w e = (l, root, e)
  finished l root (err x) w e = (l, root, ([], append-nil w.fns ∙ e))

  part_way :
      (l : Layout) (root : Bytes) (x : Error) (w : Session O.State)
      → IsPrefix w.fns (callbacks l root)
      → Kept (err x, w)
  part_way l root x w p = (l, root, p)

  -- Behind the push of `detachImage`: a mount, and calls on the host.
  below_mount :
      (l : Layout) (g : Bytes → Exec O.State (Unit {0})) (r : Result Bytes) (w : Session O.State)
      → Mounted O l (detach_image O C ∷ []) (r, w)
      → Kept (continue r (λ root. on_host (g root)) w)
  unfolding on_host
  below_mount l g (ok root) w h =
      finished l root (g root w.host).0 (record w { host = (g root w.host).1 }) h
  below_mount l g (err x) w (root, part, (rest, p), q) =
      part_way l root x w (rest, ap (λ fns. fns ++ rest) q ∙ ap (λ fns. detach_image O C ∷ fns) p)

  mount_then :
      (l : Layout) (g : Bytes → Exec O.State (Unit {0})) (w : Session O.State)
      → w.fns ≡ detach_image O C ∷ []
      → Kept ((mount O l >>= (λ root. on_host (g root))) w)
  unfolding ◌>>=◌
  mount_then l g w e =
      below_mount l g (mount O l w).0 (mount O l w).1
        (subst (λ fns. Mounted O l fns (mount O l w)) e (mount-Mounted O l w))

  continued :
      {A : Type 0} (fns : List (O.State → O.State)) (f : A → Exec (Session O.State) (Unit {0}))
      (r : Result A) (w : Session O.State)
      → IsPrefix fns (callbacks bios [])
      → w.fns ≡ fns
      → ((a : A) (v : Session O.State) → v.fns ≡ fns → Kept (f a v))
      → Kept (continue r f w)
  continued fns f (ok a) w p e after = after a w e
  continued fns f (err x) w (rest, p) e after =
      part_way bios [] x w (rest, ap (λ l. l ++ rest) e ∙ p)

  -- A call on the host in front of what keeps the stack.
  host_then :
      {A : Type 0} (fns : List (O.State → O.State)) (m : Exec O.State A)
      (f : A → Exec (Session O.State) (Unit {0})) (w : Session O.State)
      → IsPrefix fns (callbacks bios [])
      → w.fns ≡ fns
      → ((a : A) (v : Session O.State) → v.fns ≡ fns → Kept (f a v))
      → Kept ((on_host m >>= f) w)
  unfolding ◌>>=◌ on_host
  host_then fns m f w p e after =
      continued fns f (m w.host).0 (record w { host = (m w.host).1 }) p e after

  unattached : IsPrefix [] (callbacks bios [])
  unattached = (_, refl)

  attached : IsPrefix (detach_image O C ∷ []) (callbacks bios [])
  attached = (_, refl)

  -- The push of `detachImage` on the empty stack.
  push_then :
      (m : Exec (Session O.State) (Unit {0})) (w : Session O.State)
      → w.fns ≡ []
      → ((v : Session O.State) → v.fns ≡ detach_image O C ∷ [] → Kept (m v))
      → Kept ((push_callback O (detach_image O C) >> m) w)
  unfolding ◌>>=◌ push_callback push
  push_then m w e after = after _ (ap (λ fns. fns ++ detach_image O C ∷ []) e)

  run_reuse-Kept :
      (c : Config) (w : Session O.State) → w.fns ≡ [] → Kept (run_reuse O C R template parse c w)
  unfolding run_reuse
  run_reuse-Kept c w e = host_then [] _ _ w unattached e (λ _ v h.
      push_then _ v h
        (λ u i. host_then (detach_image O C ∷ []) _ _ u attached i (λ l t j. mount_then l _ t j)))

  run_build-Kept :
      (c : Config) (w : Session O.State) → w.fns ≡ [] → Kept (run_build O C R template parse c w)
  unfolding run_build
  run_build-Kept c w e = host_then [] _ _ w unattached e (λ _ v h.
      push_then _ v h
        (λ u i. host_then (detach_image O C ∷ []) _ _ u attached i (λ _ t j. mount_then _ _ t j)))

  reuse_or_build-Kept :
      (c : Config) (w : Session O.State)
      → w.fns ≡ []
      → Kept (reuse_or_build O C R template parse c w)
  unfolding reuse_or_build
  reuse_or_build-Kept c w e = elim (Bool-cases (not (is_empty c.image))) [
    | inl h ↦ rw h (run_reuse-Kept c w e)
    | inr h ↦ rw h (run_build-Kept c w e)
  ]

  steps-Kept : (c : Config) (s : O.State) → Kept (steps O C R template parse c (fresh s))
  unfolding steps
  steps-Kept c s = host_then [] _ _ (fresh s) unattached refl (λ _ v e. reuse_or_build-Kept c v e)

  -- However a run ends, it then runs the callbacks on its stack, from the last to the first; of a
  -- run that succeeds these are the detachment of the image, the removal of the mounts' directory
  -- and the unmounting of each mount of a layout, in the order of their registration, and of a run
  -- that fails they are an initial part of such a list.
  pub run-Undone :
      (c : Config) (s : O.State)
      → (run O C R template parse c s
          ≡ (let (r, w) = steps O C R template parse c (fresh s) in (r, last_first w.fns w.host)))
        × Kept (steps O C R template parse c (fresh s))
  unfolding run
  run-Undone c s =
      (ap (λ h. ((steps O C R template parse c (fresh s)).0, h)) (unwind-host _), steps-Kept c s)
