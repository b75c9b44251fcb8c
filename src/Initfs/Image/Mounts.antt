-- ===== src/Initfs/Image/Mounts.antt =====
-- What a mount that fails half way has mounted, and what is registered to undo it.
use mathlib.Core.List.{map-append}
use void_init.Base.{
  map_error, in_context, ◌⊎◌, Exec, ℕ, ◌≡◌, refl, ap, sym, ◌∙◌, inl, inr, List, [], ◌∷◌, ◌++◌, map,
  append_assoc, append-nil, Bytes, codes, Result, ok, err, Exec, pure, continue, wrapping, ◌>>=◌,
  ◌>>◌, Error,
}
use void_init.Vlog.Level.{Level}
use void_init.Os.{Os}
use void_init.Text.FilePath.{join_path}
use void_init.Initfs.Layout.{Layout, bios, efi, root_partition_device, boot_partition_device}
use void_init.Initfs.Exec.{command}
use void_init.Initfs.Exec.Laws.{plain, command-ok, command-state, command-err}
use void_init.Initfs.Cleanup.{Session, on_host, push}
use void_init.Initfs.Cleanup.Pushes.{IsPrefix}
use void_init.Initfs.Image.{
  push_callback, mount_at, mount_below, mount_efi, mounts, mount, unmount_at, remove_root,
}
use void_init.Initfs.Image.Laws.{boot_dir}

abbrev pub mount_command : Bytes → Bytes → List Bytes
mount_command dev dir = codes "mount" ∷ dev ∷ dir ∷ []

-- What is relied on of mounts: the program mount makes one at its place, or it fails and makes none,
-- and the other calls mount nothing.
pub record MountLaws (O : Os) : Type 0 where
  -- The places of the mounts, the first one first.
  pub mounted : O.State → List Bytes
  pub mounted-mount :
      (dev dir : Bytes) (s : O.State)
      → (O.run (plain (mount_command dev dir)) s).0.status ≡ ok tt
      → mounted (O.run (plain (mount_command dev dir)) s).1 ≡ mounted s ++ dir ∷ []
  pub mounted-mount_failed :
      (dev dir : Bytes) (s : O.State) {e : Error}
      → (O.run (plain (mount_command dev dir)) s).0.status ≡ err e
      → mounted (O.run (plain (mount_command dev dir)) s).1 ≡ mounted s
  pub mounted-log : (l : Level) (m : Bytes) (s : O.State) → mounted (O.log l m s) ≡ mounted s
  pub mounted-mkdir_temp : (p : Bytes) (s : O.State) → mounted (O.mkdir_temp p s).1 ≡ mounted s
  pub mounted-mkdir : (p : Bytes) (m : ℕ) (s : O.State) → mounted (O.mkdir p m s).1 ≡ mounted s

module _ {O : Os} (L : MountLaws O) where
  -- From `w` to `v`, mounts were made at the places and their unmountings were registered, both in
  -- that order.
  abbrev pub Mounts : Session O.State → List Bytes → Session O.State → Type 0
  Mounts w dirs v =
      (L.mounted v.host ≡ L.mounted w.host ++ dirs) × (v.fns ≡ w.fns ++ map (unmount_at O) dirs)

  -- A run that fails has made a part of the mounts, from the first on.
  abbrev pub Outcome :
      {A : Type 0} → Session O.State → List Bytes → Result A × Session O.State → Type 0
  Outcome w dirs (ok a, v) = Mounts w dirs v
  Outcome w dirs (err e, v) = (part : List Bytes) × IsPrefix part dirs × Mounts w part v

  Mounts-append :
      (w v u : Session O.State) (dirs more : List Bytes)
      → Mounts w dirs v
      → Mounts v more u
      → Mounts w (dirs ++ more) u
  Mounts-append w v u dirs more (a, b) (c, d) = (
    c ∙ ap (λ l. l ++ more) a ∙ append_assoc (L.mounted w.host) dirs more,
    d
        ∙ ap (λ l. l ++ map (unmount_at O) more) b
        ∙ append_assoc w.fns (map (unmount_at O) dirs) (map (unmount_at O) more)
        ∙ ap (λ l. w.fns ++ l) (sym (map-append (unmount_at O) dirs more)),
  )

  record Tracks {A : Type 0} (m : Exec (Session O.State) A) (dirs : List Bytes) : Type 0 where
    outcome : (w : Session O.State) → Outcome w dirs (m w)

  later :
      {B : Type 0} (w v : Session O.State) (dirs more : List Bytes) (r : Result B)
      (u : Session O.State)
      → Mounts w dirs v
      → Outcome v more (r, u)
      → Outcome w (dirs ++ more) (r, u)
  later w v dirs more (ok b) u h k = Mounts-append w v u dirs more h k
  later w v dirs more (err e) u h (part, (rest, p), k) = (
    dirs ++ part,
    (rest, append_assoc dirs part rest ∙ ap (λ l. dirs ++ l) p),
    Mounts-append w v u dirs part h k,
  )

  module _ {A B : Type 0} (f : A → Exec (Session O.State) B) (dirs more : List Bytes) where
    continue-Outcome :
        (after : (a : A) → Tracks (f a) more) (w : Session O.State) (r : Result A)
        (v : Session O.State)
        → Outcome w dirs (r, v)
        → Outcome w (dirs ++ more) (continue r f v)
    continue-Outcome after w (ok a) v h =
        later w v dirs more (f a v).0 (f a v).1 h ((after a).outcome v)
    continue-Outcome after w (err e) v (part, (rest, p), k) =
        (part, (rest ++ more, sym (append_assoc part rest more) ∙ ap (λ l. l ++ more) p), k)

    bind-Tracks :
        (m : Exec (Session O.State) A)
        → Tracks m dirs
        → ((a : A) → Tracks (f a) more)
        → Tracks (m >>= f) (dirs ++ more)
    unfolding ◌>>=◌
    bind-Tracks m h after = record {
      outcome = λ w. continue-Outcome after w (m w).0 (m w).1 (h.outcome w);
    }

  unmoved :
      (w v : Session O.State) → L.mounted v.host ≡ L.mounted w.host → v.fns ≡ w.fns → Mounts w [] v
  unmoved w v e f = (e ∙ sym (append-nil _), f ∙ sym (append-nil _))

  of_host :
      {A : Type 0} (w : Session O.State) (r : Result A) (h : O.State)
      → L.mounted h ≡ L.mounted w.host
      → Outcome w [] (r, record { host = h; fns = w.fns })
  of_host w (ok a) h e = unmoved w _ e refl
  of_host w (err x) h e = ([], ([], refl), unmoved w _ e refl)

  -- A call on the host that mounts nothing.
  on_host-Tracks :
      {A : Type 0} (m : Exec O.State A)
      → ((s : O.State) → L.mounted (m s).1 ≡ L.mounted s)
      → Tracks (on_host m) []
  unfolding on_host
  on_host-Tracks m same = record {
    outcome = λ w. of_host w (m w.host).0 (m w.host).1 (same w.host);
  }

  -- The command, and what registers its undoing behind a success.
  mount_then_push : (dev dir : Bytes) → Exec (Session O.State) (Unit {0})
  mount_then_push dev dir =
      on_host (command O (mount_command dev dir)) >>= (λ _. push_callback O (unmount_at O dir))

  pushed_behind :
      (dir : Bytes) (w : Session O.State) (r : Result (Unit {0})) (h : O.State)
      → (r ≡ ok tt → L.mounted h ≡ L.mounted w.host ++ dir ∷ [])
      → ((e : Error) → r ≡ err e → L.mounted h ≡ L.mounted w.host)
      → Outcome w
          (dir ∷ [])
          (continue r (λ _. push_callback O (unmount_at O dir)) (record w { host = h }))
  unfolding push_callback push
  pushed_behind dir w (ok _) h made failed = (made refl, refl)
  pushed_behind dir w (err e) h made failed =
      ([], (dir ∷ [], refl), unmoved w _ (failed e refl) refl)

  mount_then_push-Tracks : (dev dir : Bytes) → Tracks (mount_then_push dev dir) (dir ∷ [])
  unfolding mount_then_push on_host ◌>>=◌
  mount_then_push-Tracks dev dir = record {
    outcome = λ w.
        let c = mount_command dev dir in
        let t = (command O c w.host).1 in
        pushed_behind dir w (command O c w.host).0 t
          (λ e.
            let (status, at) = command-ok O c w.host (λ i. (e i, t)) in
            ap L.mounted (sym at)
            ∙ L.mounted-mount dev dir _ status
            ∙ ap (λ l. l ++ dir ∷ []) (L.mounted-log _ _ w.host))
          (λ e failed.
            let (why, status) = command-err O c w.host failed in
            ap L.mounted (command-state O c w.host)
            ∙ L.mounted-mount_failed dev dir _ status
            ∙ L.mounted-log _ _ w.host);
  }

  mount_at-Tracks : (dev dir : Bytes) → Tracks (mount_at O dev dir) (dir ∷ [])
  unfolding mount_at mount_then_push
  mount_at-Tracks dev dir =
      bind-Tracks _ [] (dir ∷ []) _ (on_host-Tracks _ (λ s. L.mounted-log _ _ s))
        (λ _. mount_then_push-Tracks dev dir)

  mount_below-Tracks : (dev dir : Bytes) → Tracks (mount_below O dev dir) (dir ∷ [])
  unfolding mount_below wrapping
  mount_below-Tracks dev dir =
      bind-Tracks _ [] (dir ∷ []) _ (on_host-Tracks _ (λ s. L.mounted-mkdir dir 0o755 s))
        (λ _. mount_at-Tracks dev dir)

  abbrev efi_place : Layout → Bytes → List Bytes
  efi_place efi root = join_path (boot_dir O root ∷ codes "efi" ∷ []) ∷ []
  efi_place bios root = []

  mount_efi-Tracks :
      (l : Layout) (root : Bytes) → Tracks (mount_efi O l (boot_dir O root)) (efi_place l root)
  unfolding mount_efi
  mount_efi-Tracks efi root = mount_below-Tracks _ _
  mount_efi-Tracks bios root = record { outcome = λ w. unmoved w w refl refl }

  -- The places of a whole mount, in their order.
  abbrev pub places : Layout → Bytes → List Bytes
  places l root = root ∷ boot_dir O root ∷ efi_place l root

  mounts_below : Layout → Bytes → Exec (Session O.State) (Unit {0})
  mounts_below l root = do
    mount_at O (root_partition_device l) root
    mount_below O (boot_partition_device l) (boot_dir O root)
    mount_efi O l (boot_dir O root)

  mounts_below-Tracks : (l : Layout) (root : Bytes) → Tracks (mounts_below l root) (places l root)
  unfolding mounts_below
  mounts_below-Tracks l root =
      bind-Tracks _ (root ∷ []) (boot_dir O root ∷ efi_place l root) _ (mount_at-Tracks _ root)
        (λ _.
          bind-Tracks _ (boot_dir O root ∷ []) (efi_place l root) _
            (mount_below-Tracks _ (boot_dir O root)) (λ _. mount_efi-Tracks l root))

  -- From `w` to `v`, mounts were made at the places, in that order, and behind what was on the stack
  -- there are the removal of the directory and the unmounting of each of those mounts.
  abbrev pub Registered : Session O.State → Bytes → List Bytes → Session O.State → Type 0
  Registered w root dirs v =
      (L.mounted v.host ≡ L.mounted w.host ++ dirs)
      × (v.fns ≡ w.fns ++ remove_root O root ∷ map (unmount_at O) dirs)

  abbrev pub made_root : Session O.State → Result Bytes
  made_root w = (O.mkdir_temp (codes "void-initfs-root") w.host).0

  abbrev pub Failed : Layout → Session O.State → Session O.State → Type 0
  Failed l w v =
      ((cause : Error) × (made_root w ≡ err cause)
        × (L.mounted v.host ≡ L.mounted w.host)
        × (v.fns ≡ w.fns))
      ⊎ ((root : Bytes) × (part : List Bytes) × (made_root w ≡ ok root)
          × IsPrefix part (places l root)
          × Registered w root part v)

  abbrev pub Recorded : Layout → Session O.State → Result Bytes × Session O.State → Type 0
  Recorded l w (ok root, v) = (made_root w ≡ ok root) × Registered w root (places l root) v
  Recorded l w (err e, v) = Failed l w v

  with_root :
      (w v : Session O.State) (h : O.State) (root : Bytes) (dirs : List Bytes)
      → L.mounted h ≡ L.mounted w.host
      → Mounts (push (remove_root O root) (record w { host = h })) dirs v
      → Registered w root dirs v
  unfolding push
  with_root w v h root dirs same (a, b) = (
    a ∙ ap (λ l. l ++ dirs) same,
    b ∙ append_assoc w.fns (remove_root O root ∷ []) (map (unmount_at O) dirs),
  )

  returned :
      (l : Layout) (w : Session O.State) (h : O.State) (root : Bytes) (r : Result (Unit {0}))
      (v : Session O.State)
      → made_root w ≡ ok root
      → L.mounted h ≡ L.mounted w.host
      → Outcome (push (remove_root O root) (record w { host = h })) (places l root) (r, v)
      → Recorded l w (continue r (λ _. pure root) v)
  returned l w h root (ok _) v made same k = (made, with_root w v h root (places l root) same k)
  returned l w h root (err e) v made same (part, prefix, k) =
      inr (root, part, made, prefix, with_root w v h root part same k)

  entered :
      (l : Layout) (w : Session O.State) (h : O.State) (r : Result Bytes)
      → made_root w ≡ r
      → L.mounted h ≡ L.mounted w.host
      → Recorded l w (
          continue
            (map_error (in_context (codes "create mount root")) r)
            (λ root. mounts O l root >> pure root)
            (record w { host = h }))
  unfolding mounts mounts_below push_callback ◌>>=◌
  entered l w h (ok root) made same =
      let run = mounts_below l root (push (remove_root O root) (record w { host = h })) in
      returned l w h root run.0 run.1 made same (
        let t = mounts_below-Tracks l root in
        t.outcome (push (remove_root O root) (record w { host = h })))
  entered l w h (err e) made same = inl (e, made, same, refl)

  -- If mount makes a mount exactly where it succeeds, and the other calls make none: `mount` fails
  -- with its directory and leaves the mounts and the stack as they were; or the directory is there,
  -- and behind what was on the stack it registers the removal of the directory and the unmounting of
  -- exactly the mounts that it made, in the order in which it made them. These are all of the layout
  -- if it succeeds, and otherwise the first ones of the layout, as many as there are.
  pub mount-Recorded : (l : Layout) (w : Session O.State) → Recorded l w (mount O l w)
  unfolding mount on_host wrapping ◌>>=◌
  mount-Recorded l w =
      entered l w (O.mkdir_temp (codes "void-initfs-root") w.host).1 (made_root w) refl
        (L.mounted-mkdir_temp _ w.host)
