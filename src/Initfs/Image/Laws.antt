-- ===== src/Initfs/Image/Laws.antt =====
-- What a mount that fails half way leaves to be undone.
use void_init.Base.{
  ◌≡◌, refl, sym, List, [], ◌∷◌, ◌++◌, append-nil, Bytes, codes, Result, ok, err, pure, continue,
  ◌>>=◌, ◌>>◌,
}
use void_init.Os.{Os}
use void_init.Text.FilePath.{join_path}
use void_init.Initfs.Layout.{Layout, bios, efi, root_partition_device, boot_partition_device}
use void_init.Initfs.Cleanup.{Session, on_host, push}
use void_init.Initfs.Cleanup.Pushes.{IsPrefix, Left, Pushes, host_then-Pushes, bind-Pushes}
use void_init.Initfs.Image.{
  push_callback, mount_at, mount_below, mount_efi, mounts, mount, unmount_at, remove_root,
}

module _ (O : Os) where
  abbrev pub boot_dir : Bytes → Bytes
  boot_dir root = join_path (root ∷ codes "boot" ∷ [])

  abbrev efi_mount : Layout → Bytes → List (O.State → O.State)
  efi_mount efi root = unmount_at O (join_path (boot_dir root ∷ codes "efi" ∷ [])) ∷ []
  efi_mount bios root = []

  -- What undoes a whole mount, in the order of the registration.
  abbrev pub mount_callbacks : Layout → Bytes → List (O.State → O.State)
  mount_callbacks l root =
      remove_root O root ∷ unmount_at O root ∷ unmount_at O (boot_dir root) ∷ efi_mount l root

  push_callback-Pushes : (f : O.State → O.State) → Pushes (push_callback O f) (f ∷ [])
  unfolding push_callback push
  push_callback-Pushes f = record { left = λ w. refl }

  mount_at-Pushes : (dev dir : Bytes) → Pushes (mount_at O dev dir) (unmount_at O dir ∷ [])
  unfolding mount_at
  mount_at-Pushes dev dir =
      host_then-Pushes _ _ _ (λ _. host_then-Pushes _ _ _ (λ _. push_callback-Pushes _))

  mount_below-Pushes : (dev dir : Bytes) → Pushes (mount_below O dev dir) (unmount_at O dir ∷ [])
  unfolding mount_below
  mount_below-Pushes dev dir = host_then-Pushes _ _ _ (λ _. mount_at-Pushes dev dir)

  pure-Pushes : {A : Type 0} (a : A) → Pushes {S = O.State} (pure a) []
  pure-Pushes a = record { left = λ w. sym (append-nil w.fns) }

  mount_efi-Pushes :
      (l : Layout) (root : Bytes) → Pushes (mount_efi O l (boot_dir root)) (efi_mount l root)
  unfolding mount_efi
  mount_efi-Pushes efi root = mount_below-Pushes _ _
  mount_efi-Pushes bios root = pure-Pushes tt

  mounts-Pushes : (l : Layout) (root : Bytes) → Pushes (mounts O l root) (mount_callbacks l root)
  unfolding mounts
  mounts-Pushes l root = bind-Pushes _ _ _ _ (push_callback-Pushes (remove_root O root)) (λ _.
      bind-Pushes _ _ _ _ (mount_at-Pushes (root_partition_device l) root) (λ _.
        bind-Pushes _ _ _ _ (mount_below-Pushes (boot_partition_device l) (boot_dir root))
          (λ _. mount_efi-Pushes l root)))

  -- What a run of `mount` leaves: it returns a directory and everything to undo its mounts, or it
  -- fails and leaves a part of that, from its start.
  abbrev pub Mounted : Layout → List (O.State → O.State) → Result Bytes × Session O.State → Type 0
  Mounted l before (ok root, w) = w.fns ≡ before ++ mount_callbacks l root
  Mounted l before (err e, w) =
      (root : Bytes) × (part : List (O.State → O.State)) × IsPrefix part (mount_callbacks l root)
      × (w.fns ≡ before ++ part)

  returned :
      (l : Layout) (root : Bytes) (before : List (O.State → O.State)) (r : Result (Unit {0}))
      (w : Session O.State)
      → Left before (mount_callbacks l root) (r, w)
      → Mounted l before (continue r (λ _. pure root) w)
  returned l root before (ok u) w h = h
  returned l root before (err e) w (part, p, q) = (root, part, p, q)

  entered :
      (l : Layout) (r : Result Bytes) (w : Session O.State)
      → Mounted l w.fns (continue r (λ root. mounts O l root >> pure root) w)
  unfolding ◌>>=◌
  entered l (ok root) w =
      returned l root w.fns (mounts O l root w).0 (mounts O l root w).1
        ((mounts-Pushes l root).left w)
  entered l (err e) w = ([], [], (_, refl), sym (append-nil w.fns))

  -- Behind what was on the stack, a `mount` that succeeds registers the removal of its directory and
  -- the unmounting of each place of the layout, in their order; one that fails registers an initial
  -- part of these.
  pub mount-Mounted : (l : Layout) (w : Session O.State) → Mounted l w.fns (mount O l w)
  unfolding mount on_host ◌>>=◌
  mount-Mounted l w = entered l _ _
