-- ===== src/Init/Cloudinit/Laws.antt =====
-- The search leaves no device mounted.
use void_init.Base.{
  ◌≡◌, refl, ◌∙◌, List, [], ◌∷◌, ◌++◌, Bytes, Result, ok, err, Error, Exec, continue, ◌>>=◌,
  Option-cases, query, inl, inr, wrapping,
}
use void_init.Base.Effects.Laws.{Result-cases}
use void_init.Os.{Os, log_info}
use void_init.Vlog.Level.{Level}
use void_init.Init.Cloudinit.{
  cloud_init_sources, read_file_from_device, scan, glob_all, scan_devices, scan_if_any,
  find_cloud_init_file,
}

-- What is relied on of mounts: the last one is undone by an unmounting at its place, and the other
-- calls of the search mount nothing.
pub record MountLaws (O : Os) : Type 0 where
  -- The places of the mounts, the last one first.
  pub mounted : O.State → List Bytes
  pub mounted-mount :
      (device place : Bytes) (s : O.State) {t : O.State}
      → O.mount device place s ≡ (ok tt, t)
      → mounted t ≡ place ∷ mounted s
  pub mounted-mount_failed :
      (device place : Bytes) (s : O.State) {e : Error} {t : O.State}
      → O.mount device place s ≡ (err e, t)
      → mounted t ≡ mounted s
  pub mounted-unmount :
      (place : Bytes) (others : List Bytes) (s : O.State)
      → mounted s ≡ place ∷ others
      → mounted (O.unmount place s) ≡ others
  pub mounted-log : (l : Level) (m : Bytes) (s : O.State) → mounted (O.log l m s) ≡ mounted s
  pub mounted-mkdir_temp : (p : Bytes) (s : O.State) → mounted (O.mkdir_temp p s).1 ≡ mounted s
  pub mounted-remove_all : (p : Bytes) (s : O.State) → mounted (O.remove_all p s).1 ≡ mounted s

module _ (O : Os) (L : MountLaws O) where
  -- Every run of an action leaves the mounts as they are.
  record Undoes {A : Type 0} (m : Exec O.State A) : Type 0 where
    same : (s : O.State) → L.mounted (m s).1 ≡ L.mounted s

  continue-same :
      {A B : Type 0} (f : A → Exec O.State B) (r : Result A) (s : O.State)
      → ((a : A) → Undoes (f a))
      → L.mounted (continue r f s).1 ≡ L.mounted s
  continue-same f (ok a) s h = (h a).same s
  continue-same f (err e) s h = refl

  bind-Undoes :
      {A B : Type 0} (m : Exec O.State A) (f : A → Exec O.State B)
      → Undoes m
      → ((a : A) → Undoes (f a))
      → Undoes (m >>= f)
  unfolding ◌>>=◌
  bind-Undoes m f first later = record {
    same = λ s. continue-same f (m s).0 (m s).1 later ∙ first.same s;
  }

  read_file_from_device-Undoes :
      (device place name : Bytes) → Undoes (read_file_from_device O device place name)
  unfolding read_file_from_device
  read_file_from_device-Undoes device place name = record {
    same = λ s. elim (Result-cases (O.mount device place s).0) [
      | inl (_, there) ↦
          let t = (O.mount device place s).1 in
          rw (read_file_from_device, there)
            (L.mounted-unmount place (L.mounted s) t
              (L.mounted-mount device place s (λ i. (there i, t))))
      | inr (e, failed) ↦
          rw (read_file_from_device, failed)
            (L.mounted-mount_failed device place s (λ i. (failed i, (O.mount device place s).1)))
    ];
  }

  scan-same :
      (place name : Bytes) (all devices : List Bytes) (s : O.State)
      → L.mounted (scan O place name all devices s).1 ≡ L.mounted s
  unfolding scan
  scan-same place name all [] s = refl
  scan-same place name all (device ∷ devices) s =
      let read = read_file_from_device-Undoes device place name in
      let t = (read_file_from_device O device place name s).1 in
      elim (Result-cases (read_file_from_device O device place name s).0) [
        | inr (e, refused) ↦
            rw (scan, refused)
              (scan-same place name all devices _ ∙ L.mounted-log _ _ t ∙ read.same s)
        | inl (found, e) ↦ elim (Option-cases found) [
          | inl missing ↦ rw (scan, e, missing) (scan-same place name all devices t ∙ read.same s)
          | inr (content, there) ↦ rw (scan, e, there) (L.mounted-log _ _ t ∙ read.same s)
        ]
      ]

  query-Undoes : {A : Type 0} (f : O.State → Result A) → Undoes (query f)
  query-Undoes f = record { same = λ s. refl }

  wrapping-Undoes :
      {A : Type 0} (before : Bytes) (m : Exec O.State A) → Undoes m → Undoes (wrapping before m)
  unfolding wrapping
  wrapping-Undoes before m h = record { same = λ s. h.same s }

  log-Undoes : (m : Bytes) → Undoes (log_info O m)
  log-Undoes m = record { same = λ s. L.mounted-log _ _ s }

  glob_all-Undoes : (patterns devices : List Bytes) → Undoes (glob_all O patterns devices)
  unfolding glob_all
  glob_all-Undoes [] devices = record { same = λ s. refl }
  glob_all-Undoes (pattern ∷ patterns) devices =
      bind-Undoes _ _ (wrapping-Undoes _ _ (query-Undoes _))
        (λ found. glob_all-Undoes patterns (devices ++ found))

  scan_devices-Undoes : (name : Bytes) (devices : List Bytes) → Undoes (scan_devices O name devices)
  unfolding scan_devices
  scan_devices-Undoes name devices = bind-Undoes _ _ (log-Undoes _) (λ _.
      bind-Undoes _ _ (wrapping-Undoes _ _ (record { same = L.mounted-mkdir_temp _ })) (λ place.
        record {
          same = λ s. L.mounted-remove_all place _ ∙ scan-same place name devices devices s;
        }))

  scan_if_any-Undoes : (name : Bytes) (devices : List Bytes) → Undoes (scan_if_any O name devices)
  unfolding scan_if_any
  scan_if_any-Undoes name [] = record { same = λ s. refl }
  scan_if_any-Undoes name (device ∷ devices) = scan_devices-Undoes name (device ∷ devices)

  -- If the last mount is undone by an unmounting at its place, and no other call mounts anything, the
  -- search for a file leaves the mounts of the machine as they were, whether it finds the file or not.
  pub find_cloud_init_file-mounted :
      (name : Bytes) (s : O.State) → L.mounted (find_cloud_init_file O name s).1 ≡ L.mounted s
  unfolding find_cloud_init_file
  find_cloud_init_file-mounted name s =
      let search =
        bind-Undoes _ _ (glob_all-Undoes cloud_init_sources []) (scan_if_any-Undoes name) in
      search.same s
