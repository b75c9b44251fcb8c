-- ===== src/Initfs/Image/Detect.antt =====
-- cmd/void-initfs/image.go: a build's partition table is the one that a reuse of the image detects.
mod Tests
use void_init.Base.{
  ℕ, suc, ◌+◌, ◌≡◌, refl, ap, sym, ◌∙◌, subst, List, [], ◌∷◌, ◌++◌, length, Bytes, codes, Result,
  ok, for_each, query, wrapping, continue, ◌>>=◌, ◌>>◌, arith,
}
use void_init.Base.Effects.Laws.{bind-eq-ok}
use void_init.Os.{Os, log_info}
use void_init.Vlog.Level.{Level, info}
use void_init.Initfs.Exec.{command}
use void_init.Initfs.Exec.Laws.{plain, command-ok}
use void_init.Initfs.Layout.{
  Layout, bios, efi, partition_count, PartitionSpec, partition_specs, nbd_device,
}
use void_init.Initfs.Image.{
  sgdisk_clear, sgdisk, partprobe, settle, reread, partition, found, layout_of, detect_layout,
}

-- The documented behaviour of the tools on the disk: how many partitions its table has, how many the
-- kernel has read, and how many device nodes there are.
pub record TableLaws (O : Os) : Type 0 where
  pub partitions : O.State → ℕ
  pub known : O.State → ℕ
  pub nodes : O.State → ℕ
  pub clear-none :
      (s : O.State)
      → (O.run (plain sgdisk_clear) s).0.status ≡ ok tt
      → partitions (O.run (plain sgdisk_clear) s).1 ≡ 0
  pub sgdisk-one :
      (p : PartitionSpec) (s : O.State)
      → (O.run (plain (sgdisk p)) s).0.status ≡ ok tt
      → partitions (O.run (plain (sgdisk p)) s).1 ≡ suc (partitions s)
  pub partprobe-reads :
      (s : O.State)
      → (O.run (plain partprobe) s).0.status ≡ ok tt
      → known (O.run (plain partprobe) s).1 ≡ partitions s
  pub partprobe-keeps : (s : O.State) → partitions (O.run (plain partprobe) s).1 ≡ partitions s
  pub settle-makes :
      (s : O.State)
      → (O.run (plain settle) s).0.status ≡ ok tt
      → nodes (O.run (plain settle) s).1 ≡ known s
  pub settle-keeps : (s : O.State) → partitions (O.run (plain settle) s).1 ≡ partitions s
  pub glob-nodes :
      (s : O.State) {names : List Bytes}
      → O.glob (nbd_device ++ codes "p*") s ≡ ok names
      → length names ≡ nodes s
  pub log-partitions :
      (l : Level) (m : Bytes) (s : O.State) → partitions (O.log l m s) ≡ partitions s
  pub log-known : (l : Level) (m : Bytes) (s : O.State) → known (O.log l m s) ≡ known s

partition_count-length : (l : Layout) → length (partition_specs l) ≡ partition_count l
unfolding partition_specs
partition_count-length bios = refl
partition_count-length efi = refl

module _ {O : Os} (T : TableLaws O) where
  add_each :
      (ps : List PartitionSpec) (s : O.State) {t : O.State}
      → for_each (λ p. command O (sgdisk p)) ps s ≡ (ok tt, t)
      → T.partitions t ≡ T.partitions s + length ps
  unfolding for_each
  add_each [] s h = omega (arith, ap (λ r. T.partitions r.1) h)
  add_each (p ∷ ps) s h =
      let (_, a, added, rest) = bind-eq-ok (command O (sgdisk p)) _ s h in
      let (fine, at) = command-ok O (sgdisk p) s added in
      let one = ap T.partitions (sym at) ∙ T.sgdisk-one p _ fine in
      omega (arith, add_each ps a rest, one, T.log-partitions info _ s)

  reread-nodes :
      (s : O.State) {t : O.State}
      → reread O s ≡ (ok tt, t)
      → (T.partitions t ≡ T.partitions s) × (T.nodes t ≡ T.partitions s)
  unfolding reread
  reread-nodes s h =
      let (_, a, probed, settled) = bind-eq-ok (command O partprobe) _ s h in
      let (fine, at) = command-ok O partprobe s probed in
      let (done, there) = command-ok O settle a settled in
      let read = ap T.known (sym at) ∙ T.partprobe-reads _ fine ∙ T.log-partitions info _ s in
      let kept = ap T.partitions (sym at) ∙ T.partprobe-keeps _ ∙ T.log-partitions info _ s in
      (
        ap T.partitions (sym there) ∙ T.settle-keeps _ ∙ T.log-partitions info _ a ∙ kept,
        ap T.nodes (sym there) ∙ T.settle-makes _ done ∙ T.log-known info _ a ∙ read,
      )

  partition-count :
      (l : Layout) (s : O.State) {t : O.State}
      → partition O l s ≡ (ok tt, t)
      → T.partitions t ≡ partition_count l
  unfolding partition
  partition-count l s h =
      let (_, a, logged, h1) = bind-eq-ok _ _ s h in
      let (_, b, cleared, h2) = bind-eq-ok (command O sgdisk_clear) _ a h1 in
      let (_, c, added, again) = bind-eq-ok _ (λ _. reread O) b h2 in
      let (fine, at) = command-ok O sgdisk_clear a cleared in
      let none = ap T.partitions (sym at) ∙ T.clear-none _ fine in
      (reread-nodes c again).0
      ∙ omega (arith, add_each (partition_specs l) b added, none, partition_count-length l)

  layout_of-count : (l : Layout) (s : O.State) → (layout_of O (partition_count l) s).0 ≡ ok l
  unfolding layout_of found ◌>>=◌
  layout_of-count bios s = refl
  layout_of-count efi s = refl

  -- If the table that a build has made is still on the disk, and the device nodes are read again and
  -- can be listed, a reuse of the image detects the layout of the build.
  pub detect_layout-partition :
      (l : Layout) (s t u : O.State) {a : O.State} {names : List Bytes}
      → partition O l s ≡ (ok tt, t)
      → T.partitions u ≡ T.partitions t
      → reread O u ≡ (ok tt, a)
      → O.glob (nbd_device ++ codes "p*") a ≡ ok names
      → (detect_layout O u).0 ≡ ok l
  unfolding detect_layout ◌>>=◌ wrapping
  detect_layout-partition l s t u {a} {names} built same again listed =
      let count : length names ≡ partition_count l =
        T.glob-nodes a listed ∙ (reread-nodes u again).1 ∙ same ∙ partition-count l s built in
      rw (again, listed, count) (layout_of-count l a)
