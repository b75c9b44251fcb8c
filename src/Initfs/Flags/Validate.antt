-- ===== src/Initfs/Flags/Validate.antt =====
-- Which configurations are accepted.
use void_init.Base.{
  ◌≡◌, ◌≢◌, ◌⊎◌, ◌↔◌, refl, inl, inr, true, false, [], ◌∷◌, Bytes, codes, equal_iff, Error, ok, err,
  arith,
}
use void_init.Base.Effects.Laws.{Result-cases}
use void_init.Os.{Os, FileInfo}
use void_init.Initfs.Flags.{Config, validate}

nil_cases : (x : Bytes) → (x ≡ []) ⊎ (x ≢ [])
nil_cases [] = inl refl
nil_cases (c ∷ x) = inr (cc)

module _ (O : Os) (s : O.State) where
  -- A run that reuses an image: it has `-i` with a file that is there, not `-o`, no flag that is for
  -- building, and not both layouts.
  pub record Reuses (c : Config) : Type 0 where
    pub image_given : c.image ≢ []
    pub no_output : c.output ≡ []
    pub no_update : c.update_xbps ≡ false
    pub no_force : c.force ≡ false
    pub one_layout : (c.wants_bios ≡ false) ⊎ (c.wants_efi ≡ false)
    pub image_found : (i : FileInfo) × (O.stat c.image s ≡ ok i)

  -- A run that builds an image: it has `-o` with a file that is not there, or that it may replace,
  -- one layout and a known libc.
  pub record Builds (c : Config) : Type 0 where
    pub no_image : c.image ≡ []
    pub no_reinstall : c.reinstall_bootloader ≡ false
    pub output_given : c.output ≢ []
    pub output_free : (c.force ≡ true) ⊎ ((e : Error) × (O.stat c.output s ≡ err e))
    pub layout_known :
        ((c.wants_bios ≡ true) × (c.wants_efi ≡ false))
        ⊎ ((c.wants_bios ≡ false) × (c.wants_efi ≡ true))
    pub libc_known : (c.libc ≡ codes "glibc") ⊎ (c.libc ≡ codes "musl")

  validate-Reuses : (c : Config) → c.image ≢ [] → validate O c s ≡ ok tt → Reuses c
  unfolding validate
  validate-Reuses c given h = elim (Result-cases (O.stat c.image s)) [
    | inr (e, missing) ↦ absurd (ground arith)
    | inl (i, found) ↦ record {
      image_given = given;
      no_output = ground arith;
      no_update = ground arith;
      no_force = ground arith;
      one_layout = ground arith;
      image_found = (i, found);
    }
  ]

  validate-Builds : (c : Config) → c.image ≡ [] → validate O c s ≡ ok tt → Builds c
  unfolding validate
  validate-Builds c absent h = record {
    no_image = absent;
    no_reinstall = ground arith;
    output_given = ground arith;
    output_free = elim (Result-cases (O.stat c.output s)) [
      | inl (i, there) ↦ inl (ground arith)
      | inr (e, missing) ↦ inr (e, missing)
    ];
    layout_known = ground arith;
    libc_known = ground (arith, equal_iff c.libc (codes "glibc"), equal_iff c.libc (codes "musl"));
  }

  Reuses-validate : (c : Config) → Reuses c → validate O c s ≡ ok tt
  unfolding validate
  Reuses-validate c r = ground (arith, r.image_found.1)

  Builds-validate : (c : Config) → Builds c → validate O c s ≡ ok tt
  unfolding validate
  Builds-validate c b =
      ground (arith, equal_iff c.libc (codes "glibc"), equal_iff c.libc (codes "musl"))

  -- Exactly the runs that reuse an image and those that build one are accepted.
  pub validate_iff : (c : Config) → (validate O c s ≡ ok tt) ↔ (Reuses c ⊎ Builds c)
  validate_iff c = (accepted, elim [ inl r ↦ Reuses-validate c r | inr b ↦ Builds-validate c b ])
    where
      accepted : validate O c s ≡ ok tt → Reuses c ⊎ Builds c
      accepted h = elim (nil_cases c.image) [
        | inl absent ↦ inr (validate-Builds c absent h)
        | inr given ↦ inl (validate-Reuses c given h)
      ]
