-- ===== src/Init/Network/Config/Gathered.antt =====
-- The name servers and search domains that the walk over a configuration gathers.
use void_init.Base.{
  ◌≡◌, ◌≢◌, ◌⊎◌, refl, ap, sym, ◌∙◌, subst, true, false, Bool-cases, inl, inr, List, [], ◌∷◌, ◌++◌,
  append_assoc, append-nil, Bytes, codes, equal, equal_iff, Result, ok, if◌then◌else◌,
}
use void_init.Base.Effects.Laws.{bind-eq-ok, pure_elim}
use void_init.Os.{Os, log_info}
use void_init.Init.Fsutil.{write_managed_file}
use void_init.Init.Network.{Net, resolv_conf, resolv_conf_path, untouched, apply_resolv_conf}
use void_init.Init.Network.Types.{Subnet, NetworkConfigDevice, NetworkConfig}
use void_init.Init.Network.Config.{
  Gathered, is_dynamic, is_static, apply_subnet, apply_subnets, physical_device, nameserver_device,
  apply_device, apply_devices, apply_network_config,
}

-- Two pairs of lists, one behind the other.
abbrev pub both : Gathered → Gathered → Gathered
both (a, b) (c, d) = (a ++ c, b ++ d)

abbrev pub of_subnet : Subnet → Gathered
of_subnet subnet =
    if is_static subnet.kind then (subnet.dns_nameservers, subnet.dns_search) else ([], [])

abbrev pub of_subnets : List Subnet → Gathered
of_subnets [] = ([], [])
of_subnets (subnet ∷ subnets) = both (of_subnet subnet) (of_subnets subnets)

-- The static subnets of an interface, and what a device of name servers lists.
abbrev pub of_device : NetworkConfigDevice → Gathered
of_device device =
    if equal device.kind (codes "physical")
    then of_subnets device.subnets
    else (device.address, device.search)

abbrev pub of_devices : List NetworkConfigDevice → Gathered
of_devices [] = ([], [])
of_devices (device ∷ devices) = both (of_device device) (of_devices devices)

both_assoc : (a b c : Gathered) → both (both a b) c ≡ both a (both b c)
both_assoc (a, b) (c, d) (e, f) i = (append_assoc a c e i, append_assoc b d f i)

both-nil : (a : Gathered) → both a ([], []) ≡ a
both-nil (a, b) i = (append-nil a i, append-nil b i)

dynamic-not_static : (kind : Bytes) → is_dynamic kind ≡ true → is_static kind ≡ false
unfolding is_dynamic is_static equal codes
dynamic-not_static kind h = elim (Bool-cases (equal kind (codes "static"))) [
  | inl e ↦ absurd (cc (subst (λ k. is_dynamic k ≡ true) ((equal_iff kind (codes "static")).0 e) h))
  | inr a ↦ elim (Bool-cases (equal kind (codes "static6"))) [
    | inl e ↦
        absurd (cc (subst (λ k. is_dynamic k ≡ true) ((equal_iff kind (codes "static6")).0 e) h))
    | inr b ↦ rw (a, b) refl
  ]
]

module _ (O : Os) (N : Net) (template : Bytes) where
  returned-eq :
      {more : Gathered} (found : Gathered) (s : O.State) {t : O.State}
      → ◌≡◌ {A = Result Gathered × O.State} (ok found, s) (ok more, t)
      → more ≡ found
  returned-eq found s h = pure_elim (λ more t. more ≡ found) h refl

  apply_subnet-both :
      (mac iface : Bytes) (subnet : Subnet) (found : Gathered) (s : O.State) {more : Gathered}
      {t : O.State}
      → apply_subnet O N template mac iface subnet found s ≡ (ok more, t)
      → more ≡ both found (of_subnet subnet)
  unfolding apply_subnet
  apply_subnet-both mac iface subnet found s h = elim (Bool-cases (is_dynamic subnet.kind)) [
    | inl dynamic ↦
        let (_, u, _, last) = bind-eq-ok _ _ s (rw dynamic at h) in
        returned-eq found u last
        ∙ sym (both-nil found)
        ∙ rw (dynamic-not_static subnet.kind dynamic) refl
    | inr other ↦ elim (Bool-cases (is_static subnet.kind)) [
      | inl static ↦
          let (_, u, _, last) = bind-eq-ok _ _ s (rw (other, static) at h) in
          returned-eq (both found (subnet.dns_nameservers, subnet.dns_search)) u last
          ∙ rw static refl
      | inr unknown ↦ absurd (cc (rw (other, unknown) at h))
    ]
  ]

  apply_subnets-both :
      (mac iface : Bytes) (subnets : List Subnet) (found : Gathered) (s : O.State) {more : Gathered}
      {t : O.State}
      → apply_subnets O N template mac iface subnets found s ≡ (ok more, t)
      → more ≡ both found (of_subnets subnets)
  unfolding apply_subnets
  apply_subnets-both mac iface [] found s h = returned-eq found s h ∙ sym (both-nil found)
  apply_subnets-both mac iface (subnet ∷ subnets) found s h =
      let (next, u, one, rest) = bind-eq-ok _ _ s h in
      apply_subnets-both mac iface subnets next u rest
      ∙ ap (λ g. both g (of_subnets subnets)) (apply_subnet-both mac iface subnet found s one)
      ∙ both_assoc found (of_subnet subnet) (of_subnets subnets)

  apply_device-both :
      (device : NetworkConfigDevice) (found : Gathered) (s : O.State) {more : Gathered}
      {t : O.State}
      → apply_device O N template device found s ≡ (ok more, t)
      → more ≡ both found (of_device device)
  unfolding apply_device physical_device nameserver_device
  apply_device-both device found s h = elim (Bool-cases (equal device.kind (codes "physical"))) [
    | inl physical ↦
        let (iface, u, _, h1) = bind-eq-ok _ _ s (rw physical at h) in
        let (_, v, _, h2) = bind-eq-ok _ _ u h1 in
        apply_subnets-both device.mac_address iface device.subnets found v h2 ∙ rw physical refl
    | inr other ↦ elim (Bool-cases (equal device.kind (codes "nameserver"))) [
      | inl nameserver ↦
          let (_, u, _, last) = bind-eq-ok _ _ s (rw (other, nameserver) at h) in
          returned-eq (both found (device.address, device.search)) u last ∙ rw other refl
      | inr unknown ↦ absurd (cc (rw (other, unknown) at h))
    ]
  ]

  apply_devices-both :
      (devices : List NetworkConfigDevice) (found : Gathered) (s : O.State) {more : Gathered}
      {t : O.State}
      → apply_devices O N template devices found s ≡ (ok more, t)
      → more ≡ both found (of_devices devices)
  unfolding apply_devices
  apply_devices-both [] found s h = returned-eq found s h ∙ sym (both-nil found)
  apply_devices-both (device ∷ devices) found s h =
      let (next, u, one, rest) = bind-eq-ok _ _ s h in
      apply_devices-both devices next u rest
      ∙ ap (λ g. both g (of_devices devices)) (apply_device-both device found s one)
      ∙ both_assoc found (of_device device) (of_devices devices)

  -- What the end of a run does: without a name server it writes a line to the log and nothing else;
  -- with one, there is a line in the log, and resolv.conf is written.
  abbrev pub Resolved : Gathered → (u t : O.State) → Type 0
  Resolved (nameservers, search) u t =
      ((nameservers ≡ []) × (log_info O untouched u ≡ (ok tt, t)))
      ⊎ ((nameservers ≢ [])
          × ((v : O.State) × (message : Bytes) × (log_info O message u ≡ (ok tt, v))
              × (write_managed_file O resolv_conf_path (resolv_conf nameservers search) 0o644 v
                  ≡ (ok tt, t))))

  apply_resolv_conf-Resolved :
      (nameservers search : List Bytes) (u : O.State) {t : O.State}
      → apply_resolv_conf O N nameservers search u ≡ (ok tt, t)
      → Resolved (nameservers, search) u t
  unfolding apply_resolv_conf
  apply_resolv_conf-Resolved [] search u h = inl (refl, h)
  apply_resolv_conf-Resolved (server ∷ servers) search u h =
      let (_, v, logged, wrote) = bind-eq-ok _ _ u h in inr (cc, (v, _, logged, wrote))

  -- A configuration that is applied without an error has gathered, in a state `u`, the name servers
  -- and the search domains of all static subnets and all devices of name servers, in their order.
  -- From there, if there is a name server, the run logs a line and ends with the managed write of a
  -- resolv.conf with all of them, and mode 0644; if there is none, it ends with a line in the log.
  pub apply_network_config-gathered :
      (nc : NetworkConfig) (s : O.State) {t : O.State}
      → apply_network_config O N template nc s ≡ (ok tt, t)
      → (u : O.State) × (apply_devices O N template nc.config ([], []) s
          ≡ (ok (of_devices nc.config), u))
        × Resolved (of_devices nc.config) u t
  unfolding apply_network_config
  apply_network_config-gathered nc s {t} h =
      let (found, u, walked, last) = bind-eq-ok _ _ s h in
      let all = apply_devices-both nc.config ([], []) s walked in
      (
        u,
        subst (λ (g : Gathered). apply_devices O N template nc.config ([], []) s ≡ (ok g, u)) all
            walked,
        subst (λ (g : Gathered). Resolved g u t) all
            (apply_resolv_conf-Resolved found.0 found.1 u last),
      )
