-- ===== src/Init/Hosts/Laws.antt =====
-- The hosts file and the network settings speak of the same address.
use mathlib.Core.Option
use void_init.Base.{
  ◌≡◌, refl, ap, sym, ◌∙◌, Option, none, some, List, [], ◌∷◌, ◌++◌, Bytes, codes, ok, arith,
  Option-cases, inl, inr, if◌then◌else◌,
}
use void_init.Os.{Os}
use void_init.Text.Atoi.{ℤ}
use void_init.Text.Search.{cut}
use void_init.Init.Network.{Net, subnet_address_cidr}
use void_init.Init.Network.Laws.{subnet_address_cidr-front}
use void_init.Init.Network.Config.{is_static}
use void_init.Init.Network.Types.{Subnet, NetworkConfigDevice, NetworkConfig}
use void_init.Init.Hosts.{
  without_prefix, static_subnet, static_device, static_address, or_loopback, first_of,
}

-- The subnets of all devices, in their order.
abbrev pub all_subnets : List NetworkConfigDevice → List Subnet
all_subnets [] = []
all_subnets (device ∷ devices) = device.subnets ++ all_subnets devices

-- The first subnet that the network settings take for a static one.
abbrev pub first_static : List Subnet → Option Subnet
first_static [] = none
first_static (subnet ∷ subnets) =
    let rest = first_static subnets in if is_static subnet.kind then some subnet else rest

-- What stands in the hosts file for it.
abbrev pub address_of : Option Subnet → Option Bytes
address_of s = Option.map (λ subnet. without_prefix subnet.address) s

static_subnet-append :
    (subnets more : List Subnet)
    → address_of (first_static (subnets ++ more))
      ≡ first_of (static_subnet subnets) (address_of (first_static more))
unfolding static_subnet is_static
static_subnet-append [] more = refl
static_subnet-append (subnet ∷ subnets) more = ground (arith, static_subnet-append subnets more)

static_device-first_static :
    (devices : List NetworkConfigDevice)
    → static_device devices ≡ address_of (first_static (all_subnets devices))
unfolding static_device
static_device-first_static [] = refl
static_device-first_static (device ∷ devices) =
    ap (first_of (static_subnet device.subnets)) (static_device-first_static devices)
    ∙ sym (static_subnet-append device.subnets (all_subnets devices))

module _ (O : Os) (N : Net) where
  -- The address that is assigned is what stands in front of the prefix, or the whole address.
  assigned :
      (subnet : Subnet) {address : Bytes} {cidr : ℤ}
      → subnet_address_cidr O N subnet ≡ ok (address, cidr)
      → without_prefix subnet.address ≡ address
  assigned subnet h =
      let whole = subnet_address_cidr-front O N subnet h in
      elim (Option-cases (cut subnet.address (codes "/"))) [
        | inl e ↦ rw (without_prefix, e) (rw e at whole)
        | inr (_, e) ↦ rw (without_prefix, e) (rw e at whole)
      ]

  -- If the prefix of the first static subnet of the configuration can be read, the hosts file gets
  -- the address that is assigned for that subnet.
  pub static_address-assigned :
      (nc : NetworkConfig) (subnet : Subnet) (address : Bytes) (cidr : ℤ)
      → first_static (all_subnets nc.config) ≡ some subnet
      → subnet_address_cidr O N subnet ≡ ok (address, cidr)
      → static_address (some nc) ≡ address
  unfolding static_address
  static_address-assigned nc subnet address cidr e h =
      ap or_loopback (static_device-first_static nc.config ∙ ap address_of e) ∙ assigned subnet h
