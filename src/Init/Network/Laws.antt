-- ===== src/Init/Network/Laws.antt =====
-- The netmasks that are accepted, and their prefix lengths.
use void_init.Base.{
  ℕ, ◌≡◌, ◌↔◌, refl, ap, sym, ◌∙◌, Option, none, some, codes, Bool-cases, and_then, [], ◌∷◌, Bytes,
  Result, ok, err, arith, inl, inr,
}
use void_init.Os.{Os}
use void_init.Text.Atoi.{ℤ, pos}
use void_init.Init.Network.{Net, mask_size, netmask_to_cidr, address_prefix, subnet_address_cidr}
use void_init.Text.Search.{cut}
use void_init.Text.Trim.{is_empty}
use void_init.Init.Network.Types.{ip4, Subnet}
use void_init.Init.Network.Mask.{simple_mask_length}
use void_init.Init.Network.Mask.Laws.{IsByte, IsMask, simple_mask_length_iff}

module _ (O : Os) (N : Net) (netmask : Bytes) {a b c d : ℕ}
    (read : N.parse_ip netmask ≡ some (ip4 a b c d)) where
  mask_size-eq-ok : (r : Option ℕ) (n : ℕ) → mask_size O N netmask r ≡ ok (pos n) → r ≡ some n
  unfolding mask_size
  mask_size-eq-ok none n h = cc
  mask_size-eq-ok (some m) n h = cc

  to_mask_size :
      netmask_to_cidr O N netmask
      ≡ mask_size O N netmask (simple_mask_length 0 (a ∷ b ∷ c ∷ d ∷ []))
  unfolding netmask_to_cidr
  to_mask_size = rw (netmask_to_cidr, read) refl

  -- If the text is read as four bytes, `netmask_to_cidr` gives the prefix length `n` exactly if these
  -- are `n` ones, 32 at most, and zeros behind them.
  pub netmask_to_cidr_iff :
      (n : ℕ)
      → IsByte a
      → IsByte b
      → IsByte c
      → IsByte d
      → (netmask_to_cidr O N netmask ≡ ok (pos n)) ↔ IsMask (a ∷ b ∷ c ∷ d ∷ []) n
  unfolding mask_size
  netmask_to_cidr_iff n ha hb hc hd =
      let (there, back) = simple_mask_length_iff a b c d n ha hb hc hd in
      (
        (λ (h : netmask_to_cidr O N netmask ≡ ok (pos n)).
            there (mask_size-eq-ok _ n (sym to_mask_size ∙ h))),
        λ (h : IsMask (a ∷ b ∷ c ∷ d ∷ []) n). to_mask_size ∙ ap (mask_size O N netmask) (back h),
      )

module _ (O : Os) (N : Net) (subnet : Subnet) where
  and_then-eq-ok :
      {A B C : Type 0} (r : Result A) (g : A → B × C) {b : B} {c : C}
      → and_then r (λ a. ok (g a)) ≡ ok (b, c)
      → (a : A) × ((g a).0 ≡ b)
  and_then-eq-ok (ok a) g h = (a, cc)
  and_then-eq-ok (err e) g h = cc

  -- What stands in front of the prefix, or the whole address.
  abbrev pub front : Option (Bytes × Bytes) → Bytes
  front none = subnet.address
  front (some (before, _)) = before

  address_prefix-front :
      (c : Option (Bytes × Bytes)) {address : Bytes} {cidr : ℤ}
      → address_prefix O N subnet c ≡ ok (address, cidr)
      → front c ≡ address
  unfolding address_prefix
  address_prefix-front none h = elim (Bool-cases (is_empty subnet.netmask)) [
    | inl e ↦ absurd (ground arith)
    | inr e ↦
        (and_then-eq-ok (netmask_to_cidr O N subnet.netmask) (λ n. (subnet.address, n))
          (rw e at h)).1
  ]
  address_prefix-front (some (before, prefix)) h = (and_then-eq-ok _ _ h).1

  pub subnet_address_cidr-front :
      {address : Bytes} {cidr : ℤ}
      → subnet_address_cidr O N subnet ≡ ok (address, cidr)
      → front (cut subnet.address (codes "/")) ≡ address
  unfolding subnet_address_cidr
  subnet_address_cidr-front h = address_prefix-front _ h
