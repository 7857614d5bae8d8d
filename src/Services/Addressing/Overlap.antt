-- ===== src/Services/Addressing/Overlap.antt =====
-- What `check_no_overlap` guarantees, over any address of the networks.
use native.Mathlib.Decide.{dec_le}
use hzelmaim.Prelude.{
  ℕ, ◌+◌, ◌-◌, ◌%◌, ◌^◌, ◌≤◌, ◌<◌, ◌≡◌, refl, sym, subst, ◌↔◌, ◌⊎◌, inl, inr, true, false, some,
  List, [], ◌∷◌, arith, All, Bool-cases, Option-cases,
}
use hzelmaim.Api.{ok, err, bad_request}
use hzelmaim.Models.IpNet.{IpNet, Laws}
use hzelmaim.Models.Network.{PrivateNetwork, Ipv4Addr}
use hzelmaim.Services.Addressing.{check_no_overlap, overlaps}
use hzelmaim.Services.Addressing.Blocks.{block_nested}
use hzelmaim.Services.Addressing.Cidr.{contains_base}

module _ (ip : IpNet) (laws : Laws ip) where
  open ip use {Ipv4Net, parse, network, prefix_len, contains}

  -- No address belongs to both networks.
  abbrev pub Disjoint : Ipv4Net → Ipv4Net → Type 0
  Disjoint n m = (a : Ipv4Addr) → contains n a ≡ true → contains m a ≡ true → ⊥

  nested :
      (n m : Ipv4Net) (a : Ipv4Addr)
      → prefix_len m ≤ prefix_len n
      → contains n a ≡ true
      → contains m a ≡ true
      → contains m (network n) ≡ true
  nested n m a le cn cm =
      let k : ℕ = 32 - prefix_len n in
      let d : ℕ = prefix_len n - prefix_len m in
      let whole : k + d ≡ 32 - prefix_len m = omega (arith, laws.prefix_len-le n) in
      let (ln, un) = (laws.contains_iff n a).0 cn in
      let (lm, um) = (laws.contains_iff m a).0 cm in
      (laws.contains_iff m (network n)).1 (
        subst (λ (t : ℕ). (network m ≤ network n) × (network n < network m + 2 ^ t)) whole
          (block_nested k d (network n) (network m) a (laws.network_aligned n)
            (subst (λ (t : ℕ). network m % 2 ^ t ≡ 0) (sym whole) (laws.network_aligned m)) ln un lm
            (subst (λ (t : ℕ). a < network m + 2 ^ t) (sym whole) um)))

  overlaps-Disjoint : (n m : Ipv4Net) → overlaps ip n (some m) ≡ false → Disjoint n m
  unfolding overlaps
  overlaps-Disjoint n m h a cn cm = elim (dec_le (prefix_len m) (prefix_len n)) [
    | yes p ↦ let c = nested n m a p cn cm in ground arith
    | no p ↦ let c = nested m n a (omega arith) cm cn in ground arith
  ]

  Disjoint-overlaps : (n m : Ipv4Net) → Disjoint n m → overlaps ip n (some m) ≡ false
  unfolding overlaps
  Disjoint-overlaps n m d =
      ground (arith, d (network n), d (network m), contains_base ip laws n, contains_base ip laws m)

  -- The network is disjoint from every stored network whose text parses.
  abbrev pub DisjointFrom : Ipv4Net → PrivateNetwork → Type 0
  DisjointFrom n net = (m : Ipv4Net) → parse net.cidr ≡ some m → Disjoint n m

  no_overlap_sound :
      (n : Ipv4Net) (existing : List PrivateNetwork)
      → check_no_overlap ip n existing ≡ ok tt
      → All (DisjointFrom n) existing
  unfolding check_no_overlap
  no_overlap_sound n [] h = tt
  no_overlap_sound n (net ∷ existing) h = elim (Bool-cases (overlaps ip n (parse net.cidr))) [
    | inl o ↦ absurd (cc (rw o at h))
    | inr o ↦ (λ m e. overlaps-Disjoint n m (rw e at o), no_overlap_sound n existing (rw o at h))
  ]

  no_overlap_here :
      (n : Ipv4Net) (net : PrivateNetwork)
      → DisjointFrom n net
      → overlaps ip n (parse net.cidr) ≡ false
  no_overlap_here n net d = elim (Option-cases (parse net.cidr)) [
    | inl e ↦ rw e (unfold overlaps in refl)
    | inr (m, e) ↦ rw e (Disjoint-overlaps n m (d m e))
  ]

  no_overlap_complete :
      (n : Ipv4Net) (existing : List PrivateNetwork)
      → All (DisjointFrom n) existing
      → check_no_overlap ip n existing ≡ ok tt
  unfolding check_no_overlap
  no_overlap_complete n [] h = refl
  no_overlap_complete n (net ∷ existing) h =
      rw (no_overlap_here n net h.0) (no_overlap_complete n existing h.1)

  answers :
      (n : Ipv4Net) (existing : List PrivateNetwork)
      → (check_no_overlap ip n existing ≡ ok tt)
        ⊎ (check_no_overlap ip n existing ≡ err bad_request)
  unfolding check_no_overlap
  answers n [] = inl refl
  answers n (net ∷ existing) = ground (arith, answers n existing)

  -- `check_no_overlap` accepts exactly when no address of the new network belongs to an
  -- existing one, and answers 400 otherwise.
  pub check_no_overlap_iff :
      (n : Ipv4Net) (existing : List PrivateNetwork)
      → ((check_no_overlap ip n existing ≡ ok tt) ↔ All (DisjointFrom n) existing)
        × ((check_no_overlap ip n existing ≡ ok tt)
            ⊎ (check_no_overlap ip n existing ≡ err bad_request))
  check_no_overlap_iff n existing =
      ((no_overlap_sound n existing, no_overlap_complete n existing), answers n existing)
