-- ===== src/Services/Addressing/Allocation.antt =====
-- The address that `allocate_ip` picks, and the slot that `add_member` picks.
use mathlib.Core.Path.{ap₂}
use native.Mathlib.Decide.{ℕ_discrete}
use hzelmaim.Prelude.{
  subst, ℕ, zero, suc, ◌+◌, ◌-◌, ◌≤◌, ◌<◌, ◌≡◌, refl, ap, ◌↔◌, inl, inr, Bool, true, false, ◌==◌,
  any, Option, none, some, List, arith, Bool-cases,
}
use hzelmaim.Api.{ApiError, ok, err, ok_or, bad_request}
use hzelmaim.Models.IpNet.{IpNet, Laws, block, range_from}
use hzelmaim.Models.Network.{Ipv4Addr}
use hzelmaim.Services.Addressing.{allocate_ip, first_unused, skip_one, slots}

abbrev pub is_used : List ℕ → ℕ → Bool
is_used used x = any (λ u. u == x) used

-- A used number at every place from a up to b, without b.
abbrev AllUsed : List ℕ → ℕ → ℕ → Type 0
AllUsed used a b = (x : ℕ) → a ≤ x → x < b → is_used used x ≡ true

module _ (used : List ℕ) where
  used_from : (a b : ℕ) → is_used used a ≡ true → AllUsed used (suc a) b → AllUsed used a b
  used_from a b h all x l u = elim (ℕ_discrete a x) [
    | yes e ↦ subst (λ (t : ℕ). is_used used t ≡ true) e h
    | no e ↦ all x (omega arith) u
  ]

  first_unused_found :
      (k a x : ℕ)
      → first_unused used (range_from a k) ≡ some x
      → (a ≤ x) × (x < a + k) × (is_used used x ≡ false) × AllUsed used a x
  unfolding first_unused range_from
  first_unused_found zero a x h = absurd (cc)
  first_unused_found (suc k) a x h = elim (Bool-cases (is_used used a)) [
    | inl taken ↦
        let (l, u, fresh, all) = first_unused_found k (suc a) x (rw taken at h) in
        (omega arith, omega arith, fresh, used_from a x taken all)
    | inr fresh ↦
        let e : a ≡ x = cc (rw fresh at h) in
        (
          omega arith,
          omega arith,
          subst (λ (t : ℕ). is_used used t ≡ false) e fresh,
          λ y l u. absurd (omega arith),
        )
  ]

  first_unused-none :
      (k a : ℕ) → (first_unused used (range_from a k) ≡ none) ↔ AllUsed used a (a + k)
  unfolding first_unused range_from
  first_unused-none zero a = (λ h y l u. absurd (omega arith), λ h. refl)
  first_unused-none (suc k) a = elim (Bool-cases (is_used used a)) [
    | inl taken ↦ (
      (λ h.
          used_from a (a + suc k) taken
            (λ y l u. (first_unused-none k (suc a)).0 (rw taken at h) y l (omega arith))),
      (λ h. rw taken ((first_unused-none k (suc a)).1 (λ y l u. h y (omega arith) (omega arith)))),
    )
    | inr fresh ↦
        ((λ h. absurd (cc (rw fresh at h))), (λ h. absurd (cc (h a (omega arith) (omega arith)))))
  ]

skip_one-range_from : (k a : ℕ) → skip_one (range_from a k) ≡ range_from (suc a) (k - 1)
unfolding range_from
skip_one-range_from zero a = refl
skip_one-range_from (suc k) a = ap (range_from (suc a)) (omega arith)

is_none : {A : Type 0} (o : Option A) (e x : ApiError) → ok_or o e ≡ err x → o ≡ none
is_none o e x h = ground arith

module _ (ip : IpNet) (laws : Laws ip) where
  open ip use {Ipv4Net, network, prefix_len, contains, hosts}

  candidates :
      (n : Ipv4Net)
      → prefix_len n < 31
      → skip_one (hosts n) ≡ range_from (network n + 2) (block (prefix_len n) - 3)
  candidates n h =
      rw (laws.hosts_lem n h, skip_one-range_from) (ap₂ range_from (omega arith) (omega arith))

  -- In a network below /31 the address that `allocate_ip` returns lies in it, is not one of its
  -- first two addresses nor its last, is not used, and every lower candidate is used.
  pub allocate_ip_lowest :
      (n : Ipv4Net) (used : List Ipv4Addr) (a : Ipv4Addr)
      → prefix_len n < 31
      → allocate_ip ip n used ≡ ok a
      → (contains n a ≡ true)
        × (network n + 2 ≤ a)
        × (a + 1 < network n + block (prefix_len n))
        × (is_used used a ≡ false)
        × ((b : Ipv4Addr) → network n + 2 ≤ b → b < a → is_used used b ≡ true)
  unfolding allocate_ip
  allocate_ip_lowest n used a p h =
      let e : first_unused used (range_from (network n + 2) (block (prefix_len n) - 3)) ≡ some a =
        rw (← candidates n p) (ground arith) in
      let (l, u, fresh, all) = first_unused_found used _ _ a e in
      ((laws.contains_iff n a).1 (omega arith, omega arith), l, omega arith, fresh, all)

  -- In a network below /31 `allocate_ip` answers 400 exactly when every candidate is used.
  pub allocate_ip_exhausted :
      (n : Ipv4Net) (used : List Ipv4Addr)
      → prefix_len n < 31
      → (allocate_ip ip n used ≡ err bad_request) ↔ (
          (b : Ipv4Addr)
          → network n + 2 ≤ b
          → b + 1 < network n + block (prefix_len n)
          → is_used used b ≡ true)
  unfolding allocate_ip
  allocate_ip_exhausted n used p =
      let none_iff = first_unused-none used (block (prefix_len n) - 3) (network n + 2) in
      (
        (λ h b l u. none_iff.0 (rw (← candidates n p) (is_none _ _ _ h)) b l (omega arith)),
        (λ h. rw (candidates n p, none_iff.1 (λ b l u. h b l (omega arith)))),
      )

-- The slot that `add_member` takes: from 1 to 15, not used, and every lower slot is used. With
-- no such slot, all 15 are used.
pub slot_lowest :
    (used : List ℕ)
    → ((i : ℕ)
        → first_unused used slots ≡ some i
        → (1 ≤ i)
          × (i ≤ 15)
          × (is_used used i ≡ false)
          × ((j : ℕ) → 1 ≤ j → j < i → is_used used j ≡ true))
      × ((first_unused used slots ≡ none) ↔ ((j : ℕ) → 1 ≤ j → j ≤ 15 → is_used used j ≡ true))
unfolding range_from
slot_lowest used = (
  (λ i h.
      let (l, u, fresh, all) = first_unused_found used 15 1 i h in (l, omega arith, fresh, all)),
  (
    (λ h j l u. (first_unused-none used 15 1).0 h j l (omega arith)),
    (λ h. (first_unused-none used 15 1).1 (λ j l u. h j l (omega arith))),
  ),
)
