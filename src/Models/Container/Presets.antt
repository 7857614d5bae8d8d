-- ===== src/Models/Container/Presets.antt =====
-- Permission masks and the three presets.
use hzelmaim.Prelude.{
  ℕ, ◌≡◌, refl, ◌≢◌, sym, ap, subst, ◌∙◌, ◌↔◌, inl, inr, true, some, String, bit_and, bit_and_assoc,
  str_eq, ◌==◌, ==_iff, Bool-cases,
}
use text.Mathlib.TextEquality.{eq_iff}
use hzelmaim.Models.Container.{
  has, from_preset, to_preset_name, preset_owner, preset_operator, preset_viewer,
}

-- A mask that has all flags of a second one, which has those of a third, has those of the third.
pub has_trans : (a b c : ℕ) → has a b ≡ true → has b c ≡ true → has a c ≡ true
unfolding has
has_trans a b c p q =
    let p' : bit_and a b ≡ b = (==_iff _ _).0 p in
    let q' : bit_and b c ≡ c = (==_iff _ _).0 q in (==_iff _ _).1 (cc (bit_and_assoc a b c, p', q'))

-- A mask with a preset name is what that preset denotes.
from_preset-to_preset_name :
    (p : ℕ) (level : String) → to_preset_name p ≡ some level → from_preset level ≡ p
unfolding to_preset_name from_preset
from_preset-to_preset_name p level h = elim (Bool-cases (p == preset_owner)) [
  | inl a ↦ let e : "owner" ≡ level = cc (rw a at h) in rw (← e) (sym ((==_iff _ _).0 a))
  | inr a ↦ elim (Bool-cases (p == preset_operator)) [
    | inl b ↦ let e : "operator" ≡ level = cc (rw (a, b) at h) in rw (← e) (sym ((==_iff _ _).0 b))
    | inr b ↦ elim (Bool-cases (p == preset_viewer)) [
      | inl c ↦
          let e : "viewer" ≡ level = cc (rw (a, b, c) at h) in rw (← e) (sym ((==_iff _ _).0 c))
      | inr c ↦ absurd (cc (rw (a, b, c) at h))
    ]
  ]
]

-- A level that denotes permissions is the name of those.
to_preset_name-from_preset :
    (level : String) → from_preset level ≢ 0 → to_preset_name (from_preset level) ≡ some level
unfolding to_preset_name from_preset
to_preset_name-from_preset level h = elim (Bool-cases (str_eq level "owner")) [
  | inl a ↦ rw a (ap some (sym ((eq_iff level "owner").0 a)))
  | inr a ↦ elim (Bool-cases (str_eq level "operator")) [
    | inl b ↦ rw (a, b) (ap some (sym ((eq_iff level "operator").0 b)))
    | inr b ↦ elim (Bool-cases (str_eq level "viewer")) [
      | inl c ↦ rw (a, b, c) (ap some (sym ((eq_iff level "viewer").0 c)))
      | inr c ↦ absurd (h (rw (a, b, c) refl))
    ]
  ]
]

named_zero : (level : String) → to_preset_name 0 ≡ some level → ⊥
unfolding to_preset_name
named_zero level h = absurd (cc)

-- The names and the masks of the presets belong together: a mask that has a preset's name is the
-- one that the name denotes, and a text that denotes permissions is the name of its mask.
pub preset_names :
    (p : ℕ) (level : String) → (to_preset_name p ≡ some level) ↔ ((from_preset level ≡ p) × (p ≢ 0))
preset_names p level = (
  (λ h. (
    from_preset-to_preset_name p level h,
    λ z. named_zero level (subst (λ (t : ℕ). to_preset_name t ≡ some level) z h),
  )),
  (λ (e, n).
      subst (λ (t : ℕ). to_preset_name t ≡ some level) e
        (to_preset_name-from_preset level (λ z. n (sym e ∙ z)))),
)
