-- ===== src/Handlers/Oauth/Codes.antt =====
-- When an authorization code is used up.
use hzelmaim.Prelude.{
  ◌≡◌, ◌≢◌, refl, sym, subst, Bool, true, false, ◌&&◌, ◌||◌, none, some, List, [], ◌∷◌, ◌++◌, All,
  AllPairs, any_of_All, any, find_row, update_rows, ◌==◌, inl, inr, Bool-cases, arith,
}
use hzelmaim.Prelude.Bytes.{Bytes, bytes_eq, bytes_eq_iff}
use hzelmaim.Models.User.{DateTime}
use hzelmaim.Models.Oauth.{OauthAuthorizationCode}
use hzelmaim.World.{Db}
use hzelmaim.Db.ApiTokenRepo.{is_null}
use hzelmaim.Db.OauthCodeRepo.{is_usable, mark_used, code_conflict}

abbrev pub has_hash : Bytes → OauthAuthorizationCode → Bool
has_hash h c = bytes_eq c.code_hash h

abbrev pub is_open : Bytes → OauthAuthorizationCode → Bool
is_open h c = bytes_eq c.code_hash h && is_null c.used_at

-- A code of this hash is stored, and each of them is used.
abbrev pub Spent : Bytes → Db → Type 0
Spent h d =
    (any (has_hash h) d.oauth_authorization_codes ≡ true)
    × (any (is_open h) d.oauth_authorization_codes ≡ false)

any-snoc :
    {A : Type 0} (p : A → Bool) (xs : List A) (x : A) → any p (xs ++ x ∷ []) ≡ (any p xs || p x)
any-snoc p [] x = ground arith
any-snoc p (y ∷ xs) x = ground (arith, any-snoc p xs x)

-- No stored code conflicts with a new one of another hash only.
other_hash :
    (h : Bytes) (code : OauthAuthorizationCode) (cs : List OauthAuthorizationCode)
    → any (code_conflict code) cs ≡ false
    → any (has_hash h) cs ≡ true
    → bytes_eq code.code_hash h ≡ false
other_hash h code [] free stored = absurd (cc)
other_hash h code (x ∷ cs) free stored = elim (Bool-cases (bytes_eq code.code_hash h)) [
  | inr f ↦ f
  | inl t ↦
      let e : code.code_hash ≡ h = (bytes_eq_iff _ _).0 t in
      elim (Bool-cases (bytes_eq x.code_hash h)) [
        | inl m ↦
            let clash : bytes_eq x.code_hash code.code_hash ≡ true =
              subst (λ (k : Bytes). bytes_eq x.code_hash k ≡ true) (sym e) m in
            absurd (clear_head (x.id == code.id) _ _ free clash)
        | inr m ↦ other_hash h code cs (ground arith) (ground arith)
      ]
]
  where
    clear_head : (a b r : Bool) → ((a || b) || r) ≡ false → b ≡ true → ⊥
    clear_head a b r e f = ground arith

pub Spent-snoc :
    (h : Bytes) (code : OauthAuthorizationCode) (cs : List OauthAuthorizationCode)
    → any (code_conflict code) cs ≡ false
    → any (has_hash h) cs ≡ true
    → any (is_open h) cs ≡ false
    → (any (has_hash h) (cs ++ record code { used_at = none } ∷ []) ≡ true)
      × (any (is_open h) (cs ++ record code { used_at = none } ∷ []) ≡ false)
Spent-snoc h code cs free stored spent =
    let other = other_hash h code cs free stored in
    (
      rw (any-snoc (has_hash h) cs (record code { used_at = none }), stored) refl,
      rw (any-snoc (is_open h) cs (record code { used_at = none }), spent, other) refl,
    )

-- A statement that marks some codes as used.
pub Spent-mark :
    (h : Bytes) (q : OauthAuthorizationCode → Bool) (now : DateTime)
    (cs : List OauthAuthorizationCode)
    → (any (has_hash h) (update_rows q (mark_used now) cs) ≡ any (has_hash h) cs)
      × (any (is_open h) cs ≡ false → any (is_open h) (update_rows q (mark_used now) cs) ≡ false)
Spent-mark h q now [] = (refl, λ e. e)
Spent-mark h q now (x ∷ cs) =
    let (kept, spent) = Spent-mark h q now cs in
    elim (Bool-cases (q x)) [
      | inl t ↦ (rw (t, kept) refl, λ e. rw t (marked (has_hash h x) _ (spent (ground arith))))
      | inr f ↦ (rw (f, kept) refl, λ e. rw f (unmarked (is_open h x) _ _ e spent))
    ]
  where
    marked : (a r : Bool) → r ≡ false → ((a && false) || r) ≡ false
    marked a r e = ground arith

    unmarked : (a r s : Bool) → (a || r) ≡ false → (r ≡ false → s ≡ false) → (a || s) ≡ false
    unmarked a r s e k = ground (arith, k)

-- UNIQUE (code_hash).
abbrev pub UniqueHashes : Db → Type 0
UniqueHashes d =
    AllPairs (λ a b. bytes_eq b.code_hash a.code_hash ≡ false) d.oauth_authorization_codes

module _ (h : Bytes) (now : DateTime) where
  pub stored_of_usable :
      (cs : List OauthAuthorizationCode) (row : OauthAuthorizationCode)
      → find_row (is_usable h now) cs ≡ some row
      → any (has_hash h) cs ≡ true
  stored_of_usable [] row found = absurd (cc)
  stored_of_usable (x ∷ cs) row found = elim (Bool-cases (is_usable h now x)) [
    | inl t ↦ ground arith
    | inr f ↦ ground (arith, stored_of_usable cs row (rw f at found))
  ]

  alone :
      (x : OauthAuthorizationCode) (cs : List OauthAuthorizationCode)
      → bytes_eq x.code_hash h ≡ true
      → All (λ (y : OauthAuthorizationCode). bytes_eq y.code_hash x.code_hash ≡ false) cs
      → any (has_hash h) cs ≡ false
  alone x cs m others = any_of_All (has_hash h) cs (
      subst (λ (k : Bytes). All (λ (y : OauthAuthorizationCode). bytes_eq y.code_hash k ≡ false) cs)
        ((bytes_eq_iff _ _).0 m) others)

  closed_of_absent :
      (cs : List OauthAuthorizationCode) → any (has_hash h) cs ≡ false → any (is_open h) cs ≡ false
  closed_of_absent [] e = refl
  closed_of_absent (x ∷ cs) e = ground (arith, closed_of_absent cs)

  -- The code that `consume` finds is the only one of its hash.
  pub spent_by_consume :
      (cs : List OauthAuthorizationCode) (row : OauthAuthorizationCode)
      → AllPairs
          (λ (a : OauthAuthorizationCode) (b : OauthAuthorizationCode).
            bytes_eq b.code_hash a.code_hash ≡ false)
          cs
      → find_row (is_usable h now) cs ≡ some row
      → any (is_open h) (update_rows (is_usable h now) (mark_used now) cs) ≡ false
  spent_by_consume [] row u found = refl
  spent_by_consume (x ∷ cs) row (others, u) found = elim (Bool-cases (is_usable h now x)) [
    | inl t ↦
        let rest =
          (Spent-mark h (is_usable h now) now cs).1
            (closed_of_absent cs (alone x cs (ground arith) others)) in
        rw t (first (bytes_eq x.code_hash h) _ rest)
    | inr f ↦
        let k = rw f at found in
        elim (Bool-cases (bytes_eq x.code_hash h)) [
          | inl m ↦ absurd (cc (alone x cs m others, stored_of_usable cs row k))
          | inr m ↦ rw (f, m) (spent_by_consume cs row u k)
        ]
  ]
    where
      first : (a r : Bool) → r ≡ false → ((a && false) || r) ≡ false
      first a r e = ground arith

  pub unusable :
      (cs : List OauthAuthorizationCode) (row : OauthAuthorizationCode)
      → any (is_open h) cs ≡ false
      → find_row (is_usable h now) cs ≢ some row
  unusable [] row e found = absurd (cc)
  unusable (x ∷ cs) row e found = elim (Bool-cases (is_usable h now x)) [
    | inl t ↦ absurd (ground arith)
    | inr f ↦ unusable cs row (ground arith) (rw f at found)
  ]
