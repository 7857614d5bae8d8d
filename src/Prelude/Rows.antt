-- ===== src/Prelude/Rows.antt =====
-- Lemmas on the query functions: what holds of every row, of every two rows, and how many rows
-- pass a test, after an INSERT, an UPDATE or a DELETE.
use Prim.Native.Nat.{◌+◌, ◌≤◌}
use mathlib.Core.Path.{◌≡◌, refl}
use mathlib.Core.Logic.{inl, inr}
use mathlib.Core.Bool.{Bool, true, false}
use mathlib.Core.List.{List, [], ◌∷◌, ◌++◌}
use native.Mathlib.Omega.{arith}
use hzelmaim.Prelude.Tests.{if◌then◌else◌, Bool-cases}
use hzelmaim.Prelude.Lists.{
  any, All, All-where_rows, where_rows, update_rows, count_rows, order_by, insert_by,
}

module _ {A : Type 0} where
  -- R between each row and each later one.
  abbrev pub AllPairs : (A → A → Type 0) → List A → Type 0
  AllPairs R [] = Unit
  AllPairs R (x ∷ xs) = All (R x) xs × AllPairs R xs

  pub All-map_with : (P Q : A → Type 0) (xs : List A) → ((x : A) → P x → Q x) → All P xs → All Q xs
  All-map_with P Q [] f h = tt
  All-map_with P Q (x ∷ xs) f h = (f x h.0, All-map_with P Q xs f h.1)

  pub All-snoc : (P : A → Type 0) (xs : List A) (x : A) → All P xs → P x → All P (xs ++ x ∷ [])
  All-snoc P [] x h p = (p, tt)
  All-snoc P (y ∷ xs) x h p = (h.0, All-snoc P xs x h.1 p)

  pub All-update_rows :
      (P Q : A → Type 0) (p : A → Bool) (f : A → A) (xs : List A)
      → ((x : A) → P x → Q (if p x then f x else x))
      → All P xs
      → All Q (update_rows p f xs)
  All-update_rows P Q p f [] k h = tt
  All-update_rows P Q p f (x ∷ xs) k h = (k x h.0, All-update_rows P Q p f xs k h.1)

  pub All-of_any : (p : A → Bool) (xs : List A) → any p xs ≡ false → All (λ x. p x ≡ false) xs
  All-of_any p [] h = tt
  All-of_any p (x ∷ xs) h = (ground arith, All-of_any p xs (ground arith))

  pub any_of_All : (p : A → Bool) (xs : List A) → All (λ x. p x ≡ false) xs → any p xs ≡ false
  any_of_All p [] h = refl
  any_of_All p (x ∷ xs) h = ground (arith, any_of_All p xs h.1)

  -- What holds of every row that a WHERE keeps.
  pub All-of_where_rows :
      (P : A → Type 0) (p : A → Bool) (xs : List A)
      → All P (where_rows p xs)
      → All (λ x. p x ≡ true → P x) xs
  All-of_where_rows P p [] h = tt
  All-of_where_rows P p (x ∷ xs) h = elim (Bool-cases (p x)) [
    | inl t ↦
        let k : All P (x ∷ where_rows p xs) = rw t at h in (λ _. k.0, All-of_where_rows P p xs k.1)
    | inr f ↦ (λ t. absurd (cc), All-of_where_rows P p xs (rw f at h))
  ]

  insert_by-All :
      (P : A → Type 0) (before : A → A → Bool) (x : A) (xs : List A)
      → All P (insert_by before x xs)
      → P x × All P xs
  unfolding insert_by
  insert_by-All P before x [] h = h
  insert_by-All P before x (y ∷ ys) h = elim (Bool-cases (before x y)) [
    | inl t ↦ rw t at h
    | inr f ↦
        let k : All P (y ∷ insert_by before x ys) = rw f at h in
        let (px, rest) = insert_by-All P before x ys k.1 in (px, (k.0, rest))
  ]

  pub All-of_order_by :
      (P : A → Type 0) (before : A → A → Bool) (xs : List A) → All P (order_by before xs) → All P xs
  unfolding order_by
  All-of_order_by P before [] h = tt
  All-of_order_by P before (x ∷ xs) h =
      let (px, rest) = insert_by-All P before x (order_by before xs) h in
      (px, All-of_order_by P before xs rest)

  pub AllPairs-snoc :
      (R : A → A → Type 0) (xs : List A) (x : A)
      → AllPairs R xs
      → All (λ y. R y x) xs
      → AllPairs R (xs ++ x ∷ [])
  AllPairs-snoc R [] x h k = (tt, tt)
  AllPairs-snoc R (y ∷ xs) x h k = (All-snoc (R y) xs x h.0 k.0, AllPairs-snoc R xs x h.1 k.1)

  pub AllPairs-where_rows :
      (R : A → A → Type 0) (p : A → Bool) (xs : List A)
      → AllPairs R xs
      → AllPairs R (where_rows p xs)
  AllPairs-where_rows R p [] h = tt
  AllPairs-where_rows R p (x ∷ xs) h = elim (Bool-cases (p x)) [
    | inl t ↦ rw t (All-where_rows (R x) p xs h.0, AllPairs-where_rows R p xs h.1)
    | inr f ↦ rw f (AllPairs-where_rows R p xs h.1)
  ]

  pub AllPairs-update_rows :
      (R : A → A → Type 0) (p : A → Bool) (f : A → A) (xs : List A)
      → ((x y : A) → R x y → R (if p x then f x else x) (if p y then f y else y))
      → AllPairs R xs
      → AllPairs R (update_rows p f xs)
  AllPairs-update_rows R p f [] k h = tt
  AllPairs-update_rows R p f (x ∷ xs) k h = (
    All-update_rows (R x) (R (if p x then f x else x)) p f xs (k x) h.0,
    AllPairs-update_rows R p f xs k h.1,
  )

  pub count_rows-snoc :
      (p : A → Bool) (xs : List A) (x : A)
      → count_rows p (xs ++ x ∷ []) ≡ count_rows p xs + (if p x then 1 else 0)
  count_rows-snoc p [] x = omega arith
  count_rows-snoc p (y ∷ xs) x = omega (arith, count_rows-snoc p xs x)

  pub count_rows-where_rows :
      (p q : A → Bool) (xs : List A) → count_rows p (where_rows q xs) ≤ count_rows p xs
  count_rows-where_rows p q [] = omega arith
  count_rows-where_rows p q (x ∷ xs) = ground (arith, count_rows-where_rows p q xs)

  -- An update that lets no row pass anew does not raise the count.
  pub count_rows-update_rows :
      (p q : A → Bool) (f : A → A) (xs : List A)
      → All (λ x. q x ≡ true → p (f x) ≡ true → p x ≡ true) xs
      → count_rows p (update_rows q f xs) ≤ count_rows p xs
  count_rows-update_rows p q f [] h = omega arith
  count_rows-update_rows p q f (x ∷ xs) h = ground (arith, h.0, count_rows-update_rows p q f xs h.1)

  pub All-of_holds : (P : A → Type 0) (xs : List A) → ((x : A) → P x) → All P xs
  All-of_holds P [] f = tt
  All-of_holds P (x ∷ xs) f = (f x, All-of_holds P xs f)

module _ {A : Type 0} where
  pub All-both :
      (P Q R : A → Type 0) (xs : List A)
      → ((x : A) → P x → Q x → R x)
      → All P xs
      → All Q xs
      → All R xs
  All-both P Q R [] f h k = tt
  All-both P Q R (x ∷ xs) f h k = (f x h.0 k.0, All-both P Q R xs f h.1 k.1)

module _ {A : Type 0} where
  All-insert_by :
      (P : A → Type 0) (before : A → A → Bool) (x : A) (xs : List A)
      → P x
      → All P xs
      → All P (insert_by before x xs)
  unfolding insert_by
  All-insert_by P before x [] p h = (p, tt)
  All-insert_by P before x (y ∷ ys) p h = elim (Bool-cases (before x y)) [
    | inl t ↦ rw t (p, h)
    | inr f ↦ rw f (h.0, All-insert_by P before x ys p h.1)
  ]

  pub All-order_by :
      (P : A → Type 0) (before : A → A → Bool) (xs : List A) → All P xs → All P (order_by before xs)
  unfolding order_by
  All-order_by P before [] h = tt
  All-order_by P before (x ∷ xs) h =
      All-insert_by P before x (order_by before xs) h.0 (All-order_by P before xs h.1)
