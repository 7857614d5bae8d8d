-- ===== src/Prelude/Found.antt =====
-- What a query by key finds after an INSERT, an UPDATE or a DELETE.
use mathlib.Core.Path.{◌≡◌, refl}
use mathlib.Core.Logic.{inl, inr}
use mathlib.Core.Bool.{Bool, true}
use mathlib.Core.Option.{Option, none, some}
use mathlib.Core.List.{List, [], ◌∷◌, ◌++◌}
use hzelmaim.Prelude.Tests.{if◌then◌else◌, Bool-cases}
use hzelmaim.Prelude.Lists.{find_row, where_rows, update_rows}

module _ {A B : Type 0} (g : A → B) where
  -- A column of the first row that passes a test.
  unfoldable pub find_column : (A → Bool) → List A → Option B
  find_column p [] = none
  find_column p (x ∷ xs) = if p x then some (g x) else find_column p xs

  pub find_column_of_row :
      (p : A → Bool) (xs : List A) (x : A) → find_row p xs ≡ some x → find_column p xs ≡ some (g x)
  unfolding find_column
  find_column_of_row p [] x h = absurd (cc)
  find_column_of_row p (y ∷ xs) x h = elim (Bool-cases (p y)) [
    | inl t ↦ let e : y ≡ x = cc (rw t at h) in rw (t, e) refl
    | inr f ↦ rw f (find_column_of_row p xs x (rw f at h))
  ]

  -- A row that is added later does not hide the one found.
  pub find_column-snoc :
      (p : A → Bool) (xs : List A) (x : A) (b : B)
      → find_column p xs ≡ some b
      → find_column p (xs ++ x ∷ []) ≡ some b
  unfolding find_column
  find_column-snoc p [] x b h = absurd (cc)
  find_column-snoc p (y ∷ xs) x b h = elim (Bool-cases (p y)) [
    | inl t ↦ rw t (rw t at h)
    | inr f ↦ rw f (find_column-snoc p xs x b (rw f at h))
  ]

  -- An update that changes neither the key nor the column.
  pub find_column-update_rows :
      (p q : A → Bool) (f : A → A) (xs : List A)
      → ((x : A) → p (f x) ≡ p x)
      → ((x : A) → g (f x) ≡ g x)
      → find_column p (update_rows q f xs) ≡ find_column p xs
  unfolding find_column
  find_column-update_rows p q f [] k c = refl
  find_column-update_rows p q f (x ∷ xs) k c = elim (Bool-cases (q x)) [
    | inl t ↦ rw (t, k x, c x, find_column-update_rows p q f xs k c) refl
    | inr t ↦ rw (t, find_column-update_rows p q f xs k c) refl
  ]

  -- A deletion of rows that do not pass the test.
  pub find_column-where_rows :
      (p q : A → Bool) (xs : List A)
      → ((x : A) → p x ≡ true → q x ≡ true)
      → find_column p (where_rows q xs) ≡ find_column p xs
  unfolding find_column
  find_column-where_rows p q [] h = refl
  find_column-where_rows p q (x ∷ xs) h = elim (Bool-cases (q x)) [
    | inl t ↦ rw (t, find_column-where_rows p q xs h) refl
    | inr f ↦ elim (Bool-cases (p x)) [
      | inl t ↦ absurd (cc (h x t))
      | inr g ↦ rw (f, g, find_column-where_rows p q xs h) refl
    ]
  ]
