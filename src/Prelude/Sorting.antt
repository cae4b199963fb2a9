-- ===== src/Prelude/Sorting.antt =====
-- ORDER BY ... DESC and ASC on a number, as a stable insertion sort: rows with equal keys keep the
-- order in which the table has them.
use Prim.Native.Nat.{ℕ, ◌≤◌, ◌+◌}
use mathlib.Core.Path.{◌≡◌, refl}
use mathlib.Core.Logic.{inl, inr}
use mathlib.Core.Bool.{Bool, true, false}
use mathlib.Core.List.{List, [], ◌∷◌, ◌++◌, Perm}
use mathlib.Core.List.Perm
use native.Mathlib.Omega.{arith}
use factorial.Prelude.Tests.{if◌then◌else◌, leb, leb→le, Bool-cases}
use factorial.Prelude.Lists.{All, All-imp, All-append, All-select, select, count_where}

module _ {ℓ} {A : Type ℓ} (before : A → A → Bool) where
  unfoldable pub insert_by : A → List A → List A
  insert_by a [] = a ∷ []
  insert_by a (x ∷ xs) = if before a x then a ∷ x ∷ xs else x ∷ insert_by a xs

  unfoldable pub sort_by : List A → List A
  unfolding insert_by
  sort_by [] = []
  sort_by (x ∷ xs) = insert_by x (sort_by xs)

  insert_by-perm : (a : A) (xs : List A) → Perm (insert_by a xs) (a ∷ xs)
  unfolding insert_by
  insert_by-perm a [] = Perm.refl (a ∷ [])
  insert_by-perm a (x ∷ xs) = elim (Bool-cases (before a x)) [
    | inl first ↦ rw first (Perm.refl (a ∷ x ∷ xs))
    | inr later ↦ rw later (Perm.trans (Perm.cons x (insert_by-perm a xs)) (Perm.swap a x xs))
  ]

  -- Sorting loses no row and repeats none.
  pub sort_by-perm : (xs : List A) → Perm (sort_by xs) xs
  unfolding sort_by
  sort_by-perm [] = Perm.refl []
  sort_by-perm (x ∷ xs) = Perm.trans (insert_by-perm x (sort_by xs)) (Perm.cons x (sort_by-perm xs))

  All-insert_by {κ} :
      (P : A → Type κ) (a : A) (xs : List A) → P a → All P xs → All P (insert_by a xs)
  unfolding insert_by
  All-insert_by P a [] p h = (p, tt)
  All-insert_by P a (x ∷ xs) p h = elim (Bool-cases (before a x)) [
    | inl first ↦ rw first (p, h)
    | inr later ↦ rw later (h.0, All-insert_by P a xs p h.1)
  ]

  pub All-sort_by {κ} : (P : A → Type κ) (xs : List A) → All P xs → All P (sort_by xs)
  unfolding sort_by
  All-sort_by P [] h = tt
  All-sort_by P (x ∷ xs) h = All-insert_by P x (sort_by xs) h.0 (All-sort_by P xs h.1)

  count_where-insert_by :
      (p : A → Bool) (a : A) (xs : List A)
      → count_where p (insert_by a xs) ≡ (if p a then 1 else 0) + count_where p xs
  unfolding insert_by
  count_where-insert_by p a [] = refl
  count_where-insert_by p a (x ∷ xs) = ground (arith, count_where-insert_by p a xs)

  pub count_where-sort_by :
      (p : A → Bool) (xs : List A) → count_where p (sort_by xs) ≡ count_where p xs
  unfolding sort_by
  count_where-sort_by p [] = refl
  count_where-sort_by p (x ∷ xs) =
      omega (arith, count_where-insert_by p x (sort_by xs), count_where-sort_by p xs)

  abbrev pub IsSorted : List A → Type 0
  IsSorted [] = Unit
  IsSorted (x ∷ xs) = All (λ y. before x y ≡ true) xs × IsSorted xs

  module _ (total : (a b : A) → before a b ≡ false → before b a ≡ true)
      (trans : (a b c : A) → before a b ≡ true → before b c ≡ true → before a c ≡ true) where
    insert_by-IsSorted : (a : A) (xs : List A) → IsSorted xs → IsSorted (insert_by a xs)
    unfolding insert_by
    insert_by-IsSorted a [] h = (tt, tt)
    insert_by-IsSorted a (x ∷ xs) h = elim (Bool-cases (before a x)) [
      | inl first ↦ rw first ((first, All-imp xs (λ y le. trans a x y first le) h.0), h)
      | inr later ↦ rw later (
        All-insert_by (λ y. before x y ≡ true) a xs (total a x later) h.0,
        insert_by-IsSorted a xs h.1,
      )
    ]

    pub sort_by-IsSorted : (xs : List A) → IsSorted (sort_by xs)
    unfolding sort_by
    sort_by-IsSorted [] = tt
    sort_by-IsSorted (x ∷ xs) = insert_by-IsSorted x (sort_by xs) (sort_by-IsSorted xs)

  -- A list in order is left as it is.
  pub insert_first :
      (x : A) (xs : List A) → All (λ y. before x y ≡ true) xs → insert_by x xs ≡ x ∷ xs
  unfolding insert_by
  insert_first x [] h = refl
  insert_first x (y ∷ ys) h = rw h.0 refl

  pub sort_by_id : (xs : List A) → IsSorted xs → sort_by xs ≡ xs
  unfolding sort_by
  sort_by_id [] h = refl
  sort_by_id (x ∷ xs) h = rw (sort_by_id xs h.1) (insert_first x xs h.0)

  pub select-IsSorted : (p : A → Bool) (xs : List A) → IsSorted xs → IsSorted (select p xs)
  select-IsSorted p [] h = tt
  select-IsSorted p (x ∷ xs) h = elim (Bool-cases (p x)) [
    | inl hit ↦ rw hit (All-select (λ y. before x y ≡ true) p xs h.0, select-IsSorted p xs h.1)
    | inr miss ↦ rw miss (select-IsSorted p xs h.1)
  ]

  -- A row that comes after all the others keeps the order.
  pub append-IsSorted :
      (xs : List A) (z : A)
      → IsSorted xs
      → All (λ x. before x z ≡ true) xs
      → IsSorted (xs ++ z ∷ [])
  append-IsSorted [] z h k = (tt, tt)
  append-IsSorted (x ∷ xs) z h k =
      (All-append (λ y. before x y ≡ true) xs (z ∷ []) h.0 (k.0, tt), append-IsSorted xs z h.1 k.1)

module _ {ℓ} {A : Type ℓ} (key : A → ℕ) where
  abbrev pub order_by_desc : List A → List A
  order_by_desc = sort_by (λ a b. leb (key b) (key a))

  abbrev pub order_by_asc : List A → List A
  order_by_asc = sort_by (λ a b. leb (key a) (key b))

  abbrev pub IsDescending : List A → Type ℓ
  IsDescending [] = Unit
  IsDescending (x ∷ xs) = All (λ y. key y ≤ key x) xs × IsDescending xs

  All-le_trans :
      (a x : A) (xs : List A)
      → key x ≤ key a
      → All (λ y. key y ≤ key x) xs
      → All (λ y. key y ≤ key a) xs
  All-le_trans a x [] le h = tt
  All-le_trans a x (y ∷ ys) le h = (omega arith, All-le_trans a x ys le h.1)

  insert-IsDescending :
      (a : A) (xs : List A)
      → IsDescending xs
      → IsDescending (insert_by (λ x y. leb (key y) (key x)) a xs)
  unfolding insert_by
  insert-IsDescending a [] h = (tt, tt)
  insert-IsDescending a (x ∷ xs) h = elim (Bool-cases (leb (key x) (key a))) [
    | inl first ↦ rw first ((leb→le _ _ first, All-le_trans a x xs (leb→le _ _ first) h.0), h)
    | inr later ↦ rw later (
      All-insert_by (λ u v. leb (key v) (key u)) (λ y. key y ≤ key x) a xs (ground arith) h.0,
      insert-IsDescending a xs h.1,
    )
  ]

  pub order_by_desc-IsDescending : (xs : List A) → IsDescending (order_by_desc xs)
  unfolding sort_by
  order_by_desc-IsDescending [] = tt
  order_by_desc-IsDescending (x ∷ xs) =
      insert-IsDescending x (order_by_desc xs) (order_by_desc-IsDescending xs)
