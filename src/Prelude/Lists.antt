-- ===== src/Prelude/Lists.antt =====
-- Lists measured by native numbers, under the library's names, and the statements that the services
-- send to a table: a select with a condition, an update with a condition, a count.
use Prim.Native.Nat.{ℕ, zero, suc, ◌+◌, ◌≤◌}
use mathlib.Core.Path.{◌≡◌, refl}
use mathlib.Core.Logic.{inl, inr}
use mathlib.Core.Bool.{Bool, true, false, ◌&&◌, ◌||◌}
use mathlib.Core.List.{List, [], ◌∷◌, ◌++◌}
use mathlib.Core.Option.{Option, none, some}
use native.Mathlib.Omega.{arith}
use factorial.Prelude.Tests.{if◌then◌else◌, Bool-cases}

module _ {ℓ} {A : Type ℓ} where
  abbrev pub length : List A → ℕ
  length [] = 0
  length (x ∷ xs) = suc (length xs)

  abbrev pub get_elem? : List A → ℕ → Option A
  get_elem? [] i = none
  get_elem? (x ∷ xs) zero = some x
  get_elem? (x ∷ xs) (suc i) = get_elem? xs i

  abbrev pub take : ℕ → List A → List A
  take zero xs = []
  take (suc n) [] = []
  take (suc n) (x ∷ xs) = x ∷ take n xs

  abbrev pub drop : ℕ → List A → List A
  drop zero xs = xs
  drop (suc n) [] = []
  drop (suc n) (x ∷ xs) = drop n xs

  pub length-append : (xs ys : List A) → length (xs ++ ys) ≡ length xs + length ys
  length-append [] ys = omega arith
  length-append (x ∷ xs) ys = omega (arith, length-append xs ys)

  -- SELECT ... WHERE p
  abbrev pub select : (A → Bool) → List A → List A
  select p [] = []
  select p (x ∷ xs) = let rest = select p xs in if p x then x ∷ rest else rest

  -- UPDATE ... SET f WHERE p
  abbrev pub update_where : (A → Bool) → (A → A) → List A → List A
  update_where p f [] = []
  update_where p f (x ∷ xs) = (if p x then f x else x) ∷ update_where p f xs

  -- SELECT count(*) ... WHERE p
  abbrev pub count_where : (A → Bool) → List A → ℕ
  count_where p [] = 0
  count_where p (x ∷ xs) = (if p x then 1 else 0) + count_where p xs

  -- Every row satisfies P.
  abbrev pub All {κ} : (A → Type κ) → List A → Type κ
  All P [] = Unit
  All P (x ∷ xs) = P x × All P xs

  pub All-imp {κ ν} :
      {P : A → Type κ} {Q : A → Type ν} (xs : List A) → ((x : A) → P x → Q x) → All P xs → All Q xs
  All-imp [] imp h = tt
  All-imp (x ∷ xs) imp h = (imp x h.0, All-imp xs imp h.1)

  -- An update leads from P to Q if it does so at the rows that it changes and at the others.
  pub All-update_where {κ ν} :
      (P : A → Type κ) (Q : A → Type ν) (p : A → Bool) (f : A → A) (xs : List A)
      → ((x : A) → p x ≡ true → P x → Q (f x))
      → ((x : A) → p x ≡ false → P x → Q x)
      → All P xs
      → All Q (update_where p f xs)
  All-update_where P Q p f [] change keep h = tt
  All-update_where P Q p f (x ∷ xs) change keep h = elim (Bool-cases (p x)) [
    | inl hit ↦ rw hit (change x hit h.0, All-update_where P Q p f xs change keep h.1)
    | inr miss ↦ rw miss (keep x miss h.0, All-update_where P Q p f xs change keep h.1)
  ]

  pub All-append {κ} : (P : A → Type κ) (xs ys : List A) → All P xs → All P ys → All P (xs ++ ys)
  All-append P [] ys h k = k
  All-append P (x ∷ xs) ys h k = (h.0, All-append P xs ys h.1 k)

  -- A select finds only rows that are there and meet the condition.
  pub All-select {κ} :
      (P : A → Type κ) (p : A → Bool) (xs : List A) → All P xs → All P (select p xs)
  All-select P p [] h = tt
  All-select P p (x ∷ xs) h = elim (Bool-cases (p x)) [
    | inl hit ↦ rw hit (h.0, All-select P p xs h.1)
    | inr miss ↦ rw miss (All-select P p xs h.1)
  ]

  pub select_meets : (p : A → Bool) (xs : List A) → All (λ x. p x ≡ true) (select p xs)
  select_meets p [] = tt
  select_meets p (x ∷ xs) = elim (Bool-cases (p x)) [
    | inl hit ↦ rw hit (hit, select_meets p xs)
    | inr miss ↦ rw miss (select_meets p xs)
  ]

  pub length-select : (p : A → Bool) (xs : List A) → length (select p xs) ≡ count_where p xs
  length-select p [] = refl
  length-select p (x ∷ xs) = ground (arith, length-select p xs)

  pub select-append :
      (p : A → Bool) (xs ys : List A) → select p (xs ++ ys) ≡ select p xs ++ select p ys
  select-append p [] ys = refl
  select-append p (x ∷ xs) ys = ground (arith, select-append p xs ys)

  pub count_where-append :
      (p : A → Bool) (xs ys : List A)
      → count_where p (xs ++ ys) ≡ count_where p xs + count_where p ys
  count_where-append p [] ys = omega arith
  count_where-append p (x ∷ xs) ys = ground (arith, count_where-append p xs ys)

  -- A stronger condition selects nothing either.
  pub select_none_of :
      (p q : A → Bool) (xs : List A)
      → ((x : A) → q x ≡ true → p x ≡ true)
      → select p xs ≡ []
      → select q xs ≡ []
  select_none_of p q [] imp h = refl
  select_none_of p q (x ∷ xs) imp h = elim (Bool-cases (q x)) [
    | inl hit ↦ absurd (ground (arith, imp x hit))
    | inr miss ↦ rw miss (select_none_of p q xs imp (ground arith))
  ]

  -- An update that keeps the condition of a select can be made after the select.
  pub select-update_where :
      (p q : A → Bool) (f : A → A) (xs : List A)
      → ((x : A) → p (f x) ≡ p x)
      → select p (update_where q f xs) ≡ update_where q f (select p xs)
  select-update_where p q f [] keep = refl
  select-update_where p q f (x ∷ xs) keep =
      ground (arith, keep x, select-update_where p q f xs keep)

  pub count_where-select :
      (p q : A → Bool) (xs : List A)
      → count_where p (select q xs) ≡ count_where (λ x. p x && q x) xs
  count_where-select p q [] = refl
  count_where-select p q (x ∷ xs) = ground (arith, count_where-select p q xs)

  pub All_of_count_zero :
      (p : A → Bool) (xs : List A) → count_where p xs ≡ 0 → All (λ x. p x ≡ false) xs
  All_of_count_zero p [] h = tt
  All_of_count_zero p (x ∷ xs) h = elim (Bool-cases (p x)) [
    | inl hit ↦ absurd (ground arith)
    | inr miss ↦ (miss, All_of_count_zero p xs (ground arith))
  ]

  pub count_zero_of_All :
      (p : A → Bool) (xs : List A) → All (λ x. p x ≡ false) xs → count_where p xs ≡ 0
  count_zero_of_All p [] h = refl
  count_zero_of_All p (x ∷ xs) h = ground (arith, h.0, count_zero_of_All p xs h.1)

  update_where_none :
      (q : A → Bool) (f : A → A) (xs : List A) → select q xs ≡ [] → update_where q f xs ≡ xs
  update_where_none q f [] h = refl
  update_where_none q f (x ∷ xs) h = elim (Bool-cases (q x)) [
    | inl hit ↦ absurd (ground arith)
    | inr miss ↦ rw (miss, update_where_none q f xs (ground arith))
  ]

  -- An update of one row changes a count by that row.
  pub count_where-update_one :
      (p q : A → Bool) (f : A → A) (xs : List A) {x : A}
      → select q xs ≡ x ∷ []
      → count_where p (update_where q f xs) + (if p x then 1 else 0)
        ≡ count_where p xs + (if p (f x) then 1 else 0)
  count_where-update_one p q f [] h = absurd (cc)
  count_where-update_one p q f (y ∷ ys) {x} h = elim (Bool-cases (q y)) [
    | inl hit ↦
        let same : y ≡ x = ground arith in
        let none_more : update_where q f ys ≡ ys = update_where_none q f ys (ground arith) in
        rw (hit, none_more, same) (omega arith)
    | inr miss ↦ rw miss (omega (arith, count_where-update_one p q f ys {x = x} (ground arith)))
  ]

  -- The row of a key, after an update that keeps keys.
  pub select-update_one :
      (q : A → Bool) (f : A → A) (xs : List A) {x : A}
      → ((y : A) → q (f y) ≡ q y)
      → q x ≡ true
      → select q xs ≡ x ∷ []
      → select q (update_where q f xs) ≡ f x ∷ []
  select-update_one q f xs {x} keep hit h = rw (select-update_where q q f xs keep, h, hit)

  pub select-select :
      (p q : A → Bool) (xs : List A) → select q (select p xs) ≡ select (λ x. p x && q x) xs
  select-select p q [] = refl
  select-select p q (x ∷ xs) = ground (arith, select-select p q xs)

  -- A wider condition finds at least as many rows.
  pub length-select-or :
      (p q : A → Bool) (xs : List A) → length (select q xs) ≤ length (select (λ x. p x || q x) xs)
  length-select-or p q [] = omega arith
  length-select-or p q (x ∷ xs) = ground (arith, length-select-or p q xs)

  -- A select that an update does not reach finds the same rows.
  pub select-update_apart :
      (p q : A → Bool) (f : A → A) (xs : List A)
      → ((x : A) → q x ≡ true → (p x ≡ false) × (p (f x) ≡ false))
      → select p (update_where q f xs) ≡ select p xs
  select-update_apart p q f [] apart = refl
  select-update_apart p q f (x ∷ xs) apart = elim (Bool-cases (q x)) [
    | inl hit ↦ rw hit (ground (arith, apart x hit, select-update_apart p q f xs apart))
    | inr miss ↦ rw miss (ground (arith, select-update_apart p q f xs apart))
  ]
