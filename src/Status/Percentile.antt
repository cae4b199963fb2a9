-- ===== src/Status/Percentile.antt =====
-- What share of the values lies at or below a percentile.
use factorial.Prelude.{
  ℕ, zero, suc, ◌-◌, ◌*◌, ◌/◌, ◌≤◌, ◌<◌, min, max, ◌≡◌, refl, sym, ap, ◌∙◌, true, false, some, List,
  [], ◌∷◌, arith, ltb, leb, length, get_elem?, count_where, All, All-imp, count_zero_of_All,
}
use factorial.Prelude.Sorting.{IsSorted, sort_by-IsSorted, count_where-sort_by}
use factorial.Status.{percentile, sorted}

All-get {κ} : (P : ℕ → Type κ) (xs : List ℕ) (i p : ℕ) → All P xs → get_elem? xs i ≡ some p → P p
All-get P [] i p h e = cc
All-get P (x ∷ xs) zero p h e = let same : p ≡ x = cc in rw same h.0
All-get P (x ∷ xs) (suc i) p h e = All-get P xs i p h.1 e

-- In a sorted list at least i + 1 values are at most the one at place i.
rank :
    (xs : List ℕ) (i p : ℕ)
    → IsSorted leb xs
    → get_elem? xs i ≡ some p
    → i < count_where (λ x. leb x p) xs
rank [] i p h e = cc
rank (x ∷ xs) zero p h e = let same : x ≡ p = cc in ground arith
rank (x ∷ xs) (suc i) p h e =
    let below : leb x p ≡ true = All-get (λ y. leb x y ≡ true) xs i p h.0 e in
    ground (arith, rank xs i p h.1 e)

-- At most i values are below the one at place i.
rank_below :
    (xs : List ℕ) (i p : ℕ)
    → IsSorted leb xs
    → get_elem? xs i ≡ some p
    → count_where (λ x. ltb x p) xs ≤ i
rank_below [] i p h e = cc
rank_below (x ∷ xs) zero p h e =
    let same : x ≡ p = cc in
    let above = count_zero_of_All (λ y. ltb y p) xs (All-imp xs (λ y le. ground arith) h.0) in
    ground arith
rank_below (x ∷ xs) (suc i) p h e = ground (arith, rank_below xs i p h.1 e)

get_lt : (xs : List ℕ) (i : ℕ) → i < length xs → (p : ℕ) × (get_elem? xs i ≡ some p)
get_lt [] i h = absurd (omega arith)
get_lt (x ∷ xs) zero h = (x, refl)
get_lt (x ∷ xs) (suc i) h = get_lt xs i (omega arith)

percentile-place :
    (xs : List ℕ) (pct : ℕ)
    → 0 < length xs
    → percentile xs pct ≡ get_elem? xs (max 0 (min (length xs - 1) ((pct * length xs) / 100)))
unfolding percentile
percentile-place [] pct h = absurd (omega arith)
percentile-place (x ∷ xs) pct h = refl

leb_total : (a b : ℕ) → leb a b ≡ false → leb b a ≡ true
leb_total a b h = ground arith

leb_trans : (a b c : ℕ) → leb a b ≡ true → leb b c ≡ true → leb a c ≡ true
leb_trans a b c h k = ground arith

count_all : (xs : List ℕ) → count_where (λ x. true) xs ≡ length xs
count_all [] = refl
count_all (x ∷ xs) = omega (arith, count_all xs)

share_le : (pct n : ℕ) → pct ≤ 100 → pct * n ≤ 100 * n
share_le pct n h = grind arith

length-sorted : (xs : List ℕ) → length (sorted xs) ≡ length xs
length-sorted xs =
    sym (count_all (sorted xs)) ∙ count_where-sort_by leb (λ x. true) xs ∙ count_all xs

-- Of any latencies but none, a percentile up to the 100th is there; at least that share of them lies at or below
-- it, and at most that share below it.
pub percentile_lem :
    (xs : List ℕ) (pct : ℕ)
    → 0 < length xs
    → pct ≤ 100
    → (p : ℕ) × (percentile (sorted xs) pct ≡ some p)
      × (pct * length xs ≤ 100 * count_where (λ x. leb x p) xs)
      × (100 * count_where (λ x. ltb x p) xs ≤ pct * length xs)
percentile_lem xs pct some_value h =
    let n = length-sorted xs in
    let share : pct * length (sorted xs) ≡ pct * length xs = ap (λ m. pct * m) n in
    let k = max 0 (min (length (sorted xs) - 1) ((pct * length (sorted xs)) / 100)) in
    let (p, e) = get_lt (sorted xs) k (omega (arith, n)) in
    let ordered = sort_by-IsSorted leb leb_total leb_trans xs in
    let at = rank (sorted xs) k p ordered e in
    let below = rank_below (sorted xs) k p ordered e in
    let count_at = count_where-sort_by leb (λ x. leb x p) xs in
    let count_below = count_where-sort_by leb (λ x. ltb x p) xs in
    (
      p,
      percentile-place (sorted xs) pct (omega (arith, n)) ∙ e,
      omega (arith, n, share, share_le pct (length xs) h, at, count_at),
      omega (arith, n, share, below, count_below),
    )
