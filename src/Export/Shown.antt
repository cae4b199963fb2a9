-- ===== src/Export/Shown.antt =====
-- What a row of the table shows.
use factorial.Prelude.{
  ℕ, zero, suc, ◌+◌, String, ◌≡◌, refl, ap, ◌∙◌, ◌≢◌, ◌⊎◌, ◌++◌, All, inl, inr, Bool, true, false,
  not, ◌&&◌, Option, none, some, List, [], ◌∷◌, arith, ==_self, str_eq, if◌then◌else◌, Bool-cases,
  length, get_elem?,
}
use factorial.Prelude.Int.{ℤ, pos, pos_part, neg_part, eqb_ℤ}
use factorial.Model.Json
use factorial.Model.Json.{Json, Dict, int, end, entry, or_else, lookup-merge, lookup-erase}
use factorial.Design.Experiments.{index_is, run_index, has_index}
use factorial.Design.Experiments.Filing.{eqb→eq}
use factorial.Export.Columns.{Has}
use factorial.Export.{last_row, indexed, merged_row, merged_rows}

pub merged_rows-get :
    (include_results : Bool) (results : List Dict) (idx : ℕ) (matrix : List Dict) (i : ℕ)
    (row : Dict)
    → get_elem? matrix i ≡ some row
    → get_elem? (merged_rows include_results results idx matrix) i
      ≡ some (merged_row include_results results (idx + i) row)
merged_rows-get include_results results idx [] i row h = absurd (grind (arith, h))
merged_rows-get include_results results idx (r ∷ matrix) zero row h =
    let same : r ≡ row = grind (arith, h) in
    let at : idx ≡ idx + 0 = omega arith in rw (same, ← at) refl
merged_rows-get include_results results idx (r ∷ matrix) (suc i) row h =
    let at : idx + 1 + i ≡ idx + suc i = omega arith in
    rw (← at) (merged_rows-get include_results results (idx + 1) matrix i row h)

pub length-merged_rows :
    (include_results : Bool) (results : List Dict) (idx : ℕ) (matrix : List Dict)
    → length (merged_rows include_results results idx matrix) ≡ length matrix
length-merged_rows include_results results idx [] = refl
length-merged_rows include_results results idx (r ∷ matrix) =
    omega (arith, length-merged_rows include_results results (idx + 1) matrix)

-- What the table shows under a key in the row of a run: the result that was recorded last for the run, if results
-- are shown; else what the design has there, and the number of the run under "run_index".
abbrev pub design_value : ℕ → Dict → String → Option Json
design_value i row k =
    or_else (Json.lookup k row) (if str_eq "run_index" k then some (int (pos i)) else none)

abbrev pub shown_from : Bool → Dict → ℕ → Dict → String → Option Json
shown_from include_results last i row k =
    if include_results && not (str_eq "run_index" k)
    then or_else (Json.lookup k last) (design_value i row k)
    else design_value i row k

abbrev pub shown_value : Bool → List Dict → ℕ → Dict → String → Option Json
shown_value include_results results i row k =
    shown_from include_results (last_row (pos i) results end) i row k

-- The row that was recorded last for an index: no later one has the index. It is empty where there is none.
abbrev pub IsLast : ℤ → List Dict → Dict → Type 0
IsLast i results last =
    ((last ≡ end) × All (λ r. run_index r ≢ some i) results)
    ⊎ ((before : List Dict) × (after : List Dict) × (results ≡ before ++ last ∷ after)
        × (run_index last ≡ some i)
        × All (λ r. run_index r ≢ some i) after)

index_of_true : (i : ℤ) (o : Option ℤ) → index_is i o ≡ true → o ≡ some i
index_of_true i none h = cc
index_of_true i (some j) h = ap some (eqb→eq j i h)

index_self : (i : ℤ) → eqb_ℤ i i ≡ true
index_self i = ==_self (pos_part i + neg_part i)

index_of_false : (i : ℤ) (o : Option ℤ) → index_is i o ≡ false → o ≢ some i
index_of_false i o h same = absurd (grind (arith, ap (index_is i) same, h, index_self i))

last_row-split :
    (i : ℤ) (results : List Dict) (row : Dict)
    → ((last_row i results row ≡ row) × All (λ r. run_index r ≢ some i) results)
      ⊎ ((before : List Dict) × (after : List Dict) × (results
            ≡ before ++ last_row i results row ∷ after)
          × (run_index (last_row i results row) ≡ some i)
          × All (λ r. run_index r ≢ some i) after)
last_row-split i [] row = inl (refl, tt)
last_row-split i (r ∷ results) row = elim (Bool-cases (has_index i r)) [
  | inl hit ↦ rw hit elim (last_row-split i results r) [
    | inl (same, none_later) ↦
        inr ([], results, rw same refl, rw same (index_of_true i (run_index r) hit), none_later)
    | inr (before, after, split, index, none_later) ↦
        inr (r ∷ before, after, ap (λ rest. r ∷ rest) split, index, none_later)
  ]
  | inr miss ↦ rw miss elim (last_row-split i results row) [
    | inl (same, none_later) ↦ inl (same, (index_of_false i (run_index r) miss, none_later))
    | inr (before, after, split, index, none_later) ↦
        inr (r ∷ before, after, ap (λ rest. r ∷ rest) split, index, none_later)
  ]
]

pub last_row-IsLast : (i : ℤ) (results : List Dict) → IsLast i results (last_row i results end)
last_row-IsLast i results = last_row-split i results end

pub lookup-merged_row :
    (include_results : Bool) (results : List Dict) (i : ℕ) (row : Dict) (k : String)
    → Json.lookup k (merged_row include_results results i row)
      ≡ shown_value include_results results i row k
unfolding Json.lookup
lookup-merged_row false results i row k = lookup-merge k (entry "run_index" (int (pos i)) end) row
lookup-merged_row true results i row k =
    let last = last_row (pos i) results end in
    lookup-merge k (indexed i row) (Json.erase "run_index" last)
    ∙ ap (λ o. or_else o (Json.lookup k (indexed i row))) (lookup-erase "run_index" k last)
    ∙ elim (Bool-cases (str_eq "run_index" k)) [
      | inl index ↦ rw (index, lookup-merge k (entry "run_index" (int (pos i)) end) row, index) refl
      | inr other ↦ rw (other, lookup-merge k (entry "run_index" (int (pos i)) end) row, other) refl
    ]

chosen-Has :
    (k : String) (b : Bool) (r row : Dict) → Has k (if b then r else row) → Has k r ⊎ Has k row
chosen-Has k true r row h = inl h
chosen-Has k false r row h = inr h

pub last_row-Has :
    (k : String) (i : ℤ) (results : List Dict) (row : Dict)
    → Has k (last_row i results row)
    → Has k row ⊎ ((j : ℕ) × (r : Dict) × (get_elem? results j ≡ some r) × Has k r)
last_row-Has k i [] row h = inl h
last_row-Has k i (r ∷ results) row h =
    elim (last_row-Has k i results (if has_index i r then r else row) h) [
      | inr later ↦ inr (suc later.0, later.1, later.2, later.3)
      | inl here ↦ elim (chosen-Has k (has_index i r) r row here) [
        | inl new ↦ inr (0, r, refl, new)
        | inr old ↦ inl old
      ]
    ]

pub or_else-Has :
    (a b : Option Json) (v : Json) → or_else a b ≡ some v → (a ≡ some v) ⊎ (b ≡ some v)
or_else-Has none b v h = inr h
or_else-Has (some a) b v h = inl h
