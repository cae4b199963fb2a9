-- ===== src/Export/Rows.antt =====
-- What the table shows, and that its columns show all of it.
use factorial.Prelude.{
  ℕ, ◌+◌, String, ◌≡◌, refl, sym, ◌∙◌, inl, inr, Bool, true, false, ◌||◌, Option, none, some, List,
  [], arith, str_eq, eq_iff, if◌then◌else◌, Bool-cases, length, get_elem?, All,
}
use factorial.Prelude.Int.{pos}
use factorial.Model.{Experiment}
use factorial.Model.Json
use factorial.Model.Json.{Json, Dict, int, float, arr, obj, end, or_else}
use factorial.Design.Experiments.{or_no_rows}
use factorial.Export.Columns.{
  Has, mem-append, columns_of-mem, IsUnique, columns_of-IsUnique, columns_of-avoids,
  IsUnique-append,
}
use mathlib.Core.Path.{subst}
use factorial.Export.{
  dict_or_empty, matrix_of, mem, factor_cols, response_cols, last_row, merged_row, merged_rows,
  table_of, design_rows,
}
use factorial.Export.Shown.{
  merged_rows-get, length-merged_rows, design_value, shown_from, IsLast, last_row-IsLast,
  shown_value, lookup-merged_row, last_row-Has, or_else-Has,
}

module _ (results matrix : List Dict) where
  abbrev columns : Bool → List String
  columns include_results = (table_of include_results results matrix).0

  response_cols-mem :
      (k : String) (j : ℕ) (r : Dict)
      → get_elem? results j ≡ some r
      → Has k r
      → str_eq "run_index" k ≡ false
      → mem k (columns true) ≡ true
  response_cols-mem k j r at h other =
      let factors = factor_cols matrix in
      elim (Bool-cases (mem k factors)) [
        | inl old ↦ ground (arith, old, mem-append k factors (response_cols factors results))
        | inr new ↦
            let there =
              columns_of-mem (λ x. str_eq x "run_index" || mem x factors) k results j r [] at h
                (ground (arith, new, other, eq_iff "run_index" k, eq_iff k "run_index")) in
            ground (arith, there, mem-append k factors (response_cols factors results))
      ]

  factor_cols-mem :
      (include_results : Bool) (k : String) (i : ℕ) (row : Dict)
      → get_elem? matrix i ≡ some row
      → Has k row
      → mem k (columns include_results) ≡ true
  factor_cols-mem include_results k i row at h =
      let factors = factor_cols matrix in
      let there = columns_of-mem (λ x. false) k matrix i row [] at h refl in
      ground (
        arith,
        there,
        mem-append k factors (if include_results then response_cols factors results else []),
      )

  from_design :
      (include_results : Bool) (k : String) (i : ℕ) (row : Dict) (v : Json)
      → get_elem? matrix i ≡ some row
      → design_value i row k ≡ some v
      → mem k (columns include_results) ≡ true
  from_design include_results k i row v at h = elim (Bool-cases (str_eq "run_index" k)) [
    | inl index ↦ ground (arith, index)
    | inr other ↦
        elim (or_else-Has (Json.lookup k row)
          (if str_eq "run_index" k then some (int (pos i)) else none) v h) [
            | inl here ↦ factor_cols-mem include_results k i row at (v, here)
            | inr index ↦ absurd (grind (arith, index, other))
          ]
  ]

  shown_other :
      (i : ℕ) (row : Dict) (k : String)
      → str_eq "run_index" k ≡ false
      → shown_value true results i row k
        ≡ or_else (Json.lookup k (last_row (pos i) results end)) (design_value i row k)
  shown_other i row k other = rw other refl

  from_results :
      (k : String) (i : ℕ) (row : Dict) (v : Json)
      → get_elem? matrix i ≡ some row
      → shown_value true results i row k ≡ some v
      → mem k (columns true) ≡ true
  unfolding Json.lookup
  from_results k i row v at h = elim (Bool-cases (str_eq "run_index" k)) [
    | inl index ↦ ground (arith, index)
    | inr other ↦
        let split : or_else (Json.lookup k (last_row (pos i) results end)) (design_value i row k)
            ≡ some v =
          sym (shown_other i row k other) ∙ h in
        elim (or_else-Has (Json.lookup k (last_row (pos i) results end)) (design_value i row k) v
          split) [
            | inr design ↦ from_design true k i row v at design
            | inl result ↦ elim (last_row-Has k (pos i) results end (v, result)) [
              | inl empty ↦ absurd (grind (arith, empty.1))
              | inr (j, r, there, has) ↦ response_cols-mem k j r there has other
            ]
          ]
  ]

  columns-mem :
      (include_results : Bool) (k : String) (i : ℕ) (row : Dict) (v : Json)
      → get_elem? matrix i ≡ some row
      → shown_value include_results results i row k ≡ some v
      → mem k (columns include_results) ≡ true
  columns-mem true k i row v at h = from_results k i row v at h
  columns-mem false k i row v at h = from_design false k i row v at h

  abbrev extra : Bool → List String
  extra include_results = if include_results then response_cols (factor_cols matrix) results else []

  extra-avoids :
      (include_results : Bool) (k : String)
      → (str_eq k "run_index" || mem k (factor_cols matrix)) ≡ true
      → mem k (extra include_results) ≡ false
  extra-avoids false k h = refl
  extra-avoids true k h =
      columns_of-avoids (λ x. str_eq x "run_index" || mem x (factor_cols matrix)) k results []
        (inl h) refl

  extra-IsUnique : (include_results : Bool) → IsUnique (extra include_results)
  extra-IsUnique false = tt
  extra-IsUnique true =
      columns_of-IsUnique (λ x. str_eq x "run_index" || mem x (factor_cols matrix)) results [] tt

  columns-IsUnique :
      (include_results : Bool)
      → All (λ row. Json.lookup "run_index" row ≡ none) matrix
      → IsUnique (columns include_results)
  columns-IsUnique include_results plain =
      let factors = factor_cols matrix in
      let index : mem "run_index" factors ≡ false =
        columns_of-avoids (λ k. false) "run_index" matrix [] (inr plain) refl in
      let apart = extra-avoids include_results "run_index" refl in
      (
        ground (arith, mem-append "run_index" factors (extra include_results), index, apart),
        IsUnique-append factors (extra include_results)
            (columns_of-IsUnique (λ k. false) matrix [] tt) (extra-IsUnique include_results)
            (λ k h. extra-avoids include_results k (ground (arith, h))),
      )

-- A table of this design and these results.
pub record IsTable (include_results : Bool) (results matrix : List Dict) (columns : List String)
    (rows : List Dict) : Type 0 where
  pub one_row_each : length rows ≡ length matrix
  pub shows :
      (i : ℕ) (row : Dict)
      → get_elem? matrix i ≡ some row
      → (shown : Dict) × (last : Dict) × (get_elem? rows i ≡ some shown)
        × IsLast (pos i) results last
        × ((k : String)
            → (Json.lookup k shown ≡ shown_from include_results last i row k)
              × ((v : Json) → Json.lookup k shown ≡ some v → mem k columns ≡ true))
  pub unique : All (λ row. Json.lookup "run_index" row ≡ none) matrix → IsUnique columns

table_of-IsTable :
    (include_results : Bool) (results matrix : List Dict)
    → IsTable include_results results matrix
        (table_of include_results results matrix).0
        (table_of include_results results matrix).1
table_of-IsTable include_results results matrix = record {
  one_row_each = length-merged_rows include_results results 0 matrix;
  shows = λ i row at.
      let start : 0 + i ≡ i = omega arith in
      (
        merged_row include_results results i row,
        last_row (pos i) results end,
        subst
            (λ n.
              get_elem? (merged_rows include_results results 0 matrix) i
              ≡ some (merged_row include_results results n row))
            start (merged_rows-get include_results results 0 matrix i row at),
        last_row-IsLast (pos i) results,
        λ k. (
          lookup-merged_row include_results results i row k,
          λ v has.
              columns-mem results matrix include_results k i row v at
                (sym (lookup-merged_row include_results results i row k) ∙ has),
        ),
      );
  unique = columns-IsUnique results matrix include_results;
}

-- An index of a result that is compared as here: an int, a bool, a text, or none. A float is compared by its value, and a
-- list is no key of a dict.
abbrev pub IsPlain : Option Json → Type 0
IsPlain (some (float x)) = ⊥
IsPlain (some (arr xs)) = ⊥
IsPlain (some (obj d)) = ⊥
IsPlain _ = Unit

-- The table of an experiment whose design is a list of runs, and whose results have plain indices, has one row for each
-- run, in order. A row shows, under each key, what the result says that stands last among those with the run's number as
-- index, where results are included; else the value of the design, and the run's number under "run_index". Each key of
-- a row is among the columns, and no column stands twice if the design itself has no "run_index".
pub design_rows-IsTable :
    (e : Experiment) (include_results : Bool) (d : Dict) (matrix : List Dict)
    → dict_or_empty e.design_data ≡ some d
    → matrix_of d ≡ some matrix
    → All (λ r. IsPlain (Json.lookup "run_index" r)) (or_no_rows e.results_data)
    → (columns : List String) × (rows : List Dict) × (design_rows e include_results
        ≡ some (columns, rows))
      × IsTable include_results (or_no_rows e.results_data) matrix columns rows
unfolding design_rows
design_rows-IsTable e include_results d matrix data_eq matrix_eq plain =
    let table = table_of include_results (or_no_rows e.results_data) matrix in
    (
      table.0,
      table.1,
      rw (design_rows, data_eq, matrix_eq) refl,
      table_of-IsTable include_results (or_no_rows e.results_data) matrix,
    )
