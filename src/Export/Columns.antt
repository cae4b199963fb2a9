-- ===== src/Export/Columns.antt =====
-- The columns that the keys of rows give.
use factorial.Prelude.{
  ℕ, zero, suc, String, ◌≡◌, refl, ap, ◌∙◌, ◌⊎◌, inl, inr, Bool, true, false, ◌||◌, none, some,
  List, [], ◌∷◌, ◌++◌, arith, str_eq, eq_iff, if◌then◌else◌, Bool-cases, get_elem?, All,
}
use factorial.Model.Json
use factorial.Model.Json.{Json, Dict, end, entry}
use factorial.Export.{mem, add_columns, columns_of}

abbrev pub Has : String → Dict → Type 0
Has k d = (v : Json) × (Json.lookup k d ≡ some v)

pub mem-append : (k : String) (a b : List String) → mem k (a ++ b) ≡ (mem k a || mem k b)
mem-append k [] b = refl
mem-append k (c ∷ a) b = ground (arith, mem-append k a b)

module _ (skip : String → Bool) where
  add_columns-keeps :
      (k : String) (row : Dict) (columns : List String)
      → mem k columns ≡ true
      → mem k (add_columns skip row columns) ≡ true
  add_columns-keeps k end columns h = h
  add_columns-keeps k (entry j v row) columns h = elim (Bool-cases (skip j || mem j columns)) [
    | inl old ↦ rw old (add_columns-keeps k row columns h)
    | inr new ↦ rw new (
        add_columns-keeps k row (columns ++ j ∷ [])
          (ground (arith, h, mem-append k columns (j ∷ []))))
  ]

  columns_of-keeps :
      (k : String) (rows : List Dict) (columns : List String)
      → mem k columns ≡ true
      → mem k (columns_of skip rows columns) ≡ true
  columns_of-keeps k [] columns h = h
  columns_of-keeps k (row ∷ rows) columns h =
      columns_of-keeps k rows (add_columns skip row columns) (add_columns-keeps k row columns h)

  -- The key of a row is a column, if it is not to be skipped.
  add_columns-mem :
      (k : String) (row : Dict) (columns : List String)
      → Has k row
      → skip k ≡ false
      → mem k (add_columns skip row columns) ≡ true
  unfolding Json.lookup
  add_columns-mem k end columns h s = absurd (grind (arith, h.1))
  add_columns-mem k (entry j v row) columns h s = elim (Bool-cases (str_eq j k)) [
    | inl same ↦
        let eq : j ≡ k = (eq_iff j k).0 same in
        elim (Bool-cases (mem k columns)) [
          | inl old ↦ rw (eq, s, old) (add_columns-keeps k row columns old)
          | inr new ↦
              rw (eq, s, new)
                (add_columns-keeps k row (columns ++ k ∷ [])
                  (ground (arith, mem-append k columns (k ∷ []), eq_iff k k)))
        ]
    | inr other ↦
        let rest : Has k row = (h.0, ground (arith, h.1, other)) in
        add_columns-mem k row (if skip j || mem j columns then columns else columns ++ j ∷ []) rest
          s
  ]

  pub columns_of-mem :
      (k : String) (rows : List Dict) (i : ℕ) (row : Dict) (columns : List String)
      → get_elem? rows i ≡ some row
      → Has k row
      → skip k ≡ false
      → mem k (columns_of skip rows columns) ≡ true
  columns_of-mem k [] i row columns at h s = absurd (grind (arith, at))
  columns_of-mem k (r ∷ rows) zero row columns at h s =
      let same : r ≡ row = grind (arith, at) in
      columns_of-keeps k rows (add_columns skip r columns)
        (add_columns-mem k r columns (rw same h) s)
  columns_of-mem k (r ∷ rows) (suc i) row columns at h s =
      columns_of-mem k rows i row (add_columns skip r columns) at h s

-- No column stands twice.
abbrev pub IsUnique : List String → Type 0
IsUnique [] = Unit
IsUnique (c ∷ columns) = (mem c columns ≡ false) × IsUnique columns

IsUnique-snoc :
    (j : String) (columns : List String)
    → mem j columns ≡ false
    → IsUnique columns
    → IsUnique (columns ++ j ∷ [])
IsUnique-snoc j [] h u = (refl, tt)
IsUnique-snoc j (c ∷ columns) h u = (
  ground (arith, h, u.0, mem-append c columns (j ∷ []), eq_iff c j, eq_iff j c),
  IsUnique-snoc j columns (ground (arith, h)) u.1,
)

module _ (skip : String → Bool) where
  -- What holds of all columns that are not skipped.
  add_columns-IsUnique :
      (row : Dict) (columns : List String)
      → IsUnique columns
      → IsUnique (add_columns skip row columns)
  add_columns-IsUnique end columns u = u
  add_columns-IsUnique (entry j v row) columns u = elim (Bool-cases (skip j || mem j columns)) [
    | inl old ↦ rw old (add_columns-IsUnique row columns u)
    | inr new ↦ rw new (
        add_columns-IsUnique row (columns ++ j ∷ [])
          (IsUnique-snoc j columns (ground (arith, new)) u))
  ]

  pub columns_of-IsUnique :
      (rows : List Dict) (columns : List String)
      → IsUnique columns
      → IsUnique (columns_of skip rows columns)
  columns_of-IsUnique [] columns u = u
  columns_of-IsUnique (row ∷ rows) columns u =
      columns_of-IsUnique rows (add_columns skip row columns) (add_columns-IsUnique row columns u)

  step-avoids :
      (k j : String) (columns : List String)
      → (str_eq j k ≡ false) ⊎ (skip j ≡ true)
      → mem k columns ≡ false
      → mem k (if skip j || mem j columns then columns else columns ++ j ∷ []) ≡ false
  step-avoids k j columns (inr s) h = ground (arith, s, h)
  step-avoids k j columns (inl other) h = ground (arith, other, h, mem-append k columns (j ∷ []))

  add_columns-avoids :
      (k : String) (row : Dict) (columns : List String)
      → (skip k ≡ true) ⊎ (Json.lookup k row ≡ none)
      → mem k columns ≡ false
      → mem k (add_columns skip row columns) ≡ false
  unfolding Json.lookup
  add_columns-avoids k end columns s h = h
  add_columns-avoids k (entry j v row) columns (inl s) h =
      add_columns-avoids k row (if skip j || mem j columns then columns else columns ++ j ∷ [])
        (inl s)
        (step-avoids k j columns
          (elim (Bool-cases (str_eq j k)) [
            | inl same ↦ inr (ap skip ((eq_iff j k).0 same) ∙ s)
            | inr other ↦ inl other
          ])
          h)
  add_columns-avoids k (entry j v row) columns (inr s) h = elim (Bool-cases (str_eq j k)) [
    | inl same ↦ absurd (grind (arith, s, same))
    | inr other ↦
        add_columns-avoids k row (if skip j || mem j columns then columns else columns ++ j ∷ [])
          (inr (ground (arith, s, other))) (step-avoids k j columns (inl other) h)
  ]

  pub columns_of-avoids :
      (k : String) (rows : List Dict) (columns : List String)
      → (skip k ≡ true) ⊎ All (λ row. Json.lookup k row ≡ none) rows
      → mem k columns ≡ false
      → mem k (columns_of skip rows columns) ≡ false
  columns_of-avoids k [] columns s h = h
  columns_of-avoids k (row ∷ rows) columns (inl s) h =
      columns_of-avoids k rows (add_columns skip row columns) (inl s)
        (add_columns-avoids k row columns (inl s) h)
  columns_of-avoids k (row ∷ rows) columns (inr s) h =
      columns_of-avoids k rows (add_columns skip row columns) (inr s.1)
        (add_columns-avoids k row columns (inr s.0) h)

pub IsUnique-append :
    (a b : List String)
    → IsUnique a
    → IsUnique b
    → ((k : String) → mem k a ≡ true → mem k b ≡ false)
    → IsUnique (a ++ b)
IsUnique-append [] b u v apart = v
IsUnique-append (c ∷ a) b u v apart = (
  ground (arith, mem-append c a b, u.0, apart c (ground (arith, eq_iff c c))),
  IsUnique-append a b u.1 v (λ k h. apart k (ground (arith, h))),
)
