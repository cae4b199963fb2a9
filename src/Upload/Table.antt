-- ===== src/Upload/Table.antt =====
-- What `_normalise` does to the table.
use factorial.Prelude.{
  ℕ, zero, suc, ◌-◌, ◌≡◌, refl, sym, ◌∙◌, ◌≢◌, inl, inr, true, List, [], ◌∷◌, ◌++◌, map, arith,
  Bool-cases, length, All, All-append,
}
use factorial.Account.Roles.{Unicode}
use factorial.Upload.{
  Cell, blank, text, scalar, blank_to_none, all_blank, is_space_text, width_of, blanks, pad,
  before_rest, pop_blank, normalise,
}

-- The cell in a column of a row, and of a table; outside of it a cell is blank.
abbrev pub cell_in : ℕ → List Cell → Cell
cell_in j [] = blank
cell_in zero (c ∷ row) = c
cell_in (suc j) (c ∷ row) = cell_in j row

abbrev pub cell_at : ℕ → ℕ → List (List Cell) → Cell
cell_at i j [] = blank
cell_at zero j (row ∷ rows) = cell_in j row
cell_at (suc i) j (row ∷ rows) = cell_at i j rows

-- No cell is an empty text.
abbrev IsClean : List Cell → Type 0
IsClean row = All (λ c. c ≢ text []) row

cell_in-blanks : (j n : ℕ) → cell_in j (blanks n) ≡ blank
cell_in-blanks j zero = refl
cell_in-blanks zero (suc n) = refl
cell_in-blanks (suc j) (suc n) = cell_in-blanks j n

cell_in-pad : (j width : ℕ) (row : List Cell) (n : ℕ) → cell_in j (row ++ blanks n) ≡ cell_in j row
cell_in-pad j width [] n = cell_in-blanks j n
cell_in-pad zero width (c ∷ row) n = refl
cell_in-pad (suc j) width (c ∷ row) n = cell_in-pad j width row n

cell_at-pad :
    (i j width : ℕ) (rows : List (List Cell))
    → cell_at i j (map (pad width) rows) ≡ cell_at i j rows
cell_at-pad i j width [] = refl
cell_at-pad zero j width (row ∷ rows) = cell_in-pad j width row (width - length row)
cell_at-pad (suc i) j width (row ∷ rows) = cell_at-pad i j width rows

-- A blank row shows nothing.
cell_in-all_blank :
    (j : ℕ) (row : List Cell) → IsClean row → all_blank row ≡ true → cell_in j row ≡ blank
cell_in-all_blank j [] clean h = refl
cell_in-all_blank zero (blank ∷ row) clean h = refl
cell_in-all_blank zero (text [] ∷ row) clean h = absurd (clean.0 refl)
cell_in-all_blank zero (text (c ∷ t) ∷ row) clean h = absurd (grind (arith, h))
cell_in-all_blank zero (scalar json ∷ row) clean h = absurd (grind (arith, h))
cell_in-all_blank (suc j) (c ∷ row) clean h = cell_in-all_blank j row clean.1 (ground (arith, h))

cell_at-before_rest :
    (i j : ℕ) (row : List Cell) (rest : List (List Cell))
    → IsClean row
    → cell_at i j (before_rest row rest) ≡ cell_at i j (row ∷ rest)
cell_at-before_rest i j row (next ∷ rest) clean = refl
cell_at-before_rest zero j row [] clean = elim (Bool-cases (all_blank row)) [
  | inl empty ↦ rw empty (sym (cell_in-all_blank j row clean empty))
  | inr full ↦ rw full refl
]
cell_at-before_rest (suc i) j row [] clean = elim (Bool-cases (all_blank row)) [
  | inl empty ↦ rw empty refl
  | inr full ↦ rw full refl
]

cell_at-pop_blank :
    (i j : ℕ) (rows : List (List Cell))
    → All IsClean rows
    → cell_at i j (pop_blank rows) ≡ cell_at i j rows
unfolding pop_blank
cell_at-pop_blank i j [] clean = refl
cell_at-pop_blank zero j (row ∷ rows) clean =
    cell_at-before_rest zero j row (pop_blank rows) clean.0
cell_at-pop_blank (suc i) j (row ∷ rows) clean =
    cell_at-before_rest (suc i) j row (pop_blank rows) clean.0 ∙ cell_at-pop_blank i j rows clean.1

blanks-IsClean : (n : ℕ) → IsClean (blanks n)
blanks-IsClean zero = tt
blanks-IsClean (suc n) = (λ same. grind (arith, same), blanks-IsClean n)

module _ (unicode : Unicode) where
  blank_to_none_clean : (c : Cell) → blank_to_none unicode c ≢ text []
  blank_to_none_clean blank = λ same. grind (arith, same)
  blank_to_none_clean (text []) = λ same. grind (arith, same)
  blank_to_none_clean (text (c ∷ t)) = elim (Bool-cases (is_space_text unicode (c ∷ t))) [
    | inl space ↦ rw space (λ same. grind (arith, same))
    | inr ink ↦ rw ink (λ same. grind (arith, same))
  ]
  blank_to_none_clean (scalar json) = λ same. grind (arith, same)

  cell_in-map :
      (j : ℕ) (row : List Cell)
      → cell_in j (map (blank_to_none unicode) row) ≡ blank_to_none unicode (cell_in j row)
  cell_in-map j [] = refl
  cell_in-map zero (c ∷ row) = refl
  cell_in-map (suc j) (c ∷ row) = cell_in-map j row

  cell_at-map :
      (i j : ℕ) (rows : List (List Cell))
      → cell_at i j (map (map (blank_to_none unicode)) rows)
        ≡ blank_to_none unicode (cell_at i j rows)
  cell_at-map i j [] = refl
  cell_at-map zero j (row ∷ rows) = cell_in-map j row
  cell_at-map (suc i) j (row ∷ rows) = cell_at-map i j rows

  cleaned_row : (row : List Cell) → IsClean (map (blank_to_none unicode) row)
  cleaned_row [] = tt
  cleaned_row (c ∷ row) = (blank_to_none_clean c, cleaned_row row)

  cleaned_rows :
      (width : ℕ) (rows : List (List Cell))
      → All IsClean (map (pad width) (map (map (blank_to_none unicode)) rows))
  cleaned_rows width [] = tt
  cleaned_rows width (row ∷ rows) =
      let row' = map (blank_to_none unicode) row in
      (
        All-append (λ c. c ≢ text []) row' (blanks (width - length row')) (cleaned_row row)
            (blanks-IsClean (width - length row')),
        cleaned_rows width rows,
      )

  -- Normalising moves no cell and loses none: each shows what it did, but that a text of white space is blank,
  -- and so is all outside of the table.
  pub normalise-cell_at :
      (i j : ℕ) (rows : List (List Cell))
      → cell_at i j (normalise unicode rows) ≡ blank_to_none unicode (cell_at i j rows)
  unfolding normalise
  normalise-cell_at i j rows =
      let cleaned = map (map (blank_to_none unicode)) rows in
      cell_at-pop_blank i j (map (pad (width_of cleaned)) cleaned)
        (cleaned_rows (width_of cleaned) rows)
      ∙ cell_at-pad i j (width_of cleaned) cleaned
      ∙ cell_at-map i j rows
