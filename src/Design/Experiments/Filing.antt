-- ===== src/Design/Experiments/Filing.antt =====
-- The dict from run index to row: what is found after a row is filed, and after the rows are sorted.
use factorial.Prelude.{
  ◌≤◌, max, ◌≡◌, refl, ap, inl, inr, true, false, Option, none, some, List, [], ◌∷◌, arith,
  if◌then◌else◌, Bool-cases, count_where,
}
use factorial.Prelude.Int.{ℤ, pos, negsuc, leb_ℤ, eqb_ℤ}
use factorial.Prelude.Sorting.{sort_by, insert_by}
use factorial.Model.Json
use factorial.Model.Json.{Json, Dict, lookup-merge, or_else}
use factorial.Design.Experiments.{
  run_index, index_is, has_index, find_row, file_row, index_before, index_or_zero, as_index,
}

pub index_of : (i : ℤ) (row : Dict) {j : ℤ} → run_index row ≡ some j → has_index i row ≡ eqb_ℤ j i
index_of i row h = ap (index_is i) h

as_index_else : (x y : Option Json) {j : ℤ} → as_index x ≡ some j → as_index (or_else x y) ≡ some j
as_index_else none y h = cc
as_index_else (some v) y h = h

pub run_index-merge :
    (old row : Dict) {j : ℤ} → run_index row ≡ some j → run_index (Json.merge old row) ≡ some j
run_index-merge old row h =
    rw (lookup-merge "run_index" old row) (as_index_else (Json.lookup "run_index" row) _ h)

same_index : (i j : ℤ) (o : Option ℤ) → index_is j o ≡ true → index_is i o ≡ eqb_ℤ j i
same_index i j none h = cc
same_index i j (some k) h = ground arith

other_index :
    (i j : ℤ) (o : Option ℤ) → index_is j o ≡ false → index_is i o ≡ true → eqb_ℤ j i ≡ false
other_index i j none h k = cc
other_index i j (some l) h k = ground arith

later_index :
    (i : ℤ) (o p : Option ℤ)
    → leb_ℤ (index_or_zero o) (index_or_zero p) ≡ false
    → index_is i o ≡ true
    → index_is i p ≡ false
later_index i none p h k = cc
later_index i (some j) none h k = refl
later_index i (some j) (some l) h k = ground arith

pub find-file :
    (i j : ℤ) (row : Dict) (rows : List Dict)
    → run_index row ≡ some j
    → find_row i (file_row j row rows) ≡ (if eqb_ℤ j i then row else find_row i rows)
unfolding find_row file_row
find-file i j row [] h = rw (index_of i row h) refl
find-file i j row (r ∷ rows) h = elim (Bool-cases (has_index j r)) [
  | inl here ↦ rw (here, index_of i row h, same_index i j (run_index r) here) (ground arith)
  | inr there ↦ elim (Bool-cases (has_index i r)) [
    | inl found ↦ rw (there, found, other_index i j (run_index r) there found) refl
    | inr miss ↦ rw (there, miss, find-file i j row rows h) refl
  ]
]

count-file :
    (i j : ℤ) (row : Dict) (rows : List Dict)
    → run_index row ≡ some j
    → count_where (has_index i) (file_row j row rows) ≡ (
        if eqb_ℤ j i
        then max 1 (count_where (has_index i) rows)
        else count_where (has_index i) rows)
unfolding file_row
count-file i j row [] h = rw (index_of i row h) (ground arith)
count-file i j row (r ∷ rows) h = elim (Bool-cases (has_index j r)) [
  | inl here ↦ rw (here, index_of i row h, same_index i j (run_index r) here) (ground arith)
  | inr there ↦ elim (Bool-cases (has_index i r)) [
    | inl found ↦
        rw (there, found, count-file i j row rows h, other_index i j (run_index r) there found)
          (ground arith)
    | inr miss ↦ rw (there, miss, count-file i j row rows h) (ground arith)
  ]
]

find-insert_by :
    (i : ℤ) (a : Dict) (rows : List Dict)
    → find_row i (insert_by index_before a rows) ≡ (if has_index i a then a else find_row i rows)
unfolding find_row insert_by
find-insert_by i a [] = refl
find-insert_by i a (r ∷ rows) = elim (Bool-cases (index_before a r)) [
  | inl first ↦ rw first refl
  | inr later ↦ elim (Bool-cases (has_index i a)) [
    | inl found ↦
        rw
          (
            later,
            found,
            later_index i (run_index a) (run_index r) later found,
            find-insert_by i a rows,
          )
          (rw found refl)
    | inr miss ↦ rw (later, miss, find-insert_by i a rows) (rw miss refl)
  ]
]

pub find-sort :
    (i : ℤ) (rows : List Dict) → find_row i (sort_by index_before rows) ≡ find_row i rows
unfolding find_row sort_by
find-sort i [] = refl
find-sort i (r ∷ rows) = rw (find-insert_by i r (sort_by index_before rows), find-sort i rows) refl

-- Each index has at most one row.
abbrev pub IsDistinct : List Dict → Type 0
IsDistinct rows = (i : ℤ) → count_where (has_index i) rows ≤ 1

pub file-IsDistinct :
    (j : ℤ) (row : Dict) (rows : List Dict)
    → run_index row ≡ some j
    → IsDistinct rows
    → IsDistinct (file_row j row rows)
file-IsDistinct j row rows h d i = rw (count-file i j row rows h) (ground (arith, d i))

pub eqb→eq : (i j : ℤ) → eqb_ℤ i j ≡ true → i ≡ j
eqb→eq (pos m) (pos n) h = ap pos (ground arith)
eqb→eq (negsuc m) (negsuc n) h = ap negsuc (ground arith)
eqb→eq (pos m) (negsuc n) h = absurd (ground arith)
eqb→eq (negsuc m) (pos n) h = absurd (ground arith)
