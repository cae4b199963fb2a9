-- ===== src/Upload/Outcome.antt =====
-- Which uploads are taken, and what is known of one that is.
use factorial.Prelude.{
  Text, codes, ℕ, zero, suc, ◌+◌, ◌-◌, ◌*◌, ◌≤◌, ◌<◌, ◌≡◌, refl, sym, ap, inl, inr, Bool, true,
  false, not, ◌&&◌, Option, none, some, List, [], ◌∷◌, map, arith, ltb, ltb→lt, leb→le, Bool-cases,
  length, length-append, All, All-imp,
}
use native.Mathlib.Nat.{suc-mul}
use mathlib.Core.Path.{subst}
use factorial.Account.Roles.{Unicode, lower_text}
use factorial.Upload.{
  RawCell, Cell, text, coerce_cell, all_blank, width_of, blanks, pad, before_rest, pop_blank,
  normalise, cell_count, has_width, blank_to_none, too_large, legacy_xls, unsupported, unreadable,
  no_sheet, empty_file, ragged, too_many_cells, Format, xlsx, csv, ParsedUpload, Parse, parsed,
  refused, csv_error, read_error, Readers, Sheet, check_rows, then_check, rows_of_workbook,
  sheet_rows, first_non_empty_sheet, read_rows, ends_with, decode_csv, parse_upload,
}

abbrev HasWidth : ℕ → List (List Cell) → Type 0
HasWidth width rows = All (λ row. length row ≡ width) rows

length-blanks : (n : ℕ) → length (blanks n) ≡ n
length-blanks zero = refl
length-blanks (suc n) = omega (arith, length-blanks n)

length-pad : (width : ℕ) (row : List Cell) → length row ≤ width → length (pad width row) ≡ width
length-pad width row h =
    omega (
      arith,
      h,
      length-append row (blanks (width - length row)),
      length-blanks (width - length row),
    )

abbrev Fits : ℕ → List (List Cell) → Type 0
Fits width rows = All (λ row. length row ≤ width) rows

width_of-Fits : (rows : List (List Cell)) → Fits (width_of rows) rows
width_of-Fits [] = tt
width_of-Fits (row ∷ rows) =
    (omega arith, All-imp rows (λ r le. omega (arith, le)) (width_of-Fits rows))

map-pad-HasWidth :
    (width : ℕ) (rows : List (List Cell)) → Fits width rows → HasWidth width (map (pad width) rows)
map-pad-HasWidth width [] h = tt
map-pad-HasWidth width (row ∷ rows) h = (length-pad width row h.0, map-pad-HasWidth width rows h.1)

before_rest-HasWidth :
    (width : ℕ) (row : List Cell) (rest : List (List Cell))
    → length row ≡ width
    → HasWidth width rest
    → HasWidth width (before_rest row rest)
before_rest-HasWidth width row (next ∷ rest) h k = (h, k)
before_rest-HasWidth width row [] h k = elim (Bool-cases (all_blank row)) [
  | inl empty ↦ rw empty tt
  | inr full ↦ rw full (h, tt)
]

pop_blank-HasWidth :
    (width : ℕ) (rows : List (List Cell)) → HasWidth width rows → HasWidth width (pop_blank rows)
unfolding pop_blank
pop_blank-HasWidth width [] h = tt
pop_blank-HasWidth width (row ∷ rows) h =
    before_rest-HasWidth width row (pop_blank rows) h.0 (pop_blank-HasWidth width rows h.1)

has_width-true :
    (width : ℕ) (rows : List (List Cell)) → HasWidth width rows → has_width width rows ≡ true
has_width-true width [] h = refl
has_width-true width (row ∷ rows) h = ground (arith, h.0, has_width-true width rows h.1)

cell_count-HasWidth :
    (width : ℕ) (rows : List (List Cell))
    → HasWidth width rows
    → cell_count rows ≡ length rows * width
cell_count-HasWidth width [] h = omega arith
cell_count-HasWidth width (row ∷ rows) h =
    let rest : cell_count rows ≡ length rows * width = cell_count-HasWidth width rows h.1 in
    let step : suc (length rows) * width ≡ length rows * width + width =
      suc-mul (length rows) width in
    omega (arith, h.0, rest, step)

normalise-HasWidth :
    (unicode : Unicode) (rows : List (List Cell))
    → (width : ℕ) × HasWidth width (normalise unicode rows)
unfolding normalise
normalise-HasWidth unicode rows =
    let cleaned = map (map (blank_to_none unicode)) rows in
    (
      width_of cleaned,
      pop_blank-HasWidth (width_of cleaned) (map (pad (width_of cleaned)) cleaned)
          (map-pad-HasWidth (width_of cleaned) cleaned (width_of-Fits cleaned)),
    )

module _ (readers : Readers) (max_bytes max_cells : ℕ) (filename : Text) (content : List ℕ) where
  abbrev lower : Text
  lower = lower_text readers.unicode filename

  abbrev IsLegacy : Bool → Type 0
  IsLegacy b = (ends_with (codes ".xls") lower && not (ends_with (codes ".xlsx") lower)) ≡ b

  abbrev IsXlsx : Bool → Type 0
  IsXlsx b = ends_with (codes ".xlsx") lower ≡ b

  abbrev IsCsv : Bool → Type 0
  IsCsv b = IsLegacy false × IsXlsx false × (ends_with (codes ".csv") lower ≡ b)

  -- The first sheet with a size, in a workbook that opens.
  abbrev HasSheet : Option Sheet → Type 0
  HasSheet sheet =
      IsXlsx true
      × (sheets : List Sheet) × (readers.load_workbook content ≡ some sheets)
      × (first_non_empty_sheet sheets ≡ sheet)

  abbrev csv_read : Option (List (List Text))
  csv_read = readers.csv_rows (decode_csv readers content)

  -- The file is of this format by the end of its name, and these are the cells that are read in it.
  abbrev pub Reads : Format → List (List Cell) → Type 0
  Reads xlsx rows =
      (sheet : Sheet) × (raw : List (List RawCell)) × HasSheet (some sheet)
      × (sheet.rows ≡ some raw)
      × (rows ≡ map (map coerce_cell) raw)
  Reads csv rows =
      IsCsv true
      × (texts : List (List Text)) × (csv_read ≡ some texts)
      × (rows ≡ map (map text) texts)

  abbrev ReadsSome : (List (List Cell) → Type 0) → Type 0
  ReadsSome P = (format : Format) × (rows : List (List Cell)) × Reads format rows × P rows

  -- Why a file gets this answer. A table is the normalised cells of the file, not empty, a rectangle, and within both
  -- limits; a refusal names what is wrong with the file; and no file is refused for uneven rows.
  abbrev pub IsSound : Parse ParsedUpload → Type 0
  IsSound (parsed p) =
      (length content ≤ max_bytes)
      × ((rows : List (List Cell)) × Reads p.detected_format rows
          × (p.rows ≡ normalise readers.unicode rows))
      × (0 < length p.rows)
      × ((width : ℕ) × (HasWidth width p.rows × (length p.rows * width ≤ max_cells)))
  IsSound (refused (too_large n limit)) =
      (n ≡ length content) × (limit ≡ max_bytes) × (max_bytes < n)
  IsSound (refused legacy_xls) = IsLegacy true
  IsSound (refused unsupported) = IsCsv false
  IsSound (refused unreadable) = IsXlsx true × (readers.load_workbook content ≡ none)
  IsSound (refused no_sheet) = HasSheet none
  IsSound read_error = (sheet : Sheet) × HasSheet (some sheet) × (sheet.rows ≡ none)
  IsSound csv_error = IsCsv true × (csv_read ≡ none)
  IsSound (refused empty_file) = ReadsSome (λ rows. normalise readers.unicode rows ≡ [])
  IsSound (refused (too_many_cells n limit)) = ReadsSome (λ rows.
      (n ≡ cell_count (normalise readers.unicode rows)) × (limit ≡ max_cells) × (max_cells < n))
  IsSound (refused ragged) = ⊥

  -- What reading a file gives before the tests on its cells.
  abbrev IsReading : Format → Parse (List (List Cell)) → Type 0
  IsReading format (parsed rows) = Reads format rows
  IsReading format (refused unreadable) = IsXlsx true × (readers.load_workbook content ≡ none)
  IsReading format (refused no_sheet) = HasSheet none
  IsReading format (refused _) = ⊥
  IsReading format csv_error = IsCsv true × (csv_read ≡ none)
  IsReading format read_error = (sheet : Sheet) × HasSheet (some sheet) × (sheet.rows ≡ none)

  read_sheet-IsReading :
      (sheet : Sheet) (raw : Option (List (List RawCell)))
      → HasSheet (some sheet)
      → sheet.rows ≡ raw
      → IsReading xlsx
          (elim raw [ none ↦ read_error | some rows ↦ parsed (map (map coerce_cell) rows) ])
  read_sheet-IsReading sheet none has read = (sheet, has, read)
  read_sheet-IsReading sheet (some raw) has read = (sheet, raw, has, read, refl)

  sheet_rows-IsReading : (sheet : Option Sheet) → HasSheet sheet → IsReading xlsx (sheet_rows sheet)
  sheet_rows-IsReading none has = has
  sheet_rows-IsReading (some sheet) has = read_sheet-IsReading sheet sheet.rows has refl

  rows_of_workbook-IsReading :
      (book : Option (List Sheet))
      → IsXlsx true
      → readers.load_workbook content ≡ book
      → IsReading xlsx (rows_of_workbook book)
  rows_of_workbook-IsReading none named read = (named, read)
  rows_of_workbook-IsReading (some sheets) named read =
      sheet_rows-IsReading (first_non_empty_sheet sheets) (named, sheets, read, refl)

  read_rows-IsReading :
      (rows : Option (List (List Text)))
      → IsCsv true
      → csv_read ≡ rows
      → IsReading csv (read_rows rows)
  read_rows-IsReading none named read = (named, read)
  read_rows-IsReading (some texts) named read = (named, texts, read, refl)

  check_rows-IsSound :
      (format : Format) (rows : List (List Cell)) (width : ℕ) (table : List (List Cell))
      → length content ≤ max_bytes
      → Reads format rows
      → normalise readers.unicode rows ≡ table
      → HasWidth width table
      → IsSound (check_rows max_cells format table)
  unfolding check_rows
  check_rows-IsSound format rows width [] small reads same h = (format, rows, reads, same)
  check_rows-IsSound format rows width (row ∷ table) small reads same h =
      elim (Bool-cases (ltb max_cells (cell_count (row ∷ table)))) [
        | inl over ↦ rw over (
          format,
          rows,
          reads,
          (ap cell_count (sym same), refl, ltb→lt max_cells (cell_count (row ∷ table)) over),
        )
        | inr within ↦
            let square : has_width (length row) (row ∷ table) ≡ true =
              has_width-true (length row) (row ∷ table)
                (subst (λ w. HasWidth w (row ∷ table)) (sym h.0) h) in
            let area : length (row ∷ table) * width ≤ max_cells = omega (
              arith,
              cell_count-HasWidth width (row ∷ table) h,
              leb→le (cell_count (row ∷ table)) max_cells (ground (arith, within)),
            ) in
            rw (within, square) (small, (rows, reads, sym same), omega arith, (width, (h, area)))
      ]

  then_check-IsSound :
      (format : Format) (rows : Parse (List (List Cell)))
      → length content ≤ max_bytes
      → IsReading format rows
      → IsSound (then_check readers.unicode max_cells format rows)
  then_check-IsSound format (parsed rows) small h =
      let (width, wide) = normalise-HasWidth readers.unicode rows in
      check_rows-IsSound format rows width (normalise readers.unicode rows) small h refl wide
  then_check-IsSound format (refused unreadable) small h = h
  then_check-IsSound format (refused no_sheet) small h = h
  then_check-IsSound format (refused (too_large _ _)) small h = elim h [ ]
  then_check-IsSound format (refused legacy_xls) small h = elim h [ ]
  then_check-IsSound format (refused unsupported) small h = elim h [ ]
  then_check-IsSound format (refused empty_file) small h = elim h [ ]
  then_check-IsSound format (refused ragged) small h = elim h [ ]
  then_check-IsSound format (refused (too_many_cells _ _)) small h = elim h [ ]
  then_check-IsSound format csv_error small h = h
  then_check-IsSound format read_error small h = h

  -- Of every upload: a table that is taken is the normalised cells of the file, not empty, a rectangle and within both
  -- limits; and a file that is not taken has the fault that the answer names: its size, the end of its name, a workbook
  -- that does not open or has no sheet, a sheet or a text that cannot be read, no cell that is not blank, or too many
  -- cells. So a file with none of these faults is taken; none is refused for uneven rows.
  pub parse_upload-IsSound : IsSound (parse_upload readers max_bytes max_cells filename content)
  unfolding parse_upload
  parse_upload-IsSound = elim (Bool-cases (ltb max_bytes (length content))) [
    | inl over ↦ rw over (refl, refl, ltb→lt max_bytes (length content) over)
    | inr small ↦
        let fits : length content ≤ max_bytes = ground (arith, small) in
        rw small
          elim (Bool-cases
            (ends_with (codes ".xls") lower && not (ends_with (codes ".xlsx") lower))) [
              | inl legacy ↦ rw legacy legacy
              | inr current ↦ rw current elim (Bool-cases (ends_with (codes ".xlsx") lower)) [
                | inl sheet ↦ rw sheet (
                    then_check-IsSound xlsx (rows_of_workbook (readers.load_workbook content)) fits
                      (rows_of_workbook-IsReading (readers.load_workbook content) sheet refl))
                | inr other ↦ rw other elim (Bool-cases (ends_with (codes ".csv") lower)) [
                  | inl table ↦ rw table (
                      then_check-IsSound csv (read_rows csv_read) fits
                        (read_rows-IsReading csv_read (current, other, table) refl))
                  | inr unknown ↦ rw unknown (current, other, unknown)
                ]
              ]
            ]
  ]
