-- ===== src/Upload.antt =====
-- backend/src/app/services/upload_parsing_service.py: the file of a user becomes a table of cells. The package openpyxl,
-- Python's csv reader and its UTF-8 decoder are parameters.
mod Tests
pub mod Table
pub mod Outcome
pub mod Discover
pub mod Drafts
use factorial.Prelude.{
  Text, codes, ℕ, zero, suc, ◌+◌, ◌-◌, max, Bool, true, false, not, ◌&&◌, Option, none, some, List,
  [], ◌∷◌, ◌++◌, map, ltb, leb, ◌==◌, if◌then◌else◌, list_eq, length, drop,
}
use factorial.Model.Json.{Json}
use factorial.Account.Roles.{Unicode, lower_text}

-- What openpyxl and the csv reader give: a date, a time or a datetime with its `isoformat`, a timedelta with its
-- `total_seconds`, a Decimal with its float, and any other value, which is a JSON scalar.
pub data RawCell : Type 0 where
  empty_cell : RawCell
  raw_text : Text → RawCell
  dated : Text → RawCell
  lasting decimal other_value : Json → RawCell

pub data Cell : Type 0 where
  blank : Cell
  text : Text → Cell
  scalar : Json → Cell

-- A sheet; a size that openpyxl does not know is None.
pub record Sheet : Type 0 where
  pub max_row : Option ℕ
  pub max_column : Option ℕ
  pub rows : Option (List (List RawCell))

-- The rows of a sheet are read as they are asked for; none where openpyxl raises then. `load_workbook` with its sheets in order, none where it raises; `csv.reader` over the whole text, none where it
-- raises csv.Error; the decoder "utf-8-sig", none for a UnicodeDecodeError.
pub record Readers : Type 0 where
  pub load_workbook : List ℕ → Option (List Sheet)
  pub csv_rows : Text → Option (List (List Text))
  pub decode_utf8_sig : List ℕ → Option Text
  pub unicode : Unicode

-- The texts of UploadValidationError.
pub data Fault : Type 0 where
  too_large : ℕ → ℕ → Fault
  legacy_xls unsupported unreadable no_sheet empty_file ragged : Fault
  too_many_cells : ℕ → ℕ → Fault

pub data Format : Type 0 where
  xlsx csv : Format

pub record ParsedUpload : Type 0 where
  pub rows : List (List Cell)
  pub detected_format : Format

-- csv.Error, and what openpyxl raises while it reads a sheet, is no UploadValidationError: it passes through.
pub data Parse (A : Type 0) : Type 0 where
  parsed : A → Parse A
  refused : Fault → Parse A
  csv_error read_error : Parse A

abbrev pub coerce_cell : RawCell → Cell
coerce_cell empty_cell = blank
coerce_cell (raw_text t) = text t
coerce_cell (dated t) = text t
coerce_cell (lasting json) = scalar json
coerce_cell (decimal json) = scalar json
coerce_cell (other_value json) = scalar json

abbrev pub is_positive : Option ℕ → Bool
is_positive none = false
is_positive (some n) = ltb 0 n

unfoldable pub first_non_empty_sheet : List Sheet → Option Sheet
first_non_empty_sheet [] = none
first_non_empty_sheet (sheet ∷ sheets) =
    if is_positive sheet.max_row && is_positive sheet.max_column
    then some sheet
    else first_non_empty_sheet sheets

abbrev pub sheet_rows : Option Sheet → Parse (List (List Cell))
sheet_rows none = refused no_sheet
sheet_rows (some sheet) = elim sheet.rows [
  | none ↦ read_error
  | some rows ↦ parsed (map (map coerce_cell) rows)
]

abbrev pub rows_of_workbook : Option (List Sheet) → Parse (List (List Cell))
rows_of_workbook none = refused unreadable
rows_of_workbook (some sheets) = sheet_rows (first_non_empty_sheet sheets)

abbrev pub read_rows : Option (List (List Text)) → Parse (List (List Cell))
read_rows none = csv_error
read_rows (some rows) = parsed (map (map text) rows)

-- value.strip() == ""
abbrev pub is_space_text : Unicode → Text → Bool
is_space_text unicode [] = true
is_space_text unicode (c ∷ rest) = unicode.is_space c && is_space_text unicode rest

abbrev pub blank_to_none : Unicode → Cell → Cell
blank_to_none unicode blank = blank
blank_to_none unicode (text t) = if is_space_text unicode t then blank else text t
blank_to_none unicode (scalar json) = scalar json

-- c is None or c == ""
abbrev pub is_blank : Cell → Bool
is_blank blank = true
is_blank (text []) = true
is_blank (text (c ∷ t)) = false
is_blank (scalar json) = false

abbrev pub all_blank : List Cell → Bool
all_blank [] = true
all_blank (c ∷ row) = is_blank c && all_blank row

abbrev pub width_of : List (List Cell) → ℕ
width_of [] = 0
width_of (row ∷ rows) = max (length row) (width_of rows)

abbrev pub blanks : ℕ → List Cell
blanks zero = []
blanks (suc n) = blank ∷ blanks n

abbrev pub pad : ℕ → List Cell → List Cell
pad width row = row ++ blanks (width - length row)

abbrev pub before_rest : List Cell → List (List Cell) → List (List Cell)
before_rest row [] = if all_blank row then [] else row ∷ []
before_rest row (next ∷ rest) = row ∷ next ∷ rest

-- The rows that are left when blank rows are popped from the end.
unfoldable pub pop_blank : List (List Cell) → List (List Cell)
pop_blank [] = []
pop_blank (row ∷ rows) = before_rest row (pop_blank rows)

unfoldable pub normalise : Unicode → List (List Cell) → List (List Cell)
unfolding pop_blank
normalise unicode rows =
    let cleaned = map (map (blank_to_none unicode)) rows in
    pop_blank (map (pad (width_of cleaned)) cleaned)

abbrev pub cell_count : List (List Cell) → ℕ
cell_count [] = 0
cell_count (row ∷ rows) = length row + cell_count rows

abbrev pub has_width : ℕ → List (List Cell) → Bool
has_width width [] = true
has_width width (row ∷ rows) = length row == width && has_width width rows

-- The tests on the normalised rows.
unfoldable pub check_rows : ℕ → Format → List (List Cell) → Parse ParsedUpload
check_rows max_cells detected_format [] = refused empty_file
check_rows max_cells detected_format (row ∷ rows) =
    if ltb max_cells (cell_count (row ∷ rows))
    then refused (too_many_cells (cell_count (row ∷ rows)) max_cells)
    else if not (has_width (length row) (row ∷ rows))
    then refused ragged
    else parsed (record { rows = row ∷ rows; detected_format = detected_format })

abbrev pub then_check : Unicode → ℕ → Format → Parse (List (List Cell)) → Parse ParsedUpload
then_check unicode max_cells detected_format (parsed rows) =
    check_rows max_cells detected_format (normalise unicode rows)
then_check unicode max_cells detected_format (refused fault) = refused fault
then_check unicode max_cells detected_format csv_error = csv_error
then_check unicode max_cells detected_format read_error = read_error

-- text.endswith(suffix)
abbrev pub ends_with : Text → Text → Bool
ends_with suffix t =
    leb (length suffix) (length t) && list_eq (drop (length t - length suffix) t) suffix

-- Latin-1 takes each byte for a code point, so the second decoder never fails.
abbrev pub decode_csv : Readers → List ℕ → Text
decode_csv readers content = elim (readers.decode_utf8_sig content) [ none ↦ content | some t ↦ t ]

unfoldable pub parse_upload : Readers → ℕ → ℕ → Text → List ℕ → Parse ParsedUpload
parse_upload readers max_bytes max_cells filename content =
    let lower = lower_text readers.unicode filename in
    if ltb max_bytes (length content)
    then refused (too_large (length content) max_bytes)
    else if ends_with (codes ".xls") lower && not (ends_with (codes ".xlsx") lower)
    then refused legacy_xls
    else if ends_with (codes ".xlsx") lower
    then then_check readers.unicode max_cells xlsx
        (rows_of_workbook (readers.load_workbook content))
    else if ends_with (codes ".csv") lower
    then then_check readers.unicode max_cells csv
        (read_rows (readers.csv_rows (decode_csv readers content)))
    else refused unsupported
