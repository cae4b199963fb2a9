-- ===== src/Export/Public.antt =====
-- The export endpoints: `_slugify`, `_build_export_bytes` and `export_experiment` of
-- backend/src/app/api/v1/endpoints/experiments.py, and shares_public.py beside it. The builders of the formats are
-- parameters; the rate limits are left out.
pub mod Guard
pub mod Slug
use factorial.Prelude.{
  Text, codes, ℕ, ◌+◌, String, Bool, true, false, not, ◌&&◌, ◌||◌, Option, none, some, List, [],
  ◌∷◌, ◌++◌, map, leb, ◌==◌, if◌then◌else◌,
}
use factorial.Model.{Experiment, ExperimentShare}
use factorial.Model.Json
use factorial.Model.Json.{Json}
use factorial.Database.{Database, Exec, pure, ok, err, Result, ◌>>=◌}
use factorial.Design.Experiments.{get_experiment}
use factorial.Design.Shares.{resolve_public_share}
use factorial.Access.{Answer, granted, rejected}

-- ExportFormat
pub data ExportFormat : Type 0 where
  pdf xlsx csv md py ipynb md_code zip : ExportFormat

-- EXPORT_EXTENSIONS
abbrev pub extension : ExportFormat → String
extension pdf = "pdf"
extension xlsx = "xlsx"
extension csv = "csv"
extension md = "md"
extension py = "py"
extension ipynb = "ipynb"
extension md_code = "md"
extension zip = "zip"

-- EXPORT_MEDIA_TYPES
abbrev pub media_type : ExportFormat → String
media_type pdf = "application/pdf"
media_type xlsx = "application/vnd.openxmlformats-officedocument.spreadsheetml.sheet"
media_type csv = "text/csv"
media_type md = "text/markdown"
media_type py = "text/x-python"
media_type ipynb = "application/x-ipynb+json"
media_type md_code = "text/markdown"
media_type zip = "application/zip"

-- `_REPRODUCIBLE_FORMATS`, and the equal `_PUBLIC_SHARE_REFUSED_FORMATS`
abbrev pub is_reproducible : ExportFormat → Bool
is_reproducible py = true
is_reproducible ipynb = true
is_reproducible md_code = true
is_reproducible zip = true
is_reproducible _ = false

abbrev pub is_data : ExportFormat → Bool
is_data csv = true
is_data xlsx = true
is_data _ = false

abbrev pub is_pdf : ExportFormat → Bool
is_pdf pdf = true
is_pdf _ = false

abbrev pub is_alphanumeric : ℕ → Bool
is_alphanumeric c =
    (leb b'a' c && leb c b'z') || ((leb b'A' c && leb c b'Z') || (leb b'0' c && leb c b'9'))

abbrev pub lower_letter : ℕ → ℕ
lower_letter c = if leb b'A' c && leb c b'Z' then c + 32 else c

-- re.sub(r"[^a-zA-Z0-9]+", "-", name), and the same where what stands before `name` has been replaced
abbrev pub substituted : Text → Text × Text
substituted [] = ([], [])
substituted (c ∷ name) =
    let rest = substituted name in
    if is_alphanumeric c then (c ∷ rest.0, c ∷ rest.0) else (b'-' ∷ rest.1, rest.1)

-- .lstrip("-")
abbrev pub lstrip_dashes : Text → Text
lstrip_dashes [] = []
lstrip_dashes (c ∷ t) = let rest = lstrip_dashes t in if c == b'-' then rest else c ∷ t

abbrev pub unless_dash : ℕ → Text → Text
unless_dash c [] = if c == b'-' then [] else c ∷ []
unless_dash c (d ∷ t) = c ∷ d ∷ t

-- .rstrip("-")
abbrev pub rstrip_dashes : Text → Text
rstrip_dashes [] = []
rstrip_dashes (c ∷ t) = unless_dash c (rstrip_dashes t)

abbrev pub or_experiment : Text → Text
or_experiment [] = codes "experiment"
or_experiment (c ∷ slug) = c ∷ slug

unfoldable pub slugify : Text → Text
slugify name = or_experiment (map lower_letter (rstrip_dashes (lstrip_dashes (substituted name).0)))

-- What a builder gives: the bytes, or an HTTPException.
pub data Built : Type 0 where
  bytes : List ℕ → Built
  failed : ℕ → String → Built

-- The builders of export_service.py and reproducible_export_service.py; `Rows` is the session that these read.
pub record Builders : Type 1 where
  pub Rows : Type 0
  pub build_csv : Experiment → Bool → Built
  pub build_xlsx : Experiment → Bool → Built
  pub build_markdown : Experiment → Bool → Option Text → Built
  pub build_pdf : Experiment → Bool → Option Text → Built
  pub build_code : ExportFormat → Rows → Experiment → Built

pub record File : Type 0 where
  pub content : List ℕ
  pub media_type : String
  pub filename : Text

module _ (builders : Builders) where
  abbrev pub code_of : ExportFormat → Option builders.Rows → Experiment → Built
  code_of format none e = failed 400 "Reproducible code export is not available on this route"
  code_of format (some rows) e = builders.build_code format rows e

  -- `_build_export_bytes`
  abbrev pub build_export_bytes :
      Experiment → ExportFormat → Bool → Option Text → Option builders.Rows → Built
  build_export_bytes e csv include_results share_url rows = builders.build_csv e include_results
  build_export_bytes e xlsx include_results share_url rows = builders.build_xlsx e include_results
  build_export_bytes e md include_results share_url rows =
      builders.build_markdown e include_results share_url
  build_export_bytes e pdf include_results share_url rows =
      builders.build_pdf e include_results share_url
  build_export_bytes e py include_results share_url rows = code_of py rows e
  build_export_bytes e ipynb include_results share_url rows = code_of ipynb rows e
  build_export_bytes e md_code include_results share_url rows = code_of md_code rows e
  build_export_bytes e zip include_results share_url rows = code_of zip rows e

  abbrev pub file_of : Experiment → ExportFormat → Built → Answer File
  file_of e format (failed status detail) = rejected status detail
  file_of e format (bytes content) = granted (record {
    content = content;
    media_type = media_type format;
    filename = slugify (codes e.name) ++ (codes "." ++ codes (extension format));
  })

  abbrev pub export_found : ExportFormat → Bool → builders.Rows → Option Experiment → Answer File
  export_found format acknowledge_share rows none = rejected 404 "Experiment not found"
  export_found format acknowledge_share rows (some e) =
      if is_pdf format && not acknowledge_share
      then rejected 400
          "PDF exports embed analysis plots as images; call again with acknowledge_share=true to confirm."
      else file_of e format (build_export_bytes e format true none (some rows))

  unfoldable pub export_experiment :
      ℕ → ExportFormat → Bool → builders.Rows → ℕ → Exec (Answer File)
  unfolding slugify
  export_experiment experiment_id format acknowledge_share rows user_id = do
    e ← get_experiment experiment_id user_id
    pure (export_found format acknowledge_share rows e)

  abbrev pub export_shared :
      Text → ExportFormat → Option (ExperimentShare × Experiment) → Answer File
  export_shared share_url format none = rejected 404 "Share not found"
  export_shared share_url format (some (share, e)) =
      if is_reproducible format
      then rejected 403 "Reproducible code export is not available on public share links"
      else if not share.allow_results && is_data format
      then rejected 403 "Results sharing disabled for this link"
      else file_of e format (build_export_bytes e format share.allow_results (some share_url) none)

  unfoldable pub export_public_experiment : ℕ → Text → String → ExportFormat → Exec (Answer File)
  unfolding slugify
  export_public_experiment now share_url token format = do
    resolved ← resolve_public_share now token
    pure (export_shared share_url format resolved)

-- get_db_session for an endpoint that answers by an HTTPException: it rolls back.
abbrev pub after_request :
    {A : Type 0} → Database → Result (Answer A) × Database → Result (Answer A) × Database
after_request db (ok (granted a), db') = (ok (granted a), db')
after_request db (ok answer, db') = (ok answer, db)
after_request db (err e, db') = (err e, db)

abbrev pub request : {A : Type 0} → Exec (Answer A) → Exec (Answer A)
request endpoint db = after_request db (endpoint db)
