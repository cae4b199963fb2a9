-- ===== src/Export/Public/Guard.antt =====
-- What an anonymous visitor of a link gets.
use factorial.Prelude.{
  Text, codes, ℕ, String, ◌≡◌, refl, sym, ap, ◌∙◌, inl, inr, Bool, false, not, ◌&&◌, Option, none,
  some, List, ◌++◌, arith, Bool-cases,
}
use factorial.Model.Json.{Dict}
use factorial.Model.{Experiment, ExperimentShare}
use factorial.Database.{Database, Result, ok, err, pure, raise}
use factorial.Access.{Answer, granted, rejected, crashed}
use factorial.Design.Shares.{resolve_public_share}
use factorial.Export.Public.{
  ExportFormat, pdf, xlsx, csv, md, py, ipynb, md_code, zip, is_reproducible, is_data, Built, bytes,
  failed, Builders, File, file_of, build_export_bytes, export_shared, export_public_experiment,
  after_request, request, media_type, extension, slugify,
}

-- Without results, a document does not depend on the stored results, as `report_context` does not.
abbrev pub IsBlind : Builders → Type 0
IsBlind builders =
    ((e : Experiment) (results : Option (List Dict)) (share_url : Option Text)
      → builders.build_markdown (record e { results_data = results }) false share_url
        ≡ builders.build_markdown e false share_url)
    × ((e : Experiment) (results : Option (List Dict)) (share_url : Option Text)
        → builders.build_pdf (record e { results_data = results }) false share_url
          ≡ builders.build_pdf e false share_url)

module _ (builders : Builders) (share_url : Text) where
  -- What the builder of a format makes for a visitor; there is none for code.
  abbrev pub made : ExportFormat → Experiment → Bool → Built
  made csv e include_results = builders.build_csv e include_results
  made xlsx e include_results = builders.build_xlsx e include_results
  made md e include_results = builders.build_markdown e include_results (some share_url)
  made pdf e include_results = builders.build_pdf e include_results (some share_url)
  made _ e include_results = failed 404 "no code for visitors"

  built_is_made :
      (format : ExportFormat) (e : Experiment) (include_results : Bool)
      → is_reproducible format ≡ false
      → made format e include_results
        ≡ build_export_bytes builders e format include_results (some share_url) none
  built_is_made csv e include_results static = refl
  built_is_made xlsx e include_results static = refl
  built_is_made md e include_results static = refl
  built_is_made pdf e include_results static = refl
  built_is_made py e include_results static = cc
  built_is_made ipynb e include_results static = cc
  built_is_made md_code e include_results static = cc
  built_is_made zip e include_results static = cc

  made_blind :
      (format : ExportFormat) (e : Experiment) (results : Option (List Dict))
      → IsBlind builders
      → is_data format ≡ false
      → made format (record e { results_data = results }) false ≡ made format e false
  made_blind csv e results blind document = cc
  made_blind xlsx e results blind document = cc
  made_blind md e results blind document = blind.0 e results (some share_url)
  made_blind pdf e results blind document = blind.1 e results (some share_url)
  made_blind _ e results blind document = refl

  -- The file holds what the builder of the format made, never code. Where the owner does not allow results, it is no data
  -- file, and is the same whatever results are stored with the experiment.
  pub record IsShared (format : ExportFormat) (share : ExperimentShare) (e : Experiment)
      (file : File) : Type 0 where
    pub no_code : is_reproducible format ≡ false
    pub no_data : share.allow_results ≡ false → is_data format ≡ false
    pub built : made format e share.allow_results ≡ bytes file.content
    pub no_results :
        share.allow_results ≡ false
        → (results : Option (List Dict))
        → made format (record e { results_data = results }) false ≡ bytes file.content
    pub typed : file.media_type ≡ media_type format
    pub named : file.filename ≡ slugify (codes e.name) ++ (codes "." ++ codes (extension format))

module _ (builders : Builders) (share_url : Text) (format : ExportFormat)
    (blind : IsBlind builders) where
  abbrev IsFor : ExperimentShare → Experiment → Answer File → Type 0
  IsFor share e (granted file) = IsShared builders share_url format share e file
  IsFor share e _ = Unit

  file_of-IsFor :
      (share : ExperimentShare) (e : Experiment) (built : Built)
      → is_reproducible format ≡ false
      → (not share.allow_results && is_data format) ≡ false
      → build_export_bytes builders e format share.allow_results (some share_url) none ≡ built
      → IsFor share e (file_of builders e format built)
  file_of-IsFor share e (failed status detail) static shown made_eq = tt
  file_of-IsFor share e (bytes content) static shown made_eq =
      let no_data_file : share.allow_results ≡ false → is_data format ≡ false =
        λ hidden. ground (arith, shown, hidden) in
      record {
        no_code = static;
        no_data = λ hidden. no_data_file hidden;
        built = built_is_made builders share_url format e share.allow_results static ∙ made_eq;
        no_results = λ hidden results.
            made_blind builders share_url format e results blind (no_data_file hidden)
            ∙ ap (made builders share_url format e) (sym hidden)
            ∙ built_is_made builders share_url format e share.allow_results static
            ∙ made_eq;
        typed = refl;
        named = refl;
      }

  export_shared-IsFor :
      (share : ExperimentShare) (e : Experiment)
      → IsFor share e (export_shared builders share_url format (some (share, e)))
  export_shared-IsFor share e = elim (Bool-cases (is_reproducible format)) [
    | inl code ↦ rw code tt
    | inr static ↦ elim (Bool-cases (not share.allow_results && is_data format)) [
      | inl hidden ↦ rw (static, hidden) tt
      | inr shown ↦
          rw (static, shown)
            (file_of-IsFor share e
              (build_export_bytes builders e format share.allow_results (some share_url) none)
              static shown refl)
    ]
  ]

  module _ (now : ℕ) (token : String) (db : Database) where
    -- A file is of the link that the token opens, with the visit counted; anything else writes nothing.
    abbrev pub IsServed : Result (Answer File) × Database → Type 0
    IsServed (ok (granted file), db') =
        (share : ExperimentShare) × (e : Experiment) × (resolve_public_share now token db
          ≡ (ok (some (share, e)), db'))
        × IsShared builders share_url format share e file
    IsServed (ok (rejected status detail), db') = db' ≡ db
    IsServed (ok crashed, db') = db' ≡ db
    IsServed (err e, db') = db' ≡ db

    with_file :
        (share : ExperimentShare) (e : Experiment) (db' : Database) (answer : Answer File)
        → resolve_public_share now token db ≡ (ok (some (share, e)), db')
        → IsFor share e answer
        → IsServed (after_request db (ok answer, db'))
    with_file share e db' (granted file) found safe = (share, e, found, safe)
    with_file share e db' (rejected status detail) found safe = refl
    with_file share e db' crashed found safe = refl

    after_resolve :
        (out : Result (Option (ExperimentShare × Experiment)) × Database)
        → resolve_public_share now token db ≡ out
        → IsServed (
            after_request db (elim out.0 [
              | ok found ↦ pure (export_shared builders share_url format found) out.1
              | err e ↦ raise e out.1
            ]))
    after_resolve (err e, db') h = refl
    after_resolve (ok none, db') h = refl
    after_resolve (ok (some (share, e)), db') h =
        with_file share e db' (export_shared builders share_url format (some (share, e))) h
          (export_shared-IsFor share e)

    -- If the documents without results do not depend on the stored results: an export by a public link gives only what
    -- the builder of its format made for the experiment of the link, never code; and where the owner does not allow
    -- results, it is no data file, and the same whatever `results_data` is stored. The visit is counted with a file, and
    -- a refusal writes nothing.
    pub export_public_experiment-IsServed :
        IsServed (request (export_public_experiment builders now share_url token format) db)
    unfolding export_public_experiment
    export_public_experiment-IsServed = after_resolve (resolve_public_share now token db) refl
