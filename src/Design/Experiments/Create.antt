-- ===== src/Design/Experiments/Create.antt =====
-- `create_experiment` of backend/src/app/services/experiment_service.py. `str.title` after the
-- replacement of "_" by " ", and how an f-string writes a value, are parameters.
use factorial.Prelude.{
  ℕ, String, Option, none, some, [], ◌∷◌, ◌++◌, str_eq, ltb, ◌==◌, if◌then◌else◌, length, select,
}
use Prim.Native.String.{◌++◌ as append}
use factorial.Model.{Experiment}
use factorial.Model.Json
use factorial.Model.Json.{Json, Items, Dict, int, str, arr, obj, nil, cons, end, entry}
use factorial.Prelude.Int.{pos}
use factorial.Database.{
  Exec, integrity_error, type_error, pure, raise, gets, modify, raise_if, ◌>>=◌, ◌>>◌,
}

-- d.get(key, default)
abbrev or_default : Option Json → Json → Json
or_default none default = default
or_default (some json) default = json

abbrev pub get_or : String → Json → Dict → Json
get_or key default d = or_default (Json.lookup key d) default

abbrev text_value : Json → Option String
text_value (str s) = some s
text_value _ = none

abbrev characters : String → Items
characters String.[] = nil
characters (String.◌∷◌ c s) = cons (str (String.◌∷◌ c "")) (characters s)

abbrev keys : Dict → Items
keys end = nil
keys (entry k v d) = cons (str k) (keys d)

-- What a `for` over the value meets.
abbrev items_of : Json → Option Items
items_of (arr items) = some items
items_of (obj d) = some (keys d)
items_of (str s) = some (characters s)
items_of _ = none

-- [{"name": fn} for fn in factor_names]
abbrev pub factor_specs : Items → Items
factor_specs nil = nil
factor_specs (cons name names) = cons (obj (entry "name" name end)) (factor_specs names)

-- `id` is the primary key.
unfoldable pub add_experiment : Experiment → Exec (Unit {0})
add_experiment e = do
  rows ← gets (λ db. select (λ x. x.id == e.id) db.experiments)
  raise_if (ltb 0 (length rows)) integrity_error
  modify (λ db. record db { experiments = db.experiments ++ e ∷ [] })

-- How Python writes texts.
pub record Format : Type 0 where
  pub title : String → String
  pub show : Json → String

module _ (format : Format) where
  abbrev pub default_name : String → Dict → String
  default_name design_type d = append (format.title design_type) (
      append " (" (
        append (format.show (get_or "n_factors" (int (pos 0)) d))
          (append " factors, " (append (format.show (get_or "n_runs" (int (pos 0)) d)) " runs)"))))

  -- if not name: the default
  abbrev name_or_default : Option String → String → Dict → String
  name_or_default none design_type d = default_name design_type d
  name_or_default (some name) design_type d =
      if str_eq name "" then default_name design_type d else name

  abbrev pub new_experiment :
      ℕ → ℕ → String → Items → Dict → ℕ → Option ℕ → Option String → Experiment
  new_experiment id now design_type names d user_id conversation_id name = record {
    id = id;
    user_id = user_id;
    name = name_or_default name design_type d;
    status = "draft";
    design_type = some design_type;
    factors = some (arr (factor_specs names));
    design_data = some (obj d);
    results_data = none;
    evaluation_data = none;
    conversation_id = conversation_id;
    created_at = now;
  }

  abbrev create_from :
      ℕ → ℕ → Option String → Option Items → Dict → ℕ → Option ℕ → Option String → Exec Experiment
  create_from id now (some design_type) (some names) d user_id conversation_id name = do
    let e = new_experiment id now design_type names d user_id conversation_id name
    add_experiment e
    pure e
  create_from id now _ _ d user_id conversation_id name = raise type_error

  -- A design type that is no text, or names that cannot be iterated, raise.
  unfoldable pub create_experiment : ℕ → ℕ → Dict → ℕ → Option ℕ → Option String → Exec Experiment
  unfolding add_experiment
  create_experiment id now design_output user_id conversation_id name =
      create_from id now (text_value (get_or "design_type" (str "unknown") design_output))
        (items_of (get_or "factor_names" (arr nil) design_output)) design_output user_id
        conversation_id name
