-- ===== src/Pricing.antt =====
-- backend/src/app/services/pricing.py. Costs are `Decimal`s, exact within 28 digits: they are whole
-- numbers here, of the units that the fields name, and the model's id is a list of code points.
pub mod LongestPrefix
mod Tests
use factorial.Prelude.{
  Text, codes, ℕ, ◌+◌, ◌*◌, Bool, true, false, ◌&&◌, List, [], ◌∷◌, ltb, ◌==◌, if◌then◌else◌,
  list_eq, length,
}

-- Rates in USD for a million tokens, of the input and of the output.
abbrev pub Rates : Type 0
Rates = ℕ × ℕ

abbrev pub model_rates : List (Text × Rates)
model_rates =
    (codes "claude-opus-4", (15, 75))
    ∷ (codes "claude-sonnet-4", (3, 15))
    ∷ (codes "claude-haiku-4", (1, 5))
    ∷ []

-- CURRENT_MARKUP_RATE, in hundredths
abbrev pub current_markup_rate : ℕ
current_markup_rate = 50

abbrev pub starts_with : Text → Text → Bool
starts_with prefix [] = elim prefix [ [] ↦ true | c ∷ rest ↦ false ]
starts_with [] (d ∷ text) = true
starts_with (c ∷ prefix) (d ∷ text) = (c == d) && starts_with prefix text

-- The loop of `lookup_rates`, with the best prefix so far.
unfoldable pub best_prefix : Text → Text → List (Text × Rates) → Text
best_prefix model best [] = best
best_prefix model best ((prefix, rates) ∷ table) =
    best_prefix model
      (if starts_with prefix model && ltb (length best) (length prefix) then prefix else best) table

-- MODEL_RATES[key], of a key that is there
unfoldable pub rates_of : Text → List (Text × Rates) → Rates
rates_of key [] = (0, 0)
rates_of key ((prefix, rates) ∷ table) = if list_eq prefix key then rates else rates_of key table

abbrev is_empty_text : Text → Bool
is_empty_text [] = true
is_empty_text (c ∷ text) = false

unfoldable pub lookup_rates : Text → Rates
unfolding best_prefix rates_of
lookup_rates model =
    let best = best_prefix model [] model_rates in
    if is_empty_text best then (0, 0) else rates_of best model_rates

pub record Cost : Type 0 where
  pub input_rate_usd_per_mtok : ℕ
  pub output_rate_usd_per_mtok : ℕ
  pub input_cost_micro_usd : ℕ
  pub output_cost_micro_usd : ℕ
  pub raw_cost_micro_usd : ℕ
  pub markup_rate_hundredths : ℕ
  -- in hundredths of a micro USD
  pub markup_cost : ℕ
  pub billable_to_user : ℕ

-- The quotient by _MTOK turns a product of tokens and USD into micro USD.
unfoldable pub calculate_cost : Text → ℕ → ℕ → Cost
calculate_cost model input_tokens output_tokens =
    let (input_rate, output_rate) = lookup_rates model in
    let input_cost = input_tokens * input_rate in
    let output_cost = output_tokens * output_rate in
    let raw = input_cost + output_cost in
    let markup_cost = raw * (100 + current_markup_rate) in
    record {
      input_rate_usd_per_mtok = input_rate;
      output_rate_usd_per_mtok = output_rate;
      input_cost_micro_usd = input_cost;
      output_cost_micro_usd = output_cost;
      raw_cost_micro_usd = raw;
      markup_rate_hundredths = current_markup_rate;
      markup_cost = markup_cost;
      billable_to_user = markup_cost;
    }
