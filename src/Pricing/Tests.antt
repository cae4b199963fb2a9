-- ===== src/Pricing/Tests.antt =====
-- The prices at small inputs.
use factorial.Prelude.{Text, codes, ◌≡◌, refl, ◌⊎◌, true, [], length}
use factorial.Pricing.{model_rates, starts_with, best_prefix, lookup_rates, rates_of}
use factorial.Pricing.LongestPrefix.{IsKey, IsBound, best_prefix_lem}

abbrev model : Text
model = codes "claude-sonnet-4-5-20250929"

rates_found : (lookup_rates model ≡ (3, 15)) × (lookup_rates (codes "gpt-4") ≡ (0, 0))
unfolding lookup_rates best_prefix rates_of
rates_found = (refl, refl)

best_prefix_example :
    let best = best_prefix model [] model_rates in
    ((best ≡ []) × IsBound model 0 model_rates)
    ⊎ ((starts_with best model ≡ true)
        × IsKey best model_rates
        × IsBound model (length best) model_rates)
best_prefix_example = best_prefix_lem model model_rates
