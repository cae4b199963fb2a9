-- ===== src/Pricing/LongestPrefix.antt =====
-- The rates of a model are those of the longest prefix in the table.
use factorial.Prelude.{
  Text, ℕ, ◌+◌, ◌*◌, ◌≤◌, ◌≡◌, refl, ◌∙◌, ◌⊎◌, inl, inr, true, ◌&&◌, List, [], ◌∷◌, arith, ltb,
  if◌then◌else◌, length, All,
}
use factorial.Pricing.{Rates, starts_with, best_prefix, lookup_rates, calculate_cost}

-- `prefix` is a key of the table.
abbrev pub IsKey : Text → List (Text × Rates) → Type 0
IsKey key [] = ⊥
IsKey key ((prefix, rates) ∷ table) = (key ≡ prefix) ⊎ IsKey key table

abbrev pub IsBound : Text → ℕ → List (Text × Rates) → Type 0
IsBound model bound table = All (λ e. starts_with e.0 model ≡ true → length e.0 ≤ bound) table

module _ (model : Text) where
  best-grows :
      (best : Text) (table : List (Text × Rates))
      → length best ≤ length (best_prefix model best table)
  unfolding best_prefix
  best-grows best [] = omega arith
  best-grows best ((prefix, rates) ∷ table) =
      ground (arith, best-grows best table, best-grows prefix table)

  best-IsBound :
      (best : Text) (table : List (Text × Rates))
      → IsBound model (length (best_prefix model best table)) table
  unfolding best_prefix
  best-IsBound best [] = tt
  best-IsBound best ((prefix, rates) ∷ table) =
      let next =
        if starts_with prefix model && ltb (length best) (length prefix) then prefix else best in
      (
        λ fits. ground (arith, best-grows best table, best-grows prefix table),
        best-IsBound next table,
      )

  -- The best prefix r, after a step to `next`.
  IsKey-step :
      (best prefix next r : Text) (rates : Rates) (table : List (Text × Rates))
      → (next ≡ best) ⊎ ((next ≡ prefix) × (starts_with prefix model ≡ true))
      → (r ≡ next) ⊎ (starts_with r model ≡ true) × IsKey r table
      → (r ≡ best) ⊎ (starts_with r model ≡ true) × IsKey r ((prefix, rates) ∷ table)
  IsKey-step best prefix next r rates table from (inr (fits, key)) = inr (fits, inr key)
  IsKey-step best prefix next r rates table (inl same) (inl e) = inl (e ∙ same)
  IsKey-step best prefix next r rates table (inr (same, fits)) (inl e) =
      inr (rw (e ∙ same) fits, inl (e ∙ same))

  best-IsKey :
      (best : Text) (table : List (Text × Rates))
      → (best_prefix model best table ≡ best)
        ⊎ (starts_with (best_prefix model best table) model ≡ true)
          × IsKey (best_prefix model best table) table
  unfolding best_prefix
  best-IsKey best [] = inl refl
  best-IsKey best ((prefix, rates) ∷ table) =
      let next =
        if starts_with prefix model && ltb (length best) (length prefix) then prefix else best in
      IsKey-step best prefix next (best_prefix model next table) rates table (ground arith)
        (best-IsKey next table)

  by-IsKey :
      (table : List (Text × Rates))
      → (best_prefix model [] table ≡ [])
        ⊎ (starts_with (best_prefix model [] table) model ≡ true)
          × IsKey (best_prefix model [] table) table
      → IsBound model (length (best_prefix model [] table)) table
      → ((best_prefix model [] table ≡ []) × IsBound model 0 table)
        ⊎ ((starts_with (best_prefix model [] table) model ≡ true)
            × IsKey (best_prefix model [] table) table
            × IsBound model (length (best_prefix model [] table)) table)
  by-IsKey table (inl none_fits) bound = inl (none_fits, rw none_fits at bound)
  by-IsKey table (inr (fits, key)) bound = inr (fits, key, bound)

  -- Over any table, either no key but the empty text is a prefix of the model's id, and the search ends with
  -- the empty text; or it ends with a key that is one, and no key that is one is longer.
  pub best_prefix_lem :
      (table : List (Text × Rates))
      → let best = best_prefix model [] table in
        ((best ≡ []) × IsBound model 0 table)
        ⊎ ((starts_with best model ≡ true) × IsKey best table × IsBound model (length best) table)
  best_prefix_lem table = by-IsKey table (best-IsKey [] table) (best-IsBound [] table)

-- A call is billed 1.5 times its raw cost, which is that of the input and of the output at the
-- rates that the model's id finds.
pub calculate_cost_lem :
    (model : Text) (input_tokens output_tokens : ℕ)
    → let cost = calculate_cost model input_tokens output_tokens in
      let rates = lookup_rates model in
      (2 * cost.billable_to_user ≡ 3 * (100 * cost.raw_cost_micro_usd))
      × (cost.raw_cost_micro_usd ≡ input_tokens * rates.0 + output_tokens * rates.1)
unfolding calculate_cost
calculate_cost_lem model input_tokens output_tokens = (omega arith, omega arith)
