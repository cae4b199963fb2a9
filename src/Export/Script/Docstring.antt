-- ===== src/Export/Script/Docstring.antt =====
-- What `_sanitise_for_docstring` does to the name of an experiment.
use factorial.Prelude.{
  Text, ℕ, zero, suc, ◌≡◌, refl, ap, inl, inr, Bool, true, false, ◌&&◌, ◌||◌, [], ◌∷◌, arith, ◌==◌,
  ==_iff, Bool-cases, length,
}
use factorial.Export.Script.{replaced_after, sanitise_for_docstring}

-- So many double quotes stand at the start, up to three.
abbrev pub starts : ℕ → Text → Bool
starts zero t = true
starts (suc n) [] = false
starts (suc n) (c ∷ t) = c == b'"' && starts n t

-- Three double quotes stand in a row somewhere.
abbrev pub has_triple : Text → Bool
has_triple [] = false
has_triple (c ∷ t) = starts 3 (c ∷ t) || has_triple t

abbrev IsReplaced : Text → Text → Type 0
IsReplaced before after =
    (has_triple after ≡ false)
    × (length after ≡ length before)
    × (has_triple before ≡ false → after ≡ before)

replaced_after-IsReplaced :
    (t : Text)
    → IsReplaced t (replaced_after t).0
      × IsReplaced (b'"' ∷ t) (replaced_after t).1
      × IsReplaced (b'"' ∷ b'"' ∷ t) (replaced_after t).2
replaced_after-IsReplaced [] =
    ((refl, refl, λ h. refl), (refl, refl, λ h. refl), (refl, refl, λ h. refl))
replaced_after-IsReplaced (c ∷ t) =
    let (zero_before, one_before, two_before) = replaced_after-IsReplaced t in
    elim (Bool-cases (c == b'"')) [
      | inl quote ↦
          let same : c ≡ b'"' = (==_iff c b'"').0 quote in
          rw same (
            one_before,
            two_before,
            (zero_before.0, omega (arith, zero_before.1), λ h. absurd (grind (arith, h))),
          )
      | inr other ↦ rw other (
        (
          ground (arith, other, zero_before.0),
          omega (arith, zero_before.1),
          λ h. ap (λ u. c ∷ u) (zero_before.2 h),
        ),
        (
          ground (arith, other, zero_before.0),
          omega (arith, zero_before.1),
          λ h. ap (λ u. b'"' ∷ c ∷ u) (zero_before.2 h),
        ),
        (
          ground (arith, other, zero_before.0),
          omega (arith, zero_before.1),
          λ h. ap (λ u. b'"' ∷ b'"' ∷ c ∷ u) (zero_before.2 h),
        ),
      )
    ]

-- A name in a docstring has no three double quotes in a row, is as long as it was, and is the name itself if the
-- name has none.
pub sanitise_for_docstring_lem :
    (t : Text)
    → (has_triple (sanitise_for_docstring t) ≡ false)
      × (length (sanitise_for_docstring t) ≡ length t)
      × (has_triple t ≡ false → sanitise_for_docstring t ≡ t)
unfolding sanitise_for_docstring
sanitise_for_docstring_lem t = (replaced_after-IsReplaced t).0
