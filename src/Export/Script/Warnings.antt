-- ===== src/Export/Script/Warnings.antt =====
-- When a bundle has no warning.
use factorial.Prelude.{
  Text, ◌≡◌, refl, ◌↔◌, Bool, true, false, List, [], ◌∷◌, ◌++◌, arith, if◌then◌else◌, All,
}
use factorial.Chat.Rows.{ToolCallRow}
use factorial.Export.Script.{Python}
use factorial.Export.Notebook.{lacks_seed, seed_warning, truncation_warning, collect_warnings}

-- The design of the call has a seed, and its output is whole.
abbrev pub IsRepeatable : Python → (ToolCallRow → Bool) → ToolCallRow → Type 0
IsRepeatable python output_truncated call =
    (lacks_seed python call ≡ false) × (output_truncated call ≡ false)

abbrev optional : Bool → Text → List Text
optional b line = if b then line ∷ [] else []

no_line :
    (a b : Bool) (x y : Text) (rest : List Text)
    → (((optional a x ++ optional b y) ++ rest) ≡ []) ↔ (((a ≡ false) × (b ≡ false)) × (rest ≡ []))
no_line true b x y rest = ((λ h. absurd (grind (arith, h))), (λ h. absurd (grind (arith, h.0.0))))
no_line false true x y rest =
    ((λ h. absurd (grind (arith, h))), (λ h. absurd (grind (arith, h.0.1))))
no_line false false x y rest = ((λ h. ((refl, refl), h)), (λ h. h.1))

-- A bundle has no warning exactly if every recorded design has a seed and no output was cut.
pub collect_warnings_iff :
    (python : Python) (output_truncated : ToolCallRow → Bool) (calls : List ToolCallRow)
    → (collect_warnings python output_truncated calls ≡ [])
      ↔ All (IsRepeatable python output_truncated) calls
unfolding collect_warnings
collect_warnings_iff python output_truncated [] = ((λ h. tt), (λ h. refl))
collect_warnings_iff python output_truncated (call ∷ calls) =
    let here =
      no_line (lacks_seed python call) (output_truncated call) (seed_warning python call)
        (truncation_warning python call) (collect_warnings python output_truncated calls) in
    let rest = collect_warnings_iff python output_truncated calls in
    ((λ h. ((here.0 h).0, rest.0 (here.0 h).1)), (λ h. here.1 (h.0, rest.1 h.1)))
