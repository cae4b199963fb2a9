-- ===== src/Export/Script/SameCode.antt =====
-- The script and the notebook of an experiment hold the same code.
use factorial.Prelude.{Text, ℕ, ◌+◌, ◌≡◌, refl, sym, ap, ◌∙◌, ◌≢◌, some, List, [], ◌∷◌, ◌++◌, map}
use factorial.Model.{Experiment}
use factorial.Chat.Rows.{ToolCallRow}
use factorial.Export.Script.{
  Python, input_line, call_line, step_comment, step_lines, footer, header_first, header_rest,
  joined_rest, join_lines, render_python_script,
}
use factorial.Export.Notebook.{
  StepBlock, CellOfNotebook, markdown_cell, code_cell, blocks_from, step_blocks, step_cells,
  import_line, header_cell, footer_cell, render_notebook,
}

-- The code cells of a notebook.
abbrev pub code_cells : List CellOfNotebook → List Text
code_cells [] = []
code_cells (markdown_cell t ∷ cells) = code_cells cells
code_cells (code_cell t ∷ cells) = t ∷ code_cells cells

-- The comments of the calls, each before the code of its block and an empty line.
abbrev pub commented : Python → ℕ → List ToolCallRow → List StepBlock → List Text
commented python i [] blocks = []
commented python i (call ∷ calls) [] = []
commented python i (call ∷ calls) (block ∷ blocks) =
    step_comment python i call ∷ block.code ∷ [] ∷ commented python (i + 1) calls blocks

append_assoc : {A : Type 0} (a b c : List A) → (a ++ b) ++ c ≡ a ++ (b ++ c)
append_assoc [] b c = refl
append_assoc (x ∷ a) b c = ap (λ u. x ∷ u) (append_assoc a b c)

joined_rest-append : (a b : List Text) → joined_rest (a ++ b) ≡ joined_rest a ++ joined_rest b
joined_rest-append [] b = refl
joined_rest-append (line ∷ a) b =
    ap (λ u. 10 ∷ (line ++ u)) (joined_rest-append a b)
    ∙ ap (λ u. 10 ∷ u) (sym (append_assoc line (joined_rest a) (joined_rest b)))

-- Two lines are one text with a newline in it.
two_as_one :
    (comment a b rest rest' : Text)
    → rest ≡ rest'
    → (10 ∷ comment) ++ ((10 ∷ a) ++ ((10 ∷ b) ++ ((10 ∷ []) ++ rest)))
      ≡ (10 ∷ comment) ++ ((10 ∷ (a ++ (10 ∷ b))) ++ ((10 ∷ []) ++ rest'))
two_as_one comment a b rest rest' same =
    ap (λ u. (10 ∷ comment) ++ (10 ∷ u))
      (sym (append_assoc a (10 ∷ b) ((10 ∷ []) ++ rest))
        ∙ ap (λ u. (a ++ (10 ∷ b)) ++ (10 ∷ u)) same)

module _ (python : Python) where
  joined_steps :
      (i : ℕ) (calls : List ToolCallRow)
      → joined_rest (step_lines python i calls)
        ≡ joined_rest (commented python i calls (blocks_from python i calls))
  joined_steps i [] = refl
  joined_steps i (call ∷ calls) =
      two_as_one (step_comment python i call) (input_line python i call) (call_line python i call)
        (joined_rest (step_lines python (i + 1) calls))
        (joined_rest (commented python (i + 1) calls (blocks_from python (i + 1) calls)))
        (joined_steps (i + 1) calls)

  code_cells-step_cells :
      (blocks : List StepBlock) (t : Text)
      → code_cells (step_cells python blocks ++ markdown_cell t ∷ []) ≡ map (λ b. b.code) blocks
  code_cells-step_cells [] t = refl
  code_cells-step_cells (block ∷ blocks) t =
      ap (λ u. block.code ∷ u) (code_cells-step_cells blocks t)

  -- With a call to run, the script is its header, then for each call a comment, the code of its block and an empty
  -- line, then its footer; and the code cells of the notebook are the import and the code of the same blocks.
  pub same_code :
      (experiment : Experiment) (calls : List ToolCallRow) (version generated_at : Text)
      → calls ≢ []
      → (cells : List CellOfNotebook) × (render_notebook python experiment calls version
            generated_at
          ≡ some cells)
        × (code_cells cells ≡ import_line python ∷ map (λ b. b.code) (step_blocks python calls))
        × (render_python_script python experiment calls version generated_at
            ≡ some (
                join_lines (
                  header_first python experiment
                  ∷ (header_rest python experiment version generated_at
                      ++ (commented python 1 calls (step_blocks python calls)
                          ++ footer python calls)))))
  unfolding render_notebook render_python_script
  same_code experiment [] version generated_at h = absurd (h refl)
  same_code experiment (call ∷ calls) version generated_at h =
      let blocks = step_blocks python (call ∷ calls) in
      let header = header_rest python experiment version generated_at in
      let steps = step_lines python 1 (call ∷ calls) in
      let said = commented python 1 (call ∷ calls) blocks in
      let end_lines = footer python (call ∷ calls) in
      let same_steps : joined_rest (steps ++ end_lines) ≡ joined_rest (said ++ end_lines) =
        joined_rest-append steps end_lines
        ∙ ap (λ u. u ++ joined_rest end_lines) (joined_steps 1 (call ∷ calls))
        ∙ sym (joined_rest-append said end_lines) in
      let same_rest : joined_rest (header ++ (steps ++ end_lines))
          ≡ joined_rest (header ++ (said ++ end_lines)) =
        joined_rest-append header (steps ++ end_lines)
        ∙ ap (λ u. joined_rest header ++ u) same_steps
        ∙ sym (joined_rest-append header (said ++ end_lines)) in
      (
        (markdown_cell (header_cell python experiment version generated_at)
              ∷ code_cell (import_line python)
              ∷ step_cells python blocks)
            ++ markdown_cell (footer_cell python (call ∷ calls)) ∷ [],
        refl,
        ap (λ u. import_line python ∷ u)
            (code_cells-step_cells blocks (footer_cell python (call ∷ calls))),
        ap (λ u. some (header_first python experiment ++ u)) same_rest,
      )
