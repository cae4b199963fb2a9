-- ===== src/Chat/Events/Shown.antt =====
-- What a client shows of the events, and of the rows after a sequence.
use factorial.Prelude.{
  Text, codes, ℕ, ◌+◌, ◌≤◌, ◌<◌, String, ◌≡◌, refl, sym, ap, ◌∙◌, Bool, true, none, some, List, [],
  ◌∷◌, ◌++◌, map, arith, ltb, leb, lt→ltb, select, All, All-imp, All-append, select-append,
}
use Prim.Native.Char.{code}
use Prim.Native.String.{◌++◌ as append}
use text.Mathlib.TextLemmas.{nil-append, cons-append}
use mathlib.Core.List.{append_assoc, append-nil, map-append}
use factorial.Chat.Events.{ChatEvent, EventRow, join, text_of_token}

-- What a client shows: the characters of the texts, and the other events.
pub data Shown : Type 0 where
  char : ℕ → Shown
  other : ChatEvent → Shown

abbrev pub shown_text : Text → List Shown
shown_text text = map char text

abbrev pub shown_event : ChatEvent → List Shown
shown_event e = elim (text_of_token e) [ none ↦ other e ∷ [] | some text ↦ shown_text (codes text) ]

abbrev pub shown : List EventRow → List Shown
shown [] = []
shown (row ∷ rows) = shown_event row.event ++ shown rows

-- The rows after a sequence.
abbrev pub after : ℕ → List EventRow → List EventRow
after k rows = select (λ r. ltb k r.sequence) rows

abbrev pub codes_of : List String → Text
codes_of [] = []
codes_of (part ∷ parts) = codes part ++ codes_of parts

shown-append : (xs ys : List EventRow) → shown (xs ++ ys) ≡ shown xs ++ shown ys
shown-append [] ys = refl
shown-append (x ∷ xs) ys =
    rw (shown-append xs ys) (sym (append_assoc (shown_event x.event) (shown xs) (shown ys)))

codes-append : (a b : String) → codes (append a b) ≡ codes a ++ codes b
codes-append String.[] b = ap codes (nil-append b)
codes-append (String.◌∷◌ c s) b =
    ap codes (cons-append c s b) ∙ ap (λ x. code c ∷ x) (codes-append s b)

pub codes-join : (parts : List String) → codes (join parts) ≡ codes_of parts
codes-join [] = refl
codes-join (part ∷ parts) =
    codes-append part (join parts) ∙ ap (λ x. codes part ++ x) (codes-join parts)

codes_of-append : (xs ys : List String) → codes_of (xs ++ ys) ≡ codes_of xs ++ codes_of ys
codes_of-append [] ys = refl
codes_of-append (x ∷ xs) ys =
    rw (codes_of-append xs ys) (sym (append_assoc (codes x) (codes_of xs) (codes_of ys)))

unfoldable pub IsBelow : ℕ → List EventRow → Type 0
IsBelow n rows = All (λ r. leb r.sequence n ≡ true) rows

pub IsBelow-grows : (n : ℕ) (rows : List EventRow) → IsBelow n rows → IsBelow (n + 1) rows
unfolding IsBelow
IsBelow-grows n rows h = All-imp rows (λ r le. ground arith) h

pub IsBelow-add :
    (n : ℕ) (rows : List EventRow) (e : ChatEvent)
    → IsBelow n rows
    → IsBelow (n + 1) (rows ++ record { sequence = n + 1; event = e } ∷ [])
unfolding IsBelow
IsBelow-add n rows e h =
    All-append (λ r. leb r.sequence (n + 1) ≡ true) rows _ (IsBelow-grows n rows h)
      (ground arith, tt)

pub after_none : (k n : ℕ) (rows : List EventRow) → n ≤ k → IsBelow n rows → after k rows ≡ []
unfolding IsBelow
after_none k n [] le h = refl
after_none k n (r ∷ rows) le h = rw (after_none k n rows le h.1) (ground (arith, h.0))

-- A row with a later sequence is kept.
pub after-add :
    (k : ℕ) (rows : List EventRow) (r : EventRow)
    → k < r.sequence
    → after k (rows ++ r ∷ []) ≡ after k rows ++ r ∷ []
after-add k rows r h =
    select-append (λ x. ltb k x.sequence) rows (r ∷ []) ∙ rw (lt→ltb k r.sequence h) refl

abbrev pub by_sequence : EventRow → EventRow → Bool
by_sequence a b = leb a.sequence b.sequence

pub shown-after-add :
    (k : ℕ) (rows : List EventRow) (r : EventRow)
    → k < r.sequence
    → shown (after k (rows ++ r ∷ [])) ≡ shown (after k rows) ++ shown_event r.event
shown-after-add k rows r h =
    ap shown (after-add k rows r h)
    ∙ shown-append (after k rows) (r ∷ [])
    ∙ ap (λ x. shown (after k rows) ++ x) (append-nil (shown_event r.event))

pub shown_codes-add :
    (parts : List String) (t : String)
    → shown_text (codes_of (parts ++ t ∷ [])) ≡ shown_text (codes_of parts) ++ shown_text (codes t)
shown_codes-add parts t =
    ap shown_text
      (codes_of-append parts (t ∷ []) ∙ ap (λ x. codes_of parts ++ x) (append-nil (codes t)))
    ∙ map-append char (codes_of parts) (codes t)

-- Adding to both sides of an equation of three lists.
pub extend : (a b p c d : List Shown) → a ++ b ≡ p ++ c → a ++ (b ++ d) ≡ p ++ (c ++ d)
extend a b p c d h = sym (append_assoc a b d) ∙ ap (λ x. x ++ d) h ∙ append_assoc p c d
