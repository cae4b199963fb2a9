-- ===== src/Chat/Persist/Ordered.antt =====
-- The order in which the next turn reads the messages of a conversation.
use factorial.Prelude.{
  ℕ, ◌+◌, ◌≤◌, ◌<◌, ◌≡◌, refl, ap, ◌∙◌, inl, inr, Bool, true, false, List, [], ◌∷◌, ◌++◌, arith,
  leb, leb→le, ◌==◌, ==_iff, Bool-cases, select, select-append, if◌then◌else◌, All, All-imp,
}
use factorial.Prelude.Sorting.{
  insert_by, sort_by, IsSorted, sort_by-IsSorted, insert_first, sort_by_id,
}
use mathlib.Core.Path.{subst}
use factorial.Chat.Rows.{MessageRow, Store}
use factorial.Chat.Turn.{rows_in, next_sequence}
use factorial.Chat.Persist.Sequence.{Numbered}

abbrev by_number : MessageRow → MessageRow → Bool
by_number a b = leb a.sequence b.sequence

From : ℕ → List MessageRow → Type 0
From n rows = All (λ m. n ≤ m.sequence) rows

Numbered-From : (id n : ℕ) (rows : List MessageRow) → Numbered id n rows → From n rows
unfolding From
Numbered-From id n [] h = tt
Numbered-From id n (m ∷ rows) h = (
  omega (arith, h.1),
  All-imp rows (λ x le. omega (arith, le)) (Numbered-From id (n + 1) rows h.2),
)

From-after :
    (m : MessageRow) (n : ℕ) (rows : List MessageRow)
    → m.sequence ≤ n
    → From n rows
    → All (λ x. by_number m x ≡ true) rows
unfolding From
From-after m n rows le h = All-imp rows (λ x more. ground (arith, le, more)) h

Numbered-IsSorted :
    (id n : ℕ) (rows : List MessageRow) → Numbered id n rows → IsSorted by_number rows
Numbered-IsSorted id n [] h = tt
Numbered-IsSorted id n (m ∷ rows) h = (
  From-after m (n + 1) rows (omega (arith, h.1)) (Numbered-From id (n + 1) rows h.2),
  Numbered-IsSorted id (n + 1) rows h.2,
)

insert-append :
    (x : MessageRow) (zs ys : List MessageRow)
    → All (λ y. by_number x y ≡ true) ys
    → insert_by by_number x (zs ++ ys) ≡ insert_by by_number x zs ++ ys
unfolding insert_by
insert-append x [] ys h = insert_first by_number x ys h
insert-append x (z ∷ zs) ys h = elim (Bool-cases (by_number x z)) [
  | inl first ↦ rw first refl
  | inr later ↦ rw later (ap (λ rest. z ∷ rest) (insert-append x zs ys h))
]

sort-append :
    (xs ys : List MessageRow)
    → IsSorted by_number ys
    → All (λ x. All (λ y. by_number x y ≡ true) ys) xs
    → sort_by by_number (xs ++ ys) ≡ sort_by by_number xs ++ ys
unfolding sort_by
sort-append [] ys sorted h = sort_by_id by_number ys sorted
sort-append (x ∷ xs) ys sorted h =
    ap (insert_by by_number x) (sort-append xs ys sorted h.1)
    ∙ insert-append x (sort_by by_number xs) ys h.0

below_next :
    (rows : List MessageRow)
    → IsSorted by_number rows
    → All (λ m. m.sequence < next_sequence rows) rows
below_next [] h = tt
below_next (m ∷ []) h = (omega arith, tt)
below_next (m ∷ n ∷ rows) h =
    let rest = below_next (n ∷ rows) h.1 in
    (omega (arith, leb→le m.sequence n.sequence h.0.0, rest.0), rest)

inserted :
    (P : MessageRow → Type 0) (x : MessageRow) (xs : List MessageRow)
    → All P (insert_by by_number x xs)
    → All P (x ∷ xs)
unfolding insert_by
inserted P x [] h = h
inserted P x (y ∷ ys) h = elim (Bool-cases (by_number x y)) [
  | inl first ↦ subst (λ b. All P (if b then x ∷ y ∷ ys else y ∷ insert_by by_number x ys)) first h
  | inr later ↦
      let h' =
        subst (λ b. All P (if b then x ∷ y ∷ ys else y ∷ insert_by by_number x ys)) later h in
      let rest = inserted P x ys h'.1 in (rest.0, (h'.0, rest.1))
]

sorted-All :
    (P : MessageRow → Type 0) (xs : List MessageRow) → All P (sort_by by_number xs) → All P xs
unfolding sort_by
sorted-All P [] h = tt
sorted-All P (x ∷ xs) h =
    let parts = inserted P x (sort_by by_number xs) h in (parts.0, sorted-All P xs parts.1)

select-own :
    (id n : ℕ) (rows : List MessageRow)
    → Numbered id n rows
    → select (λ m. m.conversation_id == id) rows ≡ rows
select-own id n [] h = refl
select-own id n (m ∷ rows) h =
    let own : (m.conversation_id == id) ≡ true = (==_iff m.conversation_id id).1 h.0 in
    rw own (ap (λ rest. m ∷ rest) (select-own id (n + 1) rows h.2))

-- Rows that continue the numbers of a conversation are read after all that it had, in their order.
pub rows_in-append :
    (id : ℕ) (store : Store) (rows : List MessageRow)
    → Numbered id (next_sequence (rows_in id store)) rows
    → rows_in id (record store { messages = store.messages ++ rows }) ≡ rows_in id store ++ rows
rows_in-append id store rows h =
    let own = λ (m : MessageRow). m.conversation_id == id in
    let old = select own store.messages in
    let n = next_sequence (rows_in id store) in
    let below =
      sorted-All (λ m. m.sequence < n) old
        (below_next (rows_in id store) (sort_by-IsSorted by_number leb_total leb_trans old)) in
    ap (sort_by by_number)
      (select-append own store.messages rows ∙ ap (λ r. old ++ r) (select-own id n rows h))
    ∙ sort-append old rows (Numbered-IsSorted id n rows h) (
        All-imp old
          (λ m less. From-after m n rows (omega (arith, less)) (Numbered-From id n rows h)) below)
  where
    leb_total : (a b : MessageRow) → by_number a b ≡ false → by_number b a ≡ true
    leb_total a b h = ground (arith, h)

    leb_trans :
        (a b c : MessageRow) → by_number a b ≡ true → by_number b c ≡ true → by_number a c ≡ true
    leb_trans a b c h k = ground (arith, h, k)
