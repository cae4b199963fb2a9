-- ===== src/Account/Roles/Slug.antt =====
-- The names under which roles are stored: they go into the prompt of the model as they are.
use factorial.Prelude.{
  Text, ℕ, ◌≤◌, String, ◌≡◌, refl, ap, ◌≢◌, ◌⊎◌, inl, inr, Bool, true, false, ◌&&◌, Option, [], ◌∷◌,
  ◌++◌, map, arith, if◌then◌else◌, Bool-cases, length, All,
}
use mathlib.Core.List.{append-nil}
use factorial.Model.{Role}
use factorial.Database.{Database, ok}
use factorial.Account.Roles.{
  Unicode, is_slug_char, slug_tail, slug_re_match, is_empty_text, validate_slug, lstrip, rstrip,
  lower_text, underscored, normalize_slug, get_role_by_name, add_role, create_role,
}

-- P of the last character, if there is one.
abbrev Last : (ℕ → Type 0) → Text → Type 0
Last P [] = Unit
Last P (c ∷ []) = P c
Last P (c ∷ d ∷ rest) = Last P (d ∷ rest)

-- What Python documents of `str.lower` and `str.strip`: lowering removes no character, and only white
-- space becomes a newline.
pub record UnicodeLaws (unicode : Unicode) : Type 0 where
  pub lower_nonempty : (c : ℕ) → unicode.lower c ≢ []
  pub lower_not_newline : (c : ℕ) → unicode.is_space c ≡ false → All (λ d. d ≢ 10) (unicode.lower c)

and_left : (a b : Bool) → (a && b) ≡ true → a ≡ true
and_left a b h = ground arith

and_right : (a b : Bool) → (a && b) ≡ true → b ≡ true
and_right a b h = ground arith

-- Where the text does not end in a newline the early end of `$` is none.
tail_step :
    (c : ℕ) (t : Text)
    → Last (λ d. d ≢ 10) (c ∷ t)
    → slug_tail (c ∷ t) ≡ true
    → (is_slug_char c && slug_tail t) ≡ true
tail_step c [] last h = ground arith
tail_step c (d ∷ t) last h = h

slug_tail-All :
    (t : Text) → slug_tail t ≡ true → Last (λ c. c ≢ 10) t → All (λ c. is_slug_char c ≡ true) t
slug_tail-All [] h last = tt
slug_tail-All (c ∷ []) h last = (and_left (is_slug_char c) true (tail_step c [] last h), tt)
slug_tail-All (c ∷ d ∷ rest) h last =
    let step = tail_step c (d ∷ rest) last h in
    (
      and_left (is_slug_char c) (slug_tail (d ∷ rest)) step,
      slug_tail-All (d ∷ rest) (and_right (is_slug_char c) (slug_tail (d ∷ rest)) step) last,
    )

match-All :
    (t : Text) → slug_re_match t ≡ true → Last (λ c. c ≢ 10) t → All (λ c. is_slug_char c ≡ true) t
unfolding slug_re_match
match-All [] h last = tt
match-All (c ∷ []) h last = (and_left (is_slug_char c) true h, tt)
match-All (c ∷ d ∷ rest) h last = (
  and_left (is_slug_char c) (slug_tail (d ∷ rest)) h,
  slug_tail-All (d ∷ rest) (and_right (is_slug_char c) (slug_tail (d ∷ rest)) h) last,
)

Last-append : (P : ℕ → Type 0) (xs ys : Text) → ys ≢ [] → Last P ys → Last P (xs ++ ys)
Last-append P [] ys some_ys h = h
Last-append P (x ∷ []) [] some_ys h = absurd (some_ys refl)
Last-append P (x ∷ []) (y ∷ ys) some_ys h = h
Last-append P (x ∷ z ∷ xs) ys some_ys h = Last-append P (z ∷ xs) ys some_ys h

Last-of_All : (P : ℕ → Type 0) (xs : Text) → All P xs → Last P xs
Last-of_All P [] h = tt
Last-of_All P (x ∷ []) h = h.0
Last-of_All P (x ∷ y ∷ xs) h = Last-of_All P (y ∷ xs) h.1

Last-map : (xs : Text) → Last (λ c. c ≢ 10) xs → Last (λ c. c ≢ 10) (map underscored xs)
Last-map [] h = tt
Last-map (x ∷ []) h = ground arith
Last-map (x ∷ y ∷ xs) h = Last-map (y ∷ xs) h

Text-cases : (t : Text) → (t ≡ []) ⊎ (t ≢ [])
Text-cases [] = inl refl
Text-cases (c ∷ t) = inr (λ e. cc)

append-nonempty : (xs ys : Text) → xs ≢ [] → xs ++ ys ≢ []
append-nonempty [] ys some_xs e = some_xs refl
append-nonempty (x ∷ xs) ys some_xs e = cc

module _ (unicode : Unicode) where
  rstrip-step :
      (c : ℕ) (t : Text)
      → Last (λ d. unicode.is_space d ≡ false) t
      → Last
          (λ d. unicode.is_space d ≡ false)
          (if unicode.is_space c && is_empty_text t then [] else c ∷ t)
  rstrip-step c [] h = elim (Bool-cases (unicode.is_space c)) [
    | inl space ↦ rw space tt
    | inr solid ↦ rw solid solid
  ]
  rstrip-step c (d ∷ t) h = elim (Bool-cases (unicode.is_space c)) [
    | inl space ↦ rw space h
    | inr solid ↦ rw solid h
  ]

  rstrip-Last : (t : Text) → Last (λ c. unicode.is_space c ≡ false) (rstrip unicode t)
  unfolding rstrip
  rstrip-Last [] = tt
  rstrip-Last (c ∷ t) = rstrip-step c (rstrip unicode t) (rstrip-Last t)

  module _ (laws : UnicodeLaws unicode) where
    lower-nonempty : (c : ℕ) (t : Text) → lower_text unicode (c ∷ t) ≢ []
    unfolding lower_text
    lower-nonempty c t e =
        append-nonempty (unicode.lower c) (lower_text unicode t) (laws.lower_nonempty c) e

    lower-Last :
        (t : Text)
        → Last (λ c. unicode.is_space c ≡ false) t
        → Last (λ c. c ≢ 10) (lower_text unicode t)
    unfolding lower_text
    lower-Last [] h = tt
    lower-Last (c ∷ []) h =
        rw append-nil (Last-of_All (λ d. d ≢ 10) (unicode.lower c) (laws.lower_not_newline c h))
    lower-Last (c ∷ d ∷ t) h =
        Last-append (λ c. c ≢ 10) (unicode.lower c) (lower_text unicode (d ∷ t))
          (lower-nonempty d t) (lower-Last (d ∷ t) h)

    normalize_slug-Last : (raw : Text) → Last (λ c. c ≢ 10) (normalize_slug unicode raw)
    unfolding normalize_slug
    normalize_slug-Last raw =
        Last-map (lower_text unicode (rstrip unicode (lstrip unicode raw)))
          (lower-Last (rstrip unicode (lstrip unicode raw)) (rstrip-Last (lstrip unicode raw)))

get_role_by_name-reads : (name : Text) (db : Database) → (get_role_by_name name db).1 ≡ db
unfolding get_role_by_name
get_role_by_name-reads name db = ground arith

-- What a successful call has tested and written.
created_role :
    (unicode : Unicode) (id : ℕ) (name : Text) (description : Option String) (role : Role)
    (db : Database)
    → (create_role unicode id name description db).0 ≡ ok role
    → (slug_re_match (normalize_slug unicode name) ≡ true)
      × (length (normalize_slug unicode name) ≤ 50)
      × (role ≡ record {
        id = id;
        name = normalize_slug unicode name;
        description = description;
        is_builtin = false;
      })
      × ((create_role unicode id name description db).1.roles ≡ db.roles ++ role ∷ [])
unfolding create_role validate_slug add_role
created_role unicode id name description role db made = (
  ground arith,
  ground arith,
  ground arith,
  ground (arith, get_role_by_name-reads (normalize_slug unicode name) db),
)

match-nonempty : (t : Text) → slug_re_match t ≡ true → 1 ≤ length t
unfolding slug_re_match
match-nonempty [] h = cc
match-nonempty (c ∷ t) h = omega arith

-- Whatever the admin types, a role that is created has a name of 1 to 50 characters, each a lowercase
-- letter, a digit or an underscore, and its row is the last of the table.
pub create_role-IsSlug :
    (unicode : Unicode) (id : ℕ) (name : Text) (description : Option String) (role : Role)
    (db : Database)
    → UnicodeLaws unicode
    → (create_role unicode id name description db).0 ≡ ok role
    → All (λ c. is_slug_char c ≡ true) role.name
      × (1 ≤ length role.name)
      × (length role.name ≤ 50)
      × ((create_role unicode id name description db).1.roles ≡ db.roles ++ role ∷ [])
create_role-IsSlug unicode id name description role db laws made =
    let (matched, short, same, written) = created_role unicode id name description role db made in
    let slug = normalize_slug unicode name in
    let same_name : role.name ≡ slug = ap (λ r. r.name) same in
    (
      rw same_name (match-All slug matched (normalize_slug-Last unicode laws name)),
      rw same_name (match-nonempty slug matched),
      rw same_name short,
      written,
    )
