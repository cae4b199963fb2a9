-- ===== src/Export/Public/Slug.antt =====
-- The name of a downloaded file.
use factorial.Prelude.{
  Text, ℕ, ◌<◌, ◌≡◌, refl, inl, inr, Bool, true, false, ◌&&◌, ◌||◌, [], ◌∷◌, map, arith, leb, ◌==◌,
  Bool-cases, length, All,
}
use factorial.Export.Public.{
  is_alphanumeric, lower_letter, substituted, lstrip_dashes, unless_dash, rstrip_dashes,
  or_experiment, slugify,
}

-- Lower-case letters, digits and dashes.
abbrev pub is_slug_letter : ℕ → Bool
is_slug_letter c = (leb b'a' c && leb c b'z') || ((leb b'0' c && leb c b'9') || c == b'-')

abbrev pub first_is_dash : Text → Bool
first_is_dash [] = false
first_is_dash (c ∷ t) = c == b'-'

abbrev pub last_is_dash : Text → Bool
last_is_dash [] = false
last_is_dash (c ∷ []) = c == b'-'
last_is_dash (c ∷ d ∷ t) = last_is_dash (d ∷ t)

abbrev IsPlain : Text → Type 0
IsPlain t = All (λ c. (is_alphanumeric c || c == b'-') ≡ true) t

substituted-IsPlain : (t : Text) → IsPlain (substituted t).0 × IsPlain (substituted t).1
substituted-IsPlain [] = (tt, tt)
substituted-IsPlain (c ∷ t) =
    let (outside, inside) = substituted-IsPlain t in
    elim (Bool-cases (is_alphanumeric c)) [
      | inl letter ↦
          rw letter ((ground (arith, letter), outside), (ground (arith, letter), outside))
      | inr other ↦ rw other ((refl, inside), inside)
    ]

lstrip-IsPlain :
    (t : Text) → IsPlain t → IsPlain (lstrip_dashes t) × (first_is_dash (lstrip_dashes t) ≡ false)
lstrip-IsPlain [] h = (tt, refl)
lstrip-IsPlain (c ∷ t) h = elim (Bool-cases (c == b'-')) [
  | inl dash ↦ rw dash (lstrip-IsPlain t h.1)
  | inr other ↦ rw other (h, other)
]

-- The result of stripping the end of a text.
abbrev IsStripped : Text → Text → Type 0
IsStripped before after =
    IsPlain after
    × (last_is_dash after ≡ false)
    × (first_is_dash before ≡ false → first_is_dash after ≡ false)

unless_dash-IsStripped :
    (c : ℕ) (t rest : Text)
    → (is_alphanumeric c || c == b'-') ≡ true
    → IsPlain rest
    → last_is_dash rest ≡ false
    → IsStripped (c ∷ t) (unless_dash c rest)
unless_dash-IsStripped c t [] plain h last = elim (Bool-cases (c == b'-')) [
  | inl dash ↦ rw dash (tt, refl, λ first. refl)
  | inr other ↦ rw other ((plain, tt), other, λ first. other)
]
unless_dash-IsStripped c t (d ∷ rest) plain h last = ((plain, h), last, λ first. first)

rstrip-IsStripped : (t : Text) → IsPlain t → IsStripped t (rstrip_dashes t)
rstrip-IsStripped [] h = (tt, refl, λ first. first)
rstrip-IsStripped (c ∷ t) h =
    let rest = rstrip-IsStripped t h.1 in
    unless_dash-IsStripped c t (rstrip_dashes t) h.0 rest.0 rest.1

-- What a slug is.
abbrev pub IsSlug : Text → Type 0
IsSlug t =
    (0 < length t)
    × All (λ c. is_slug_letter c ≡ true) t
    × (first_is_dash t ≡ false)
    × (last_is_dash t ≡ false)

lowered : (t : Text) → IsPlain t → All (λ c. is_slug_letter c ≡ true) (map lower_letter t)
lowered [] h = tt
lowered (c ∷ t) h = (ground (arith, h.0), lowered t h.1)

lower-first : (t : Text) → first_is_dash t ≡ false → first_is_dash (map lower_letter t) ≡ false
lower-first [] h = refl
lower-first (c ∷ t) h = ground (arith, h)

lower-last : (t : Text) → last_is_dash t ≡ false → last_is_dash (map lower_letter t) ≡ false
lower-last [] h = refl
lower-last (c ∷ []) h = ground (arith, h)
lower-last (c ∷ d ∷ t) h = lower-last (d ∷ t) h

or_experiment-IsSlug :
    (t : Text)
    → All (λ c. is_slug_letter c ≡ true) t
    → first_is_dash t ≡ false
    → last_is_dash t ≡ false
    → IsSlug (or_experiment t)
or_experiment-IsSlug [] letters first last = (
  omega arith,
  (refl, (refl, (refl, (refl, (refl, (refl, (refl, (refl, (refl, (refl, tt)))))))))),
  refl,
  refl,
)
or_experiment-IsSlug (c ∷ t) letters first last = (omega arith, letters, first, last)

-- The slug of every name is not empty, has only lower-case letters, digits and dashes, and has no dash at an end.
pub slugify-IsSlug : (name : Text) → IsSlug (slugify name)
unfolding slugify
slugify-IsSlug name =
    let (plain, first) = lstrip-IsPlain (substituted name).0 (substituted-IsPlain name).0 in
    let left = lstrip_dashes (substituted name).0 in
    let (stripped, last, keeps) = rstrip-IsStripped left plain in
    or_experiment-IsSlug (map lower_letter (rstrip_dashes left))
      (lowered (rstrip_dashes left) stripped) (lower-first (rstrip_dashes left) (keeps first))
      (lower-last (rstrip_dashes left) last)
