-- ===== src/Chat/Prompt/Clean.antt =====
-- What the profile of a user can put into the system prompt.
use factorial.Prelude.{
  Text, ℕ, ◌≤◌, String, ◌≡◌, refl, ap, ◌∙◌, ◌⊎◌, inl, inr, Bool, true, ◌&&◌, ◌||◌, none, some, [],
  ◌∷◌, ◌++◌, arith, leb, ◌==◌, if◌then◌else◌, leb→le, ==_iff, Bool-cases, length, All,
}
use mathlib.Core.List.{map-append}
use factorial.Account.Roles.{is_slug_char, slug_tail, slug_re_match}
use factorial.Chat.Prompt.{
  without_newline, background_re_match, spaced, background_clause, detail_level_clause, with_detail,
  build_system_prompt,
}

-- A small letter, a digit or a space.
abbrev pub is_label_char : ℕ → Bool
is_label_char c = (leb b'a' c && leb c b'z') || ((leb b'0' c && leb c b'9') || c == b' ')

-- A text that the pattern takes, without the newline at its end.
record Parts (text : Text) : Type 0 where
  body : Text
  ending : Text
  split : text ≡ body ++ ending
  clean : All (λ c. is_slug_char c ≡ true) body
  short : without_newline text ≡ body
  newline : (ending ≡ []) ⊎ (ending ≡ 10 ∷ [])

parts : (text : Text) → slug_tail text ≡ true → Parts text
parts [] h = record {
  body = [];
  ending = [];
  split = refl;
  clean = tt;
  short = refl;
  newline = inl refl;
}
parts (c ∷ []) h = elim (Bool-cases (c == 10)) [
  | inl same ↦ record {
    body = [];
    ending = 10 ∷ [];
    split = ap (λ x. x ∷ []) ((==_iff c 10).0 same);
    clean = tt;
    short = rw same refl;
    newline = inr refl;
  }
  | inr other ↦ record {
    body = c ∷ [];
    ending = [];
    split = refl;
    clean = (ground (arith, other, h), tt);
    short = rw other refl;
    newline = inl refl;
  }
]
parts (c ∷ d ∷ text) h =
    let more = parts (d ∷ text) (ground (arith, h)) in
    record {
      body = c ∷ more.body;
      ending = more.ending;
      split = ap (λ x. c ∷ x) more.split;
      clean = (ground (arith, h), more.clean);
      short = ap (λ x. c ∷ x) more.short;
      newline = more.newline;
    }

slug_parts : (text : Text) → slug_re_match text ≡ true → Parts text
unfolding slug_re_match
slug_parts [] h = absurd (ground (arith, h))
slug_parts (c ∷ rest) h = parts (c ∷ rest) (ground (arith, h))

spaced_clean :
    (text : Text)
    → All (λ c. is_slug_char c ≡ true) text
    → All (λ c. is_label_char c ≡ true) (spaced text)
spaced_clean [] h = tt
spaced_clean (c ∷ text) h = (ground (arith, h.0), spaced_clean text h.1)

length-spaced : (text : Text) → length (spaced text) ≡ length text
length-spaced [] = refl
length-spaced (c ∷ text) = omega (arith, length-spaced text)

-- What stands for a user's background.
pub record IsLabel (label : Text) : Type 0 where
  pub words : Text
  pub ending : Text
  pub split : label ≡ words ++ ending
  pub clean : All (λ c. is_label_char c ≡ true) words
  pub short : length words ≤ 50
  pub newline : (ending ≡ []) ⊎ (ending ≡ 10 ∷ [])

spaced_end :
    (ending : Text)
    → (ending ≡ []) ⊎ (ending ≡ 10 ∷ [])
    → (spaced ending ≡ []) ⊎ (spaced ending ≡ 10 ∷ [])
spaced_end ending (inl nothing) = inl (ap spaced nothing)
spaced_end ending (inr newline) = inr (ap spaced newline)

spaced-IsLabel : (text : Text) → background_re_match text ≡ true → IsLabel (spaced text)
unfolding background_re_match
spaced-IsLabel text h =
    let p = slug_parts text (ground (arith, h)) in
    let room : leb (length (without_newline text)) 50 ≡ true = ground (arith, h) in
    record {
      words = spaced p.body;
      ending = spaced p.ending;
      split = ap spaced p.split ∙ map-append (λ c. if c == b'_' then b' ' else c) p.body p.ending;
      clean = spaced_clean p.body p.clean;
      short = omega (
        arith,
        leb→le (length (without_newline text)) 50 room,
        ap length p.short,
        length-spaced p.body,
      );
      newline = spaced_end p.ending p.newline;
    }

-- Whatever a user's profile holds, the system prompt is that without it, or the general part with one sentence,
-- in which only a label of at most 50 small letters, digits and spaces, with perhaps a newline behind it, is the
-- user's, and then the clause of the level of detail.
pub build_system_prompt-clean :
    (system_prompt background : Text) (detail_level : String)
    → (build_system_prompt system_prompt (some background) detail_level
        ≡ build_system_prompt system_prompt none detail_level)
      ⊎ ((label : Text) × (IsLabel label)
          × (build_system_prompt system_prompt (some background) detail_level
              ≡ with_detail
                  (detail_level_clause detail_level)
                  (system_prompt ++ background_clause label)))
unfolding build_system_prompt
build_system_prompt-clean system_prompt background detail_level =
    elim (Bool-cases (background_re_match background)) [
      | inl fits ↦ inr (spaced background, spaced-IsLabel background fits, rw fits refl)
      | inr other ↦ inl (rw other refl)
    ]
