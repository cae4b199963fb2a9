-- ===== src/Access/Csrf.antt =====
-- The CSRF test: which requests `require_csrf` lets pass.
use factorial.Prelude.{
  String, ◌≡◌, refl, ◌≢◌, ◌↔◌, ◌⊎◌, inl, inr, true, false, Bool, Option, none, some, arith, str_eq,
  eq_iff, Bool-cases,
}
use factorial.Access.{given, granted, rejected, if_equal, is_protected, require_csrf}
use factorial.Session.{is_ascii, compare_digest, csrf_tokens_match}

-- The header and the cookie hold the same token, which is not empty, and ASCII.
abbrev pub HaveToken : Option String → Option String → Type 0
HaveToken header_value cookie_value =
    (token : String) × (header_value ≡ some token)
    × (cookie_value ≡ some token)
    × (token ≢ "")
    × (is_ascii token ≡ true)

matched :
    (header_value cookie_value : Option String)
    → csrf_tokens_match header_value cookie_value ≡ some true
    → HaveToken header_value cookie_value
unfolding csrf_tokens_match compare_digest
matched none cookie_value h = absurd (ground (arith, h))
matched (some header) none h = absurd (ground (arith, h))
matched (some header) (some cookie) h = (
  header,
  refl,
  ground (arith, h, eq_iff header cookie),
  ground (arith, h, eq_iff header ""),
  ground (arith, h),
)

have :
    (header_value cookie_value : Option String)
    → HaveToken header_value cookie_value
    → csrf_tokens_match header_value cookie_value ≡ some true
unfolding csrf_tokens_match compare_digest
have header_value cookie_value (token, header, cookie, some_text, ascii) =
    rw (header, cookie) (ground (arith, some_text, ascii, eq_iff token "", eq_iff token token))

if_equal-granted :
    (e : Option Bool)
    → if_equal e tt (rejected 403 "CSRF token missing or invalid") ≡ granted tt
    → e ≡ some true
if_equal-granted none h = absurd (ground (arith, h))
if_equal-granted (some true) h = refl
if_equal-granted (some false) h = absurd (ground (arith, h))

abbrev pub HaveKey : Option String → Type 0
HaveKey api_key = (key : String) × ((api_key ≡ some key) × (key ≢ ""))

given_key : (api_key : Option String) → str_eq (given api_key) "" ≡ false → HaveKey api_key
given_key none h = absurd (ground (arith, h))
given_key (some key) h = (key, (refl, ground (arith, h, eq_iff key "")))

key_given : (api_key : Option String) → HaveKey api_key → str_eq (given api_key) "" ≡ false
key_given api_key (key, (sent, some_text)) = rw sent (ground (arith, some_text, eq_iff key ""))

module _ (method : String) (api_key header_value cookie_value : Option String) where
  -- Why a request passes.
  Reasons : Type 0
  Reasons = (is_protected method ≡ false) ⊎ (HaveKey api_key ⊎ HaveToken header_value cookie_value)

  reason : require_csrf method api_key header_value cookie_value ≡ granted tt → Reasons
  unfolding require_csrf Reasons
  reason h = elim (Bool-cases (is_protected method)) [
    | inr safe ↦ inl safe
    | inl protected ↦ elim (Bool-cases (str_eq (given api_key) "")) [
      | inr key ↦ inr (inl (given_key api_key key))
      | inl no_key ↦
          let passed : if_equal (csrf_tokens_match header_value cookie_value) tt
                (rejected 403 "CSRF token missing or invalid")
              ≡ granted tt =
            ground (arith, protected, no_key, h) in
          inr (inr (matched header_value cookie_value (if_equal-granted _ passed)))
    ]
  ]

  granted_by : Reasons → require_csrf method api_key header_value cookie_value ≡ granted tt
  unfolding require_csrf Reasons
  granted_by (inl safe) = ground (arith, safe)
  granted_by (inr (inl key)) = let k = key_given api_key key in ground (arith, k)
  granted_by (inr (inr token)) =
      let same = have header_value cookie_value token in ground (arith, same)

-- A request passes exactly when its method is none of the four that change state, or it comes with an X-API-Key
-- that is not empty, be it right or wrong, or its header and its cookie hold the same token, which is not empty and ASCII.
pub require_csrf_iff :
    (method : String) (api_key header_value cookie_value : Option String)
    → (require_csrf method api_key header_value cookie_value ≡ granted tt)
      ↔ ((is_protected method ≡ false) ⊎ (HaveKey api_key ⊎ HaveToken header_value cookie_value))
unfolding Reasons
require_csrf_iff method api_key header_value cookie_value = (
  reason method api_key header_value cookie_value,
  granted_by method api_key header_value cookie_value,
)
