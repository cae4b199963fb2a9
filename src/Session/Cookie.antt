-- ===== src/Session/Cookie.antt =====
-- backend/src/app/services/session_service.py: `_encode_id` and `_decode_id`, with what they use of
-- Python's base64 and binascii. A text is the list of its code points.
pub mod Roundtrip
use factorial.Prelude.{
  ℕ, zero, suc, ◌+◌, ◌-◌, ◌*◌, ◌/◌, ◌%◌, ◌<◌, Bool, true, false, ◌&&◌, ◌||◌, Option, none, some,
  List, [], ◌∷◌, ◌++◌, ltb, leb, ◌==◌, if◌then◌else◌, length,
}

-- _SESSION_ID_BYTES
abbrev pub session_id_bytes : ℕ
session_id_bytes = 32

-- The alphabet of `urlsafe_b64encode`: "-" and "_" in place of "+" and "/".
unfoldable pub b64_char : ℕ → ℕ
b64_char v =
    if ltb v 26
    then v + 65
    else if ltb v 52
    then v + 71
    else if ltb v 62
    then v - 4
    else if v == 62
    then b'-'
    else b'_'

-- `urlsafe_b64decode` first turns "-" and "_" into "+" and "/", so all four are digits.
unfoldable pub b64_value : ℕ → Option ℕ
b64_value ch =
    if leb 65 ch && leb ch 90
    then some (ch - 65)
    else if leb 97 ch && leb ch 122
    then some (ch - 71)
    else if leb 48 ch && leb ch 57
    then some (ch + 4)
    else if ch == b'-' || ch == b'+'
    then some 62
    else if ch == b'_' || ch == b'/'
    then some 63
    else none

unfoldable pub b64encode : List ℕ → List ℕ
unfolding b64_char
b64encode [] = []
b64encode (a ∷ []) = b64_char (a / 4) ∷ b64_char (a % 4 * 16) ∷ b'=' ∷ b'=' ∷ []
b64encode (a ∷ b ∷ []) =
    b64_char (a / 4) ∷ b64_char (a % 4 * 16 + b / 16) ∷ b64_char (b % 16 * 4) ∷ b'=' ∷ []
b64encode (a ∷ b ∷ c ∷ rest) =
    b64_char (a / 4)
    ∷ b64_char (a % 4 * 16 + b / 16)
    ∷ b64_char (b % 16 * 4 + c / 64)
    ∷ b64_char (c % 64)
    ∷ b64encode rest

abbrev pub is_empty : List ℕ → Bool
is_empty [] = true
is_empty (x ∷ xs) = false

-- .rstrip(b"=")
abbrev pub rstrip_pad : List ℕ → List ℕ
rstrip_pad [] = []
rstrip_pad (x ∷ xs) =
    let rest = rstrip_pad xs in if x == b'=' && is_empty rest then [] else x ∷ rest

unfoldable pub encode_id : List ℕ → List ℕ
unfolding b64encode
encode_id raw = rstrip_pad (b64encode raw)

-- The loop variables of binascii.a2b_base64.
pub record Quad : Type 0 where
  pub quad_pos : ℕ
  pub leftchar : ℕ
  pub pads : ℕ

abbrev pub start : Quad
start = record { quad_pos = 0; leftchar = 0; pads = 0 }

-- A pad sequence that completes a quad ends the parse.
unfoldable pub stops : Quad → ℕ → Bool
stops q ch = ch == b'=' && leb 2 q.quad_pos && leb 4 (q.quad_pos + (q.pads + 1))

pad_next : Quad → Quad
pad_next q = if leb 2 q.quad_pos then record q { pads = q.pads + 1 } else q

digit_next : Quad → ℕ → Quad
digit_next q v =
    if q.quad_pos == 0
    then record { quad_pos = 1; leftchar = v; pads = 0 }
    else if q.quad_pos == 1
    then record { quad_pos = 2; leftchar = v % 16; pads = 0 }
    else if q.quad_pos == 2
    then record { quad_pos = 3; leftchar = v % 4; pads = 0 }
    else start

-- A character that is neither a digit nor a pad is skipped.
unfoldable pub next : Quad → ℕ → Quad
unfolding b64_value pad_next digit_next
next q ch =
    if ch == b'=' then pad_next q else elim (b64_value ch) [ none ↦ q | some v ↦ digit_next q v ]

digit_out : Quad → ℕ → List ℕ
digit_out q v =
    if q.quad_pos == 0
    then []
    else if q.quad_pos == 1
    then (q.leftchar * 4 + v / 16) ∷ []
    else if q.quad_pos == 2
    then (q.leftchar * 16 + v / 4) ∷ []
    else (q.leftchar * 64 + v) ∷ []

-- The byte that a character completes, if it does.
unfoldable pub out : Quad → ℕ → List ℕ
unfolding b64_value digit_out
out q ch = if ch == b'=' then [] else elim (b64_value ch) [ none ↦ [] | some v ↦ digit_out q v ]

abbrev pub emit : List ℕ → Option (List ℕ) → Option (List ℕ)
emit bytes none = none
emit bytes (some more) = some (bytes ++ more)

unfoldable pub a2b_base64 : Quad → List ℕ → Option (List ℕ)
unfolding stops next out
a2b_base64 q [] = if q.quad_pos == 0 then some [] else none
a2b_base64 q (ch ∷ rest) =
    let more = a2b_base64 (next q ch) rest in if stops q ch then some [] else emit (out q ch) more

abbrev pub is_ascii : List ℕ → Bool
is_ascii [] = true
is_ascii (ch ∷ rest) = ltb ch 128 && is_ascii rest

-- A text with a character outside ASCII is a ValueError.
unfoldable pub b64decode : List ℕ → Option (List ℕ)
unfolding a2b_base64
b64decode text = if is_ascii text then a2b_base64 start text else none

abbrev pub replicate : ℕ → ℕ → List ℕ
replicate zero ch = []
replicate (suc n) ch = ch ∷ replicate n ch

abbrev pub padding : List ℕ → List ℕ
padding value = replicate ((4 - length value % 4) % 4) b'='

abbrev check_length : Option (List ℕ) → Option (List ℕ)
check_length none = none
check_length (some raw) = if length raw == session_id_bytes then some raw else none

unfoldable pub decode_id : List ℕ → Option (List ℕ)
unfolding b64decode
decode_id value = check_length (b64decode (value ++ padding value))

abbrev pub IsByte : ℕ → Type 0
IsByte b = b < 256
