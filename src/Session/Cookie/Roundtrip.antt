-- ===== src/Session/Cookie/Roundtrip.antt =====
-- A cookie value that `_encode_id` wrote is read back by `_decode_id`.
use factorial.Prelude.{
  ℕ, zero, suc, ◌+◌, ◌*◌, ◌/◌, ◌%◌, ◌<◌, ◌≡◌, refl, ap, true, false, some, List, [], ◌∷◌, ◌++◌,
  arith, ltb, ◌==◌, length, All,
}
use factorial.Session.Cookie.{
  b64_char, b64_value, b64encode, rstrip_pad, encode_id, Quad, start, a2b_base64, emit, is_ascii,
  digit_out, digit_next, replicate, padding, decode_id, IsByte, session_id_bytes,
}

value-char : (v : ℕ) → v < 64 → b64_value (b64_char v) ≡ some v
unfolding b64_value b64_char
value-char v h = ground arith

char_range : (v : ℕ) → v < 64 → ((b64_char v == b'=') ≡ false) × (ltb (b64_char v) 128 ≡ true)
unfolding b64_char
char_range v h = ground arith

-- One digit read in any state.
step_digit :
    (q : Quad) (v : ℕ) (rest : List ℕ)
    → v < 64
    → a2b_base64 q (b64_char v ∷ rest) ≡ emit (digit_out q v) (a2b_base64 (digit_next q v) rest)
unfolding a2b_base64
step_digit q v rest h = rw ((char_range v h).0, value-char v h)

-- `b64encode` without its padding.
unpadded : List ℕ → List ℕ
unpadded [] = []
unpadded (a ∷ []) = b64_char (a / 4) ∷ b64_char (a % 4 * 16) ∷ []
unpadded (a ∷ b ∷ []) =
    b64_char (a / 4) ∷ b64_char (a % 4 * 16 + b / 16) ∷ b64_char (b % 16 * 4) ∷ []
unpadded (a ∷ b ∷ c ∷ rest) =
    b64_char (a / 4)
    ∷ b64_char (a % 4 * 16 + b / 16)
    ∷ b64_char (b % 16 * 4 + c / 64)
    ∷ b64_char (c % 64)
    ∷ unpadded rest

-- A text with no pad sign loses nothing to rstrip.
rstrip_digit :
    (v : ℕ) (rest : List ℕ) → v < 64 → rstrip_pad (b64_char v ∷ rest) ≡ b64_char v ∷ rstrip_pad rest
rstrip_digit v rest h = rw ((char_range v h).0)

rstrip-b64encode : (raw : List ℕ) → All IsByte raw → rstrip_pad (b64encode raw) ≡ unpadded raw
unfolding b64encode unpadded
rstrip-b64encode [] h = refl
rstrip-b64encode (a ∷ []) h = ground (arith, char_range (a / 4), char_range (a % 4 * 16))
rstrip-b64encode (a ∷ b ∷ []) h =
    ground (arith, char_range (a / 4), char_range (a % 4 * 16 + b / 16), char_range (b % 16 * 4))
rstrip-b64encode (a ∷ b ∷ c ∷ rest) h = ground (
  arith,
  char_range (a / 4),
  char_range (a % 4 * 16 + b / 16),
  char_range (b % 16 * 4 + c / 64),
  char_range (c % 64),
  rstrip-b64encode rest h.1.1.1,
)

module _ (a b c : ℕ) (rest : List ℕ) (ha : a < 256) (hb : b < 256) (hc : c < 256) where
  -- Four digits give back three bytes, and leave the reader where it was.
  step_group :
      a2b_base64 start (
        b64_char (a / 4)
        ∷ b64_char (a % 4 * 16 + b / 16)
        ∷ b64_char (b % 16 * 4 + c / 64)
        ∷ b64_char (c % 64)
        ∷ rest)
      ≡ emit (a ∷ b ∷ c ∷ []) (a2b_base64 start rest)
  unfolding digit_out digit_next
  step_group =
      rw
        (
          step_digit _ (a / 4) _ (omega arith),
          step_digit _ (a % 4 * 16 + b / 16) _ (omega arith),
          step_digit _ (b % 16 * 4 + c / 64) _ (omega arith),
          step_digit _ (c % 64) _ (omega arith),
        )
        (ground arith)

padding_group : (w x y z : ℕ) (rest : List ℕ) → padding (w ∷ x ∷ y ∷ z ∷ rest) ≡ padding rest
padding_group w x y z rest = ap (λ n. replicate n b'=') (omega arith)

a2b-unpadded :
    (raw : List ℕ)
    → All IsByte raw
    → a2b_base64 start (unpadded raw ++ padding (unpadded raw)) ≡ some raw
unfolding unpadded a2b_base64 digit_out digit_next
a2b-unpadded [] h = refl
a2b-unpadded (a ∷ []) h =
    rw (step_digit _ (a / 4) _ (omega arith), step_digit _ (a % 4 * 16) _ (omega arith))
      (ground arith)
a2b-unpadded (a ∷ b ∷ []) h =
    rw
      (
        step_digit _ (a / 4) _ (omega arith),
        step_digit _ (a % 4 * 16 + b / 16) _ (omega arith),
        step_digit _ (b % 16 * 4) _ (omega arith),
      )
      (ground arith)
a2b-unpadded (a ∷ b ∷ c ∷ rest) h = rw (
  padding_group (b64_char (a / 4)) (b64_char (a % 4 * 16 + b / 16)) (b64_char (b % 16 * 4 + c / 64))
      (b64_char (c % 64)) (unpadded rest),
  step_group a b c _ h.0 h.1.0 h.1.1.0,
  a2b-unpadded rest h.1.1.1,
)

unpadded-is_ascii :
    (raw : List ℕ) (n : ℕ) → All IsByte raw → is_ascii (unpadded raw ++ replicate n b'=') ≡ true
unfolding unpadded
unpadded-is_ascii [] zero h = refl
unpadded-is_ascii [] (suc n) h = unpadded-is_ascii [] n tt
unpadded-is_ascii (a ∷ []) n h = rw (
  (char_range (a / 4) (omega arith)).1,
  (char_range (a % 4 * 16) (omega arith)).1,
  unpadded-is_ascii [] n tt,
)
unpadded-is_ascii (a ∷ b ∷ []) n h = rw (
  (char_range (a / 4) (omega arith)).1,
  (char_range (a % 4 * 16 + b / 16) (omega arith)).1,
  (char_range (b % 16 * 4) (omega arith)).1,
  unpadded-is_ascii [] n tt,
)
unpadded-is_ascii (a ∷ b ∷ c ∷ rest) n h = rw (
  (char_range (a / 4) (omega arith)).1,
  (char_range (a % 4 * 16 + b / 16) (omega arith)).1,
  (char_range (b % 16 * 4 + c / 64) (omega arith)).1,
  (char_range (c % 64) (omega arith)).1,
  unpadded-is_ascii rest n h.1.1.1,
)

-- Reading back the cookie value of any 32 bytes gives those bytes.
pub decode_id-encode_id :
    (raw : List ℕ)
    → All IsByte raw
    → length raw ≡ session_id_bytes
    → decode_id (encode_id raw) ≡ some raw
unfolding decode_id encode_id
decode_id-encode_id raw h len =
    rw (rstrip-b64encode raw h, unpadded-is_ascii raw _ h, a2b-unpadded raw h) (ground arith)
