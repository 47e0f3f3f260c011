-- ===== src/Manager/Tokens.antt =====
-- pat.go: the text of a personal access token and its parser. `hex.EncodeToString` and
-- `base64.RawURLEncoding.EncodeToString` look their digits up in an alphabet.
pub mod RoundTrip
use Prim.Native.Char.{Char, code, nul}
use Prim.Native.String.{String, ◌++◌ as ◌⧺◌}
use credbound.Prelude.{
  ℕ, ◌+◌, ◌*◌, ◌/◌, ◌%◌, zero, suc, Bool, true, false, not, ◌&&◌, ◌||◌, Option, none, some, List,
  [], ◌∷◌, str_eq, ◌==◌, leb, length, if◌then◌else◌,
}
use credbound.Types.{Bytes}
use credbound.Audit.Encoding.{utf8}
use credbound.Manager.Roles.{is_lower}

abbrev pub hex_digits : String
hex_digits = "0123456789abcdef"

abbrev pub url_digits : String
url_digits = "ABCDEFGHIJKLMNOPQRSTUVWXYZabcdefghijklmnopqrstuvwxyz0123456789-_"

unfoldable pub digit_at : ℕ → String → Char
digit_at i String.[] = nul
digit_at zero (String.◌∷◌ c s) = c
digit_at (suc i) (String.◌∷◌ c s) = digit_at i s

-- `hex.EncodeToString`
unfoldable pub hex_encode : Bytes → String
unfolding digit_at
hex_encode [] = String.[]
hex_encode (b ∷ bs) =
    String.◌∷◌ (digit_at ((b / 16) % 16) hex_digits)
      (String.◌∷◌ (digit_at (b % 16) hex_digits) (hex_encode bs))

abbrev pub url_digit : ℕ → Char
url_digit n = digit_at (n % 64) url_digits

-- `base64.RawURLEncoding.EncodeToString`: four digits for three bytes, without padding.
unfoldable pub url_encode : Bytes → String
unfolding digit_at
url_encode [] = String.[]
url_encode (a ∷ []) =
    String.◌∷◌ (url_digit (a / 4)) (String.◌∷◌ (url_digit ((a % 4) * 16)) String.[])
url_encode (a ∷ b ∷ []) = String.◌∷◌ (url_digit (a / 4)) (
    String.◌∷◌ (url_digit ((a % 4) * 16 + b / 16))
      (String.◌∷◌ (url_digit ((b % 16) * 4)) String.[]))
url_encode (a ∷ b ∷ c ∷ bs) = String.◌∷◌ (url_digit (a / 4)) (
    String.◌∷◌ (url_digit ((a % 4) * 16 + b / 16))
      (String.◌∷◌ (url_digit ((b % 16) * 4 + c / 64)) (String.◌∷◌ (url_digit c) (url_encode bs))))

-- The raw token that `CreatePAT` returns.
unfoldable pub pat_text : String → Bytes → Bytes → String
pat_text marker prefix secret =
    marker ⧺ String.◌∷◌ "_" (hex_encode prefix ⧺ String.◌∷◌ "_" (url_encode secret))

abbrev pub ahead : Char → Option (String × String) → Option (String × String)
ahead c none = none
ahead c (some (before, after)) = some (String.◌∷◌ c before, after)

-- One step of `strings.SplitN` at "_".
unfoldable pub cut : String → Option (String × String)
cut String.[] = none
cut (String.◌∷◌ c s) =
    let rest = cut s in if code c == b'_' then some (String.[], s) else ahead c rest

abbrev pub is_digit : ℕ → Bool
is_digit b = leb b'0' b && leb b b'9'

unfoldable pub is_hex : ℕ → Bool
is_hex b = is_digit b || ((leb b'a' b && leb b b'f') || (leb b'A' b && leb b b'F'))

unfoldable pub is_url : ℕ → Bool
is_url b = is_digit b || (is_lower b || ((leb b'A' b && leb b b'Z') || (b == b'-' || b == b'_')))

unfoldable pub all_bytes : (ℕ → Bool) → Bytes → Bool
all_bytes p [] = true
all_bytes p (b ∷ bs) = p b && all_bytes p bs

-- A text that `hex.DecodeString` decodes to six bytes, and one that `base64.RawURLEncoding` decodes
-- to 32: the decoder skips line breaks, but then fewer digits are left than 32 bytes take.
unfoldable pub is_prefix : String → Bool
unfolding is_hex all_bytes
is_prefix text = length (utf8 text) == 12 && all_bytes is_hex (utf8 text)

unfoldable pub is_secret : String → Bool
unfolding is_url all_bytes
is_secret text = length (utf8 text) == 43 && all_bytes is_url (utf8 text)

unfoldable pub parse_rest : String → String → Option (String × String) → Option String
unfolding is_prefix is_secret
parse_rest marker first none = none
parse_rest marker first (some (prefix, secret)) =
    if str_eq first marker && (is_prefix prefix && is_secret secret) then some prefix else none

unfoldable pub parse_parts : String → Option (String × String) → Option String
unfolding cut parse_rest
parse_parts marker none = none
parse_parts marker (some (first, rest)) = parse_rest marker first (cut rest)

unfoldable pub parse_pat : String → String → Option String
unfolding parse_parts cut
parse_pat marker raw = parse_parts marker (cut raw)

-- `validTokenMarker`
abbrev pub is_marker_byte : ℕ → Bool
is_marker_byte b = is_lower b || is_digit b

unfoldable pub valid_token_marker : String → Bool
unfolding all_bytes
valid_token_marker marker =
    leb 1 (length (utf8 marker))
    && (leb (length (utf8 marker)) 16 && all_bytes is_marker_byte (utf8 marker))
