-- ===== src/Manager/Tokens/RoundTrip.antt =====
-- pat.go: parsing a token gives back the prefix that issuing has put in.
use Prim.Native.Char.{code}
use Prim.Native.String.{String, ◌++◌ as ◌⧺◌}
use text.Mathlib.TextLemmas.{nil-append, cons-append}
use text.Mathlib.TextPositions.{eq_refl}
use credbound.Prelude.{
  ℕ, ◌+◌, ◌*◌, ◌/◌, ◌%◌, ◌<◌, ◌≡◌, refl, zero, suc, Bool, true, false, not, ◌&&◌, some, [], ◌∷◌,
  ◌++◌, arith, ◌==◌, length,
}
use credbound.Types.{Bytes}
use credbound.Audit.Encoding.{utf8, utf8_rune}
use credbound.Manager.Tokens.{
  hex_digits, url_digits, url_digit, digit_at, hex_encode, url_encode, pat_text, cut, is_hex,
  is_url, all_bytes, is_prefix, is_secret, parse_rest, parse_parts, parse_pat, is_marker_byte,
  valid_token_marker,
}

unfoldable size : String → ℕ
size String.[] = 0
size (String.◌∷◌ c s) = suc (size s)

-- A test that every character's number passes.
unfoldable every : (ℕ → Bool) → String → Bool
every p String.[] = true
every p (String.◌∷◌ c s) = p (code c) && every p s

digit_at-every :
    (p : ℕ → Bool) (i : ℕ) (s : String)
    → every p s ≡ true
    → i < size s
    → p (code (digit_at i s)) ≡ true
unfolding every size digit_at
digit_at-every p i String.[] h le = absurd (omega arith)
digit_at-every p zero (String.◌∷◌ c s) h le = ground arith
digit_at-every p (suc i) (String.◌∷◌ c s) h le =
    digit_at-every p i s (ground arith) (omega (arith, le))

hex_digit-is_hex : (n : ℕ) → is_hex (code (digit_at (n % 16) hex_digits)) ≡ true
hex_digit-is_hex n =
    digit_at-every is_hex (n % 16) hex_digits (unfold every is_hex in refl)
      (unfold size in omega arith)

url_digit-is_url : (n : ℕ) → is_url (code (url_digit n)) ≡ true
url_digit-is_url n =
    digit_at-every is_url (n % 64) url_digits (unfold every is_url in refl)
      (unfold size in omega arith)

both : {a b : Bool} → a ≡ true → b ≡ true → (a && b) ≡ true
both h k = rw (h, k) refl

hex_encode-every : (bs : Bytes) → every is_hex (hex_encode bs) ≡ true
unfolding every hex_encode
hex_encode-every [] = refl
hex_encode-every (b ∷ bs) =
    both (hex_digit-is_hex (b / 16)) (both (hex_digit-is_hex b) (hex_encode-every bs))

url_encode-every : (bs : Bytes) → every is_url (url_encode bs) ≡ true
unfolding every url_encode
url_encode-every [] = refl
url_encode-every (a ∷ []) =
    both (url_digit-is_url (a / 4)) (both (url_digit-is_url ((a % 4) * 16)) refl)
url_encode-every (a ∷ b ∷ []) =
    both (url_digit-is_url (a / 4)) (
      both (url_digit-is_url ((a % 4) * 16 + b / 16)) (both (url_digit-is_url ((b % 16) * 4)) refl))
url_encode-every (a ∷ b ∷ c ∷ bs) = both (url_digit-is_url (a / 4)) (
    both (url_digit-is_url ((a % 4) * 16 + b / 16)) (
      both (url_digit-is_url ((b % 16) * 4 + c / 64))
        (both (url_digit-is_url c) (url_encode-every bs))))

hex_encode-size : (bs : Bytes) → size (hex_encode bs) ≡ 2 * length bs
unfolding size hex_encode
hex_encode-size [] = refl
hex_encode-size (b ∷ bs) = omega (arith, hex_encode-size bs)

url_encode-size : (bs : Bytes) → size (url_encode bs) ≡ (4 * length bs + 2) / 3
unfolding size url_encode
url_encode-size [] = refl
url_encode-size (a ∷ []) = refl
url_encode-size (a ∷ b ∷ []) = refl
url_encode-size (a ∷ b ∷ c ∷ bs) = omega (arith, url_encode-size bs)

-- A test that only ASCII passes.
abbrev IsAscii : (ℕ → Bool) → Type 0
IsAscii p = (n : ℕ) → p n ≡ true → n < 128

is_hex-IsAscii : IsAscii is_hex
unfolding is_hex
is_hex-IsAscii n h = ground arith

is_url-IsAscii : IsAscii is_url
unfolding is_url
is_url-IsAscii n h = ground arith

-- Such a text has one byte for each character.
ascii_bytes :
    (p : ℕ → Bool) (s : String)
    → IsAscii p
    → every p s ≡ true
    → (length (utf8 s) ≡ size s) × (all_bytes p (utf8 s) ≡ true)
unfolding every size utf8 all_bytes
ascii_bytes p String.[] ascii h = (refl, refl)
ascii_bytes p (String.◌∷◌ c s) ascii h =
    let here : p (code c) ≡ true = ground arith in
    let one : utf8_rune (code c) ≡ code c ∷ [] =
      unfold utf8_rune in ground (arith, ascii (code c) here) in
    let rest = ascii_bytes p s ascii (ground arith) in
    (rw (one, rest.0) refl, rw (one, rest.1, here) refl)

-- No character is an underscore.
unfoldable is_free : String → Bool
is_free String.[] = true
is_free (String.◌∷◌ c s) = not (code c == b'_') && is_free s

cut-append : (s t : String) → is_free s ≡ true → cut (s ⧺ String.◌∷◌ "_" t) ≡ some (s, t)
unfolding is_free cut
cut-append String.[] t h = rw (nil-append (String.◌∷◌ "_" t)) refl
cut-append (String.◌∷◌ c s) t h =
    rw (cons-append c s (String.◌∷◌ "_" t)) (ground (arith, cut-append s t))

every_hex-is_free : (s : String) → every is_hex s ≡ true → is_free s ≡ true
unfolding every is_free is_hex
every_hex-is_free String.[] h = refl
every_hex-is_free (String.◌∷◌ c s) h = ground (arith, every_hex-is_free s)

all_bytes-append :
    (p : ℕ → Bool) (a b : Bytes) → all_bytes p (a ++ b) ≡ (all_bytes p a && all_bytes p b)
unfolding all_bytes
all_bytes-append p [] b = refl
all_bytes-append p (x ∷ a) b = ground (arith, all_bytes-append p a b)

marker_rune : (n : ℕ) → all_bytes is_marker_byte (utf8_rune n) ≡ true → (n == b'_') ≡ false
unfolding utf8_rune all_bytes
marker_rune n h = ground arith

marker-is_free : (s : String) → all_bytes is_marker_byte (utf8 s) ≡ true → is_free s ≡ true
unfolding is_free utf8
marker-is_free String.[] h = refl
marker-is_free (String.◌∷◌ c s) h =
    let split = all_bytes-append is_marker_byte (utf8_rune (code c)) (utf8 s) in
    let first : all_bytes is_marker_byte (utf8_rune (code c)) ≡ true = ground arith in
    let rest : is_free s ≡ true = marker-is_free s (ground arith) in
    let other : (code c == b'_') ≡ false = marker_rune (code c) first in rw (other, rest) refl

hex_encode-is_prefix : (bs : Bytes) → length bs ≡ 6 → is_prefix (hex_encode bs) ≡ true
unfolding is_prefix
hex_encode-is_prefix bs six =
    let (long, all) = ascii_bytes is_hex (hex_encode bs) is_hex-IsAscii (hex_encode-every bs) in
    let twelve : length (utf8 (hex_encode bs)) ≡ 12 =
      omega (arith, long, hex_encode-size bs, six) in
    rw (twelve, all) refl

url_encode-is_secret : (bs : Bytes) → length bs ≡ 32 → is_secret (url_encode bs) ≡ true
unfolding is_secret
url_encode-is_secret bs enough =
    let (long, all) = ascii_bytes is_url (url_encode bs) is_url-IsAscii (url_encode-every bs) in
    let digits : length (utf8 (url_encode bs)) ≡ 43 =
      omega (arith, long, url_encode-size bs, enough) in
    rw (digits, all) refl

-- For a valid marker, a prefix of 6 bytes and a secret of 32, `parsePAT` accepts the token's text
-- and gives back the hexadecimal prefix.
pub parse_pat-pat_text :
    (marker : String) (prefix secret : Bytes)
    → valid_token_marker marker ≡ true
    → length prefix ≡ 6
    → length secret ≡ 32
    → parse_pat marker (pat_text marker prefix secret) ≡ some (hex_encode prefix)
unfolding valid_token_marker parse_pat pat_text
parse_pat-pat_text marker prefix secret valid six enough =
    let free = marker-is_free marker (ground arith) in
    let free' = every_hex-is_free (hex_encode prefix) (hex_encode-every prefix) in
    rw (cut-append marker (hex_encode prefix ⧺ String.◌∷◌ "_" (url_encode secret)) free) (
      unfold parse_parts in
      rw (cut-append (hex_encode prefix) (url_encode secret) free') (
        unfold parse_rest in
        rw (eq_refl marker, hex_encode-is_prefix prefix six, url_encode-is_secret secret enough)
          refl))
