-- ===== src/Audit/Encoding.antt =====
-- audit.go: what `ComputeAuditHash` writes for one field. `utf8` is a Go string's bytes,
-- `decimal` is `strconv.Itoa` of a number, and `frame` the closure `write`.
use Prim.Native.Char.{code}
use Prim.Native.String.{String}
use credbound.Prelude.{ℕ, zero, suc, ◌+◌, ◌/◌, ◌%◌, List, [], ◌∷◌, ◌++◌, length, ltb, if◌then◌else◌}
use credbound.Types.{Bytes}

unfoldable pub utf8_rune : ℕ → Bytes
utf8_rune c =
    if ltb c 0x80
    then c ∷ []
    else if ltb c 0x800
    then (0xc0 + c / 64) ∷ (0x80 + c % 64) ∷ []
    else if ltb c 0x1_0000
    then (0xe0 + c / 4096) ∷ (0x80 + (c / 64) % 64) ∷ (0x80 + c % 64) ∷ []
    else (0xf0 + c / 262144)
      ∷ (0x80 + (c / 4096) % 64)
      ∷ (0x80 + (c / 64) % 64)
      ∷ (0x80 + c % 64)
      ∷ []

unfoldable pub utf8 : String → Bytes
unfolding utf8_rune
utf8 String.[] = []
utf8 (String.◌∷◌ c s) = utf8_rune (code c) ++ utf8 s

-- Decimal digits, the most significant first. The fuel is above the number (`value-digits`).
unfoldable pub digits : ℕ → ℕ → Bytes
digits zero n = []
digits (suc fuel) n =
    let rest = digits fuel (n / 10) in
    if ltb n 10 then (b'0' + n) ∷ [] else rest ++ (b'0' + n % 10) ∷ []

unfoldable pub decimal : ℕ → Bytes
unfolding digits
decimal n = digits (suc n) n

-- `<length>:<value>;`
unfoldable pub frame : Bytes → Bytes
unfolding decimal
frame value = decimal (length value) ++ (b':' ∷ (value ++ b';' ∷ []))

unfoldable pub frames : List Bytes → Bytes
unfolding frame
frames [] = []
frames (v ∷ vs) = frame v ++ frames vs
