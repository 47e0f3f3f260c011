-- ===== src/Manager/Sealing.antt =====
-- internal.go: `open`, the counterpart of the AES-GCM seal, over a ring of keys.
use credbound.Prelude.{
  ℕ, zero, suc, Bool, not, ◌||◌, Option, none, some, List, [], ◌∷◌, ◌==◌, length, if◌then◌else◌,
}
use credbound.Types.{Bytes, Error, Result, ok, err}
use credbound.Manager.Config.{Config}

-- The first bytes and the others, if there are as many.
unfoldable pub split_at : ℕ → Bytes → Option (Bytes × Bytes)
split_at zero bytes = some ([], bytes)
split_at (suc n) [] = none
split_at (suc n) (b ∷ bytes) = elim (split_at n bytes) [
  | none ↦ none
  | some (front, back) ↦ some (b ∷ front, back)
]

-- `newGCM` fails on a key of another size.
abbrev pub is_key_size : ℕ → Bool
is_key_size n = n == 16 || (n == 24 || n == 32)

-- One key of the ring: its plaintext, or the rest's answer.
abbrev pub or_rest : Option Bytes → Result Bytes → Result Bytes
or_rest (some plaintext) rest = ok plaintext
or_rest none rest = rest

module _ (config : Config) where
  unfoldable pub open_with : List Bytes → Bytes → Result Bytes
  unfolding split_at
  open_with [] ciphertext = err Error.invalid_credentials
  open_with (key ∷ keys) ciphertext =
      let rest = open_with keys ciphertext in
      if not (is_key_size (length key))
      then err (Error.other 0)
      else elim (split_at 12 ciphertext) [
        | none ↦ err Error.invalid_credentials
        | some (nonce, sealed) ↦ or_rest (config.gcm_open key nonce sealed) rest
      ]

  unfoldable pub open_sealed : Bytes → Result Bytes
  unfolding open_with
  open_sealed ciphertext = open_with config.read_seal_keys ciphertext
