-- ===== src/Manager/Ids.antt =====
-- internal.go: `newID`, the UUIDv7 generator. An identifier is its 16 bytes, read as one number.
use credbound.Prelude.{ℕ, ◌+◌, ◌*◌, ◌/◌, ◌%◌, ◌^◌, [], ◌∷◌, ◌==◌, ltb, if◌then◌else◌}
use credbound.Types.{Uuid, Time, Bytes, ok}
use credbound.Manager.State.{Env, Op, now, random_bytes, ◌>>=◌, ◌>>◌}

-- `time.Time.UnixMilli` of a number of nanoseconds.
abbrev pub unix_milli : Time → ℕ
unix_milli at = at / 1_000_000

-- The clock and the sequence of the generator, before the draw.
unfoldable pub tick : ℕ → ℕ × ℕ → ℕ × ℕ
tick now_milli (milli, sequence) =
    if ltb milli now_milli
    then (now_milli, 0)
    else if sequence == 4095
    then (milli + 1, 0)
    else (milli, sequence + 1)

-- `byte(timestamp)` for the six bytes, the last byte the lowest.
unfoldable pub timestamp_bytes : ℕ → Bytes → Bytes
timestamp_bytes t rest =
    (t / 2 ^ 40) % 256
    ∷ (t / 2 ^ 32) % 256
    ∷ (t / 2 ^ 24) % 256
    ∷ (t / 2 ^ 16) % 256
    ∷ (t / 2 ^ 8) % 256
    ∷ t % 256
    ∷ rest

-- The bytes with the timestamp, the version, the sequence and the variant written over them;
-- `0x70 | x` is `112 + x` for the four bits of `x`, and `(x & 0x3f) | 0x80` is `128 + x % 64`.
unfoldable pub stamp_id : ℕ → ℕ → Bytes → Bytes
unfolding timestamp_bytes
stamp_id milli sequence (b0 ∷ b1 ∷ b2 ∷ b3 ∷ b4 ∷ b5 ∷ b6 ∷ b7 ∷ b8 ∷ rest) =
    timestamp_bytes milli ((112 + (sequence / 256) % 16) ∷ sequence % 256 ∷ (128 + b8 % 64) ∷ rest)
stamp_id milli sequence other = other

-- The number that bytes write in base 256.
unfoldable pub uuid_from : ℕ → Bytes → Uuid
uuid_from acc [] = acc
uuid_from acc (b ∷ bs) = uuid_from (acc * 256 + b) bs

abbrev pub put_tick : ℕ × ℕ → Op (Unit {0})
put_tick t w = (ok tt, record w { id_unix_milli = t.0; id_sequence = t.1 })

abbrev pub tick_world : Time → Op (Unit {0})
tick_world at w = put_tick (tick (unix_milli at) (w.id_unix_milli, w.id_sequence)) w

abbrev pub stamped : Bytes → Op Uuid
stamped b w = (ok (uuid_from 0 (stamp_id w.id_unix_milli w.id_sequence b)), w)

module _ (env : Env) where
  unfoldable pub new_id : Op Uuid
  new_id = do at ← now env; tick_world at; b ← random_bytes env; stamped b
