-- ===== src/Manager/Monotonic.antt =====
-- The identifiers that the generator draws increase.
use credbound.Prelude.{
  ℕ, ◌+◌, ◌*◌, ◌%◌, ◌^◌, ◌<◌, ◌≤◌, ◌≡◌, refl, ap, sym, ◌∙◌, [], ◌∷◌, arith, length,
}
use credbound.Types.{Uuid, Bytes, Result, ok, err}
use credbound.Manager.State.{World, Env, go_on}
use credbound.Manager.Ids.{tick, stamp_id, timestamp_bytes, uuid_from, new_id, unix_milli, stamped}

-- Every element is a byte.
abbrev pub AllBytes : Bytes → Type 0
AllBytes [] = Unit
AllBytes (b ∷ bs) = (b < 256) × AllBytes bs

-- The clock and the sequence move forward together.
pub tick-forward :
    (at milli sequence : ℕ)
    → sequence ≤ 4095
    → (milli * 4096 + sequence
        < (tick at (milli, sequence)).0 * 4096 + (tick at (milli, sequence)).1)
      × ((tick at (milli, sequence)).1 ≤ 4095)
unfolding tick
tick-forward at milli sequence h = ground arith

uuid_from-less :
    (a b : ℕ) (xs ys : Bytes)
    → a < b
    → length xs ≡ length ys
    → AllBytes xs
    → uuid_from a xs < uuid_from b ys
unfolding uuid_from
uuid_from-less a b [] [] h l xb = h
uuid_from-less a b [] (y ∷ ys) h l xb = absurd (omega arith)
uuid_from-less a b (x ∷ xs) [] h l xb = absurd (omega arith)
uuid_from-less a b (x ∷ xs) (y ∷ ys) h l xb =
    uuid_from-less (a * 256 + x) (b * 256 + y) xs ys (omega (arith, xb.0)) (omega arith) xb.1

six_bytes :
    (t : ℕ) (rest : Bytes) → t < 2 ^ 48 → uuid_from 0 (timestamp_bytes t rest) ≡ uuid_from t rest
unfolding uuid_from timestamp_bytes
six_bytes t rest h = ap (λ n. uuid_from n rest) (omega arith)

-- A stamped block is its clock and sequence followed by eight bytes.
stamped-value :
    (m s : ℕ) (b : Bytes)
    → m < 2 ^ 48
    → s ≤ 4095
    → length b ≡ 16
    → AllBytes b
    → (tail : Bytes) × (length tail ≡ 8)
      × AllBytes tail
      × (uuid_from 0 (stamp_id m s b) ≡ uuid_from (m * 65536 + (28672 + s)) tail)
unfolding stamp_id
stamped-value m s [] small low l all = absurd (omega arith)
stamped-value m s (x0 ∷ []) small low l all = absurd (omega arith)
stamped-value m s (x0 ∷ x1 ∷ []) small low l all = absurd (omega arith)
stamped-value m s (x0 ∷ x1 ∷ x2 ∷ []) small low l all = absurd (omega arith)
stamped-value m s (x0 ∷ x1 ∷ x2 ∷ x3 ∷ []) small low l all = absurd (omega arith)
stamped-value m s (x0 ∷ x1 ∷ x2 ∷ x3 ∷ x4 ∷ []) small low l all = absurd (omega arith)
stamped-value m s (x0 ∷ x1 ∷ x2 ∷ x3 ∷ x4 ∷ x5 ∷ []) small low l all = absurd (omega arith)
stamped-value m s (x0 ∷ x1 ∷ x2 ∷ x3 ∷ x4 ∷ x5 ∷ x6 ∷ []) small low l all = absurd (omega arith)
stamped-value m s (x0 ∷ x1 ∷ x2 ∷ x3 ∷ x4 ∷ x5 ∷ x6 ∷ x7 ∷ []) small low l all =
    absurd (omega arith)
stamped-value m s (x0 ∷ x1 ∷ x2 ∷ x3 ∷ x4 ∷ x5 ∷ x6 ∷ x7 ∷ x8 ∷ rest) small low l all = (
  (128 + x8 % 64) ∷ rest,
  omega arith,
  (omega arith, all.1.1.1.1.1.1.1.1.1),
  six_bytes m _ small
      ∙ (unfold uuid_from in ap (λ n. uuid_from (n * 256 + (128 + x8 % 64)) rest) (omega arith)),
)

-- The randomness that `io.ReadFull` gives: sixteen bytes.
abbrev pub GivesBlocks : Env → Type 0
GivesBlocks env = (n : ℕ) (b : Bytes) → env.random n ≡ ok b → (length b ≡ 16) × AllBytes b

module _ (env : Env) where
  new_id-ok :
      (w w' : World) (id : Uuid)
      → new_id env w ≡ (ok id, w')
      → (b : Bytes) × (env.random w.draws ≡ ok b)
        × (id ≡ uuid_from 0 (stamp_id w'.id_unix_milli w'.id_sequence b))
        × ((w'.id_unix_milli, w'.id_sequence)
            ≡ tick (unix_milli (env.clock w.clock_reads)) (w.id_unix_milli, w.id_sequence))
  unfolding new_id
  new_id-ok w w' id h = go (env.random w.draws) refl h
    where
      next : ℕ × ℕ
      next = tick (unix_milli (env.clock w.clock_reads)) (w.id_unix_milli, w.id_sequence)

      go :
          (r : Result Bytes)
          → env.random w.draws ≡ r
          → go_on stamped (
            r,
            record w {
              clock_reads = w.clock_reads + 1;
              id_unix_milli = next.0;
              id_sequence = next.1;
              draws = w.draws + 1;
            },
          )
            ≡ (ok id, w')
          → (b : Bytes) × (env.random w.draws ≡ ok b)
            × (id ≡ uuid_from 0 (stamp_id w'.id_unix_milli w'.id_sequence b))
            × ((w'.id_unix_milli, w'.id_sequence) ≡ next)
      go (err e) q h = absurd (cc)
      go (ok b) q h =
          let drawn : uuid_from 0 (stamp_id next.0 next.1 b) ≡ id = cc in
          let last = ap (λ r. r.1) h in
          (
            b,
            q,
            sym drawn
                ∙ ap (λ (x : World). uuid_from 0 (stamp_id x.id_unix_milli x.id_sequence b)) last,
            ap (λ (x : World). (x.id_unix_milli, x.id_sequence)) (sym last),
          )

  -- Suppose the randomness gives blocks of 16 bytes, the sequence after a first draw is at most
  -- 4095, a second draw starts from the clock and sequence of the first, and its clock is below
  -- 2^48 milliseconds. Then the second identifier, read as a number, is greater than the first,
  -- even when the clock stands still or goes back.
  pub new_id-increases :
      (w w1 v w2 : World) (first second : Uuid)
      → GivesBlocks env
      → w1.id_sequence ≤ 4095
      → v.id_unix_milli ≡ w1.id_unix_milli
      → v.id_sequence ≡ w1.id_sequence
      → w2.id_unix_milli < 2 ^ 48
      → new_id env w ≡ (ok first, w1)
      → new_id env v ≡ (ok second, w2)
      → first < second
  new_id-increases w w1 v w2 first second blocks low same_milli same_sequence small h k =
      let (b, drawn, is_first, ticked) = new_id-ok w w1 first h in
      let (c, drawn', is_second, ticked') = new_id-ok v w2 second k in
      let (forward, low') =
        tick-forward (unix_milli (env.clock v.clock_reads)) v.id_unix_milli v.id_sequence
          (omega (arith, low, same_sequence)) in
      let at_milli = ap (λ p. p.0) ticked' in
      let at_sequence = ap (λ p. p.1) ticked' in
      let (block, bytes) = blocks w.draws b drawn in
      let (block', bytes') = blocks v.draws c drawn' in
      let (t1, l1, a1, v1) =
        stamped-value w1.id_unix_milli w1.id_sequence b
          (omega
            (arith, forward, low', at_milli, at_sequence, same_milli, same_sequence, small, low))
          low block bytes in
      let (t2, l2, a2, v2) =
        stamped-value w2.id_unix_milli w2.id_sequence c small (omega (arith, low', at_sequence))
          block' bytes' in
      let less =
        uuid_from-less (w1.id_unix_milli * 65536 + (28672 + w1.id_sequence))
          (w2.id_unix_milli * 65536 + (28672 + w2.id_sequence)) t1 t2
          (omega (arith, forward, low', at_milli, at_sequence, same_milli, same_sequence, low))
          (l1 ∙ sym l2) a1 in
      rw (is_first, is_second, v1, v2) less
