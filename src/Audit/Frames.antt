-- ===== src/Audit/Frames.antt =====
-- The length-prefixed encoding loses nothing: equal encodings have equal fields.
use mathlib.Core.List.{append_assoc}
use credbound.Prelude.{
  ℕ, zero, suc, ◌+◌, ◌-◌, ◌*◌, ◌/◌, ◌%◌, ◌<◌, ◌≡◌, ◌≢◌, refl, sym, ap, ◌∙◌, List, [], ◌∷◌, ◌++◌,
  length, arith, Bool-cases, inl, inr, ltb, ltb→lt,
}
use credbound.Types.{Bytes}
use credbound.Audit.Encoding.{digits, decimal, frame, frames}

-- The number that decimal digits stand for.
value_from : ℕ → Bytes → ℕ
value_from acc [] = acc
value_from acc (d ∷ ds) = value_from (acc * 10 + (d - b'0')) ds

value_from-snoc :
    (acc d : ℕ) (ds : Bytes) → value_from acc (ds ++ d ∷ []) ≡ value_from acc ds * 10 + (d - b'0')
unfolding value_from
value_from-snoc acc d [] = refl
value_from-snoc acc d (x ∷ ds) = value_from-snoc (acc * 10 + (x - b'0')) d ds

value-digits : (fuel n : ℕ) → n < fuel → value_from 0 (digits fuel n) ≡ n
unfolding digits value_from
value-digits zero n h = elim h [ ]
value-digits (suc fuel) n h = elim (Bool-cases (ltb n 10)) [
  | inl small ↦ rw small (omega arith)
  | inr big ↦
      ground (
        arith,
        value_from-snoc 0 (b'0' + n % 10) (digits fuel (n / 10)),
        value-digits fuel (n / 10),
      )
]

decimal-injective : (m n : ℕ) → decimal m ≡ decimal n → m ≡ n
unfolding decimal
decimal-injective m n h =
    omega (arith, ap (value_from 0) h, value-digits (suc m) m, value-digits (suc n) n)

-- No byte of the list is a colon.
abbrev NoColon : Bytes → Type 0
NoColon [] = Unit
NoColon (d ∷ ds) = (d ≢ b':') × NoColon ds

NoColon-snoc : (d : ℕ) (ds : Bytes) → d ≢ b':' → NoColon ds → NoColon (ds ++ d ∷ [])
NoColon-snoc d [] h hs = (h, tt)
NoColon-snoc d (x ∷ ds) h hs = (hs.0, NoColon-snoc d ds h hs.1)

digits-NoColon : (fuel n : ℕ) → NoColon (digits fuel n)
unfolding digits
digits-NoColon zero n = tt
digits-NoColon (suc fuel) n = elim (Bool-cases (ltb n 10)) [
  | inl small ↦ rw small (omega (arith, ltb→lt n 10 small), tt)
  | inr big ↦ rw big (
      NoColon-snoc (b'0' + n % 10) (digits fuel (n / 10)) (omega arith)
        (digits-NoColon fuel (n / 10)))
]

decimal-NoColon : (n : ℕ) → NoColon (decimal n)
unfolding decimal
decimal-NoColon n = digits-NoColon (suc n) n

-- Two lists that agree up to their first colons agree before and after them.
split_colon :
    (xs ys s t : Bytes)
    → NoColon xs
    → NoColon ys
    → xs ++ (b':' ∷ s) ≡ ys ++ (b':' ∷ t)
    → (xs ≡ ys) × (s ≡ t)
split_colon [] [] s t hx hy e = (refl, cc)
split_colon [] (y ∷ ys) s t hx hy e = ground arith
split_colon (x ∷ xs) [] s t hx hy e = ground arith
split_colon (x ∷ xs) (y ∷ ys) s t hx hy e = ground (arith, split_colon xs ys s t hx.1 hy.1)

-- Two lists of one length that agree with what follows them agree.
pub split_length :
    (xs ys s t : Bytes) → length xs ≡ length ys → xs ++ s ≡ ys ++ t → (xs ≡ ys) × (s ≡ t)
split_length [] [] s t h e = (refl, e)
split_length [] (y ∷ ys) s t h e = absurd (omega arith)
split_length (x ∷ xs) [] s t h e = absurd (omega arith)
split_length (x ∷ xs) (y ∷ ys) s t h e = ground (arith, split_length xs ys s t)

frame-append : (v s : Bytes) → frame v ++ s ≡ decimal (length v) ++ (b':' ∷ (v ++ (b';' ∷ s)))
unfolding frame
frame-append v s = simp append_assoc

-- A framed field is delimited: what follows it does not matter.
pub frame_prefix : (v w s t : Bytes) → frame v ++ s ≡ frame w ++ t → (v ≡ w) × (s ≡ t)
frame_prefix v w s t e = (inner.0, ground (arith, inner.1))
  where
    split : (decimal (length v) ≡ decimal (length w)) × (v ++ (b';' ∷ s) ≡ w ++ (b';' ∷ t))
    split =
        split_colon (decimal (length v)) (decimal (length w)) _ _ (decimal-NoColon (length v))
          (decimal-NoColon (length w)) (sym (frame-append v s) ∙ e ∙ frame-append w t)

    inner : (v ≡ w) × (b';' ∷ s ≡ b';' ∷ t)
    inner = split_length v w _ _ (decimal-injective _ _ split.0) split.1

pub frames-injective :
    (vs ws : List Bytes) → length vs ≡ length ws → frames vs ≡ frames ws → vs ≡ ws
unfolding frames
frames-injective [] [] h e = refl
frames-injective [] (w ∷ ws) h e = absurd (omega arith)
frames-injective (v ∷ vs) [] h e = absurd (omega arith)
frames-injective (v ∷ vs) (w ∷ ws) h e =
    ground (arith, frame_prefix v w (frames vs) (frames ws) e, frames-injective vs ws)
