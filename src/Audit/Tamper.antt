-- ===== src/Audit/Tamper.antt =====
-- Two logs that end in one head have the same contents, or exhibit a collision of SHA-256.
use credbound.Prelude.{
  ℕ, ◌+◌, ◌≡◌, ◌≢◌, refl, sym, ap, ◌∙◌, true, List, [], ◌∷◌, ◌++◌, length, arith, ◌⊎◌, inl, inr,
  bytes_equal, bytes_equal_eq, bytes_equal_refl, Bool-cases, map,
}
use credbound.Types.{Bytes, Crypto, AuditEvent, ok}
use credbound.Audit.Encoding.{frames}
use credbound.Audit.Frames.{split_length}
use credbound.Audit.Hash.{canonical, compute_audit_hash, or_genesis}
use credbound.Audit.Canonical.{frames-canonical_injective}
use credbound.Audit.Verify.{extends, verify_events}
use credbound.Audit.Chain.{verify_events-le}

module _ (crypto : Crypto) where
  -- Two byte strings with one digest.
  abbrev pub Collision : Type 0
  Collision = (x : Bytes) × (y : Bytes) × (x ≢ y) × (crypto.sha256 x ≡ crypto.sha256 y)

  equal_or_collision : (x y : Bytes) → crypto.sha256 x ≡ crypto.sha256 y → (x ≡ y) ⊎ Collision
  equal_or_collision x y h = elim (Bool-cases (bytes_equal x y)) [
    | inl e ↦ inl (bytes_equal_eq x y e)
    | inr e ↦ inr (x, y, λ p. absurd (ground (arith, bytes_equal_refl x, e, p)), h)
  ]

  or_genesis_present : (h : Bytes) → length h ≡ 32 → or_genesis crypto h ≡ h
  unfolding or_genesis
  or_genesis_present [] e = absurd (omega arith)
  or_genesis_present (x ∷ h) e = refl

  -- A hash binds the previous hash and the contents.
  compute_audit_hash-binds :
      (h k : Bytes) (e f : AuditEvent)
      → length h ≡ 32
      → length k ≡ 32
      → compute_audit_hash crypto h e ≡ compute_audit_hash crypto k f
      → ((h ≡ k) × (canonical crypto e ≡ canonical crypto f)) ⊎ Collision
  unfolding compute_audit_hash
  compute_audit_hash-binds h k e f hl kl same = elim (equal_or_collision _ _ same) [
    | inr c ↦ inr c
    | inl p ↦
        let q : h ++ frames (canonical crypto e) ≡ k ++ frames (canonical crypto f) =
          ap (λ z. z ++ frames (canonical crypto e)) (sym (or_genesis_present h hl))
          ∙ p
          ∙ ap (λ z. z ++ frames (canonical crypto f)) (or_genesis_present k kl) in
        let (same_head, rest) = split_length h k _ _ (hl ∙ sym kl) q in
        inl (same_head, frames-canonical_injective crypto e f rest)
  ]

  extends-hash :
      (h : Bytes) (n : ℕ) (e : AuditEvent)
      → extends crypto h n e ≡ true
      → e.hash ≡ compute_audit_hash crypto h e
  unfolding extends
  extends-hash h n e p = ground (arith, bytes_equal_eq e.hash (compute_audit_hash crypto h e))

  -- The first event of a verified log passes the tests, and the others verify after it.
  verify_events-cons :
      (h : Bytes) (n : ℕ) (e : AuditEvent) (es : List AuditEvent) (r : ℕ × Bytes)
      → verify_events crypto h n (e ∷ es) ≡ ok r
      → (extends crypto h n e ≡ true) × (verify_events crypto e.hash (n + 1) es ≡ ok r)
  unfolding verify_events
  verify_events-cons h n e es r p = ground arith

  not_shorter :
      (j h : Bytes) (n : ℕ) (e : AuditEvent) (es : List AuditEvent) (m : ℕ) (g : Bytes)
      → verify_events crypto h n (e ∷ es) ≡ ok (m, g)
      → verify_events crypto j n [] ≢ ok (m, g)
  unfolding verify_events
  not_shorter j h n e es m g p q = ground (
    arith,
    verify_events-le crypto e.hash (n + 1) es m g (verify_events-cons h n e es (m, g) p).1,
  )

  module _ (digest_length : (x : Bytes) → length (crypto.sha256 x) ≡ 32) where
    compute_audit_hash-length :
        (h : Bytes) (e : AuditEvent) → length (compute_audit_hash crypto h e) ≡ 32
    unfolding compute_audit_hash
    compute_audit_hash-length h e = digest_length _

    -- Suppose every SHA-256 digest has 32 bytes, and two event lists verify after the same
    -- sequence number, each from a previous hash of 32 bytes, to the same final sequence number
    -- and hash. Then the previous hashes and the hashed contents of all events are equal, or two
    -- distinct byte strings have one SHA-256 digest.
    pub tampering_needs_collision :
        (xs ys : List AuditEvent) (h k : Bytes) (n m : ℕ) (g : Bytes)
        → length h ≡ 32
        → length k ≡ 32
        → verify_events crypto h n xs ≡ ok (m, g)
        → verify_events crypto k n ys ≡ ok (m, g)
        → ((h ≡ k) × (map (canonical crypto) xs ≡ map (canonical crypto) ys)) ⊎ Collision
    tampering_needs_collision [] [] h k n m g hl kl p q = inl (unfold verify_events in cc, refl)
    tampering_needs_collision [] (y ∷ ys) h k n m g hl kl p q =
        absurd (not_shorter h k n y ys m g q p)
    tampering_needs_collision (x ∷ xs) [] h k n m g hl kl p q =
        absurd (not_shorter k h n x xs m g p q)
    tampering_needs_collision (x ∷ xs) (y ∷ ys) h k n m g hl kl p q =
        let (px, pxs) = verify_events-cons h n x xs (m, g) p in
        let (qy, qys) = verify_events-cons k n y ys (m, g) q in
        let hx = extends-hash h n x px in
        let hy = extends-hash k n y qy in
        elim (tampering_needs_collision xs ys x.hash y.hash (n + 1) m g
          (ap length hx ∙ compute_audit_hash-length h x)
          (ap length hy ∙ compute_audit_hash-length k y) pxs qys) [
            | inr c ↦ inr c
            | inl (same_hash, tails) ↦
                elim (compute_audit_hash-binds h k x y hl kl (sym hx ∙ same_hash ∙ hy)) [
                  | inr c ↦ inr c
                  | inl (same_head, heads) ↦ inl (same_head, cc)
                ]
          ]
