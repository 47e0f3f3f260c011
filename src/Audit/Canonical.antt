-- ===== src/Audit/Canonical.antt =====
-- No two distinct contents share an encoding, and equal hashes of distinct contents exhibit a
-- collision of SHA-256.
use credbound.Prelude.{◌≡◌, refl, length}
use credbound.Types.{Crypto, AuditEvent}
use credbound.Audit.Encoding.{frames}
use credbound.Audit.Frames.{frames-injective}
use credbound.Audit.Hash.{canonical}

module _ (crypto : Crypto) where
  -- Two audit events whose framed encodings are the same byte string have the same thirteen
  -- hashed fields.
  pub frames-canonical_injective :
      (e f : AuditEvent)
      → frames (canonical crypto e) ≡ frames (canonical crypto f)
      → canonical crypto e ≡ canonical crypto f
  frames-canonical_injective e f h = frames-injective _ _ same_length h
    where
      same_length : length (canonical crypto e) ≡ length (canonical crypto f)
      same_length = unfold canonical in refl
