-- ===== src/Session/Identity.antt =====
-- The content id: `verify`, and what an id says of an image.
use simulboot.Base.{
  ◌≡◌, refl, sym, ap, ◌↔◌, false, Option, none, some, arith, if◌then◌else◌, Bytes, codes, bytes_eq,
  bytes_eq_iff, Result, ok, err,
}
use simulboot.Float.{Float, HasZero, Printable, Ordered}
use simulboot.Session.{SessionImage, Crypto, HexLaws, SessionError, malformed, integrity_mismatch}
use simulboot.Session.Write.{canonical_bytes, compute_id, with_computed_id, write_doc_with_id}
use simulboot.Session.Write.Inj.{SameContent, canonical_bytes_inj, skip}

module _ (f : Float) (cr : Crypto) where
  open f use {Carrier}

  verify_declared : Option Bytes → Bytes → Result SessionError (Unit {0})
  verify_declared (some declared) computed =
      if bytes_eq declared computed then ok tt else err (integrity_mismatch declared computed)
  verify_declared none computed = err (malformed (codes "no id to verify against"))

  unfoldable pub verify : SessionImage Carrier → Result SessionError (Unit {0})
  unfolding verify_declared
  verify self = verify_declared self.id (compute_id f cr self)

  verify_declared_iff :
      (id : Option Bytes) (computed : Bytes)
      → (verify_declared id computed ≡ ok tt) ↔ (id ≡ some computed)
  unfolding verify_declared
  verify_declared_iff none computed = ((λ h. cc), λ h. cc)
  verify_declared_iff (some d) computed =
      ((λ h. ground (arith, bytes_eq_iff d computed)), λ h. ground (arith, bytes_eq_iff d computed))

  -- `verify` accepts exactly the images whose declared id is the content hash.
  pub verify_iff :
      (img : SessionImage Carrier) → (verify img ≡ ok tt) ↔ (img.id ≡ some (compute_id f cr img))
  unfolding verify
  verify_iff img = verify_declared_iff img.id (compute_id f cr img)

  -- The hash does not depend on the declared id.
  pub compute_id_id :
      (img : SessionImage Carrier) (id : Option Bytes)
      → compute_id f cr (record img { id = id }) ≡ compute_id f cr img
  unfolding compute_id canonical_bytes write_doc_with_id
  compute_id_id img id = refl

  -- An image with its computed id verifies, whatever id it had before.
  pub verify-with_computed_id :
      (img : SessionImage Carrier) → verify (with_computed_id f cr img) ≡ ok tt
  unfolding with_computed_id
  verify-with_computed_id img = (verify_iff _).1 (ap some (sym (compute_id_id img _)))

  -- No two of these texts have one digest.
  abbrev pub NoCollision : Bytes → Bytes → Type 0
  NoCollision x y = cr.digest x ≡ cr.digest y → x ≡ y

  compute_id_inj :
      HexLaws cr
      → (a b : SessionImage Carrier) → NoCollision (canonical_bytes f cr a) (canonical_bytes f cr b)
      → compute_id f cr a ≡ compute_id f cr b
      → canonical_bytes f cr a ≡ canonical_bytes f cr b
  unfolding compute_id
  compute_id_inj laws a b apart e =
      let same = skip (codes "sha256:") e in
      apart (
        cc (
          laws.decode-encode (cr.digest (canonical_bytes f cr a)),
          laws.decode-encode (cr.digest (canonical_bytes f cr b)),
        ))

  -- Two images that verify and declare one id have the same content, if their canonical forms are no
  -- collision of the hash, their scroll positions are numbers, and floats and hex print as they
  -- should: an image altered in any field is refused.
  pub verify_same :
      Ordered f
      → HasZero f
      → Printable f
      → HexLaws cr
      → (a b : SessionImage Carrier) → f.is_nan a.layout.scroll_pos ≡ false
      → f.is_nan b.layout.scroll_pos ≡ false
      → NoCollision (canonical_bytes f cr a) (canonical_bytes f cr b)
      → a.id ≡ b.id
      → verify a ≡ ok tt
      → verify b ≡ ok tt
      → SameContent f a b
  verify_same ord zero_ok printable laws a b na nb apart e va vb =
      let ia = (verify_iff a).0 va in
      let ib = (verify_iff b).0 vb in
      canonical_bytes_inj f ord zero_ok printable cr laws a b na nb
        (compute_id_inj laws a b apart (cc))
