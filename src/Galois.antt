-- ===== src/Galois.antt =====
-- simulboot-common/src/galois.rs: v1 images, and the maps between v0 and v1 images. `f32` and `f64`
-- are the two floating-point types. Laws has the laws of the maps, Validate what `validate` accepts,
-- Write the v1 document and Parse the reader of the coefficient block.
pub mod Validate
pub mod Laws
pub mod Write
pub mod Markup
pub mod Parse
pub mod Block
pub mod Passing
pub mod Reading
pub mod Whole
pub mod RoundTrip
mod Examples
use simulboot.Base.{
  ℕ, ◌+◌, Bool, true, false, not, ◌&&◌, Option, none, some, List, [], ◌∷◌, ◌++◌, map, ◌==◌,
  if◌then◌else◌, Bytes, codes, length, bytes_eq, Result, ok, err,
}
use simulboot.Base.Decimal.{to_string}
use simulboot.Float.{Float}
use simulboot.Wire.{SurfaceId}
use simulboot.Session.{
  SessionImage, SurfaceEntry, Crypto, SessionError, malformed, surface_id_to_str,
}
use simulboot.Session.Write.{compute_id, canonical_bytes}
use simulboot.Coefficients.{Coefficient, top, is_top, coefficient_leq}

pub record SurfaceCoefficient (D : Type 0) : Type 0 where
  pub surface_ref : SurfaceId
  pub coefficient : Coefficient D

pub record SessionImageV1 (F D : Type 0) : Type 0 where
  pub base : SessionImage F
  pub coefficients : List (SurfaceCoefficient D)

module _ {D : Type 0} where
  -- `coefficients.iter().filter(|c| c.surface_ref == id).count()`
  unfoldable pub count_refs : SurfaceId → List (SurfaceCoefficient D) → ℕ
  count_refs id [] = 0
  count_refs id (c ∷ cs) = (if bytes_eq c.surface_ref id then 1 else 0) + count_refs id cs

  -- `coefficient_for`, on the list of coefficients
  unfoldable pub find_coefficient : SurfaceId → List (SurfaceCoefficient D) → Option (Coefficient D)
  find_coefficient id [] = none
  find_coefficient id (c ∷ cs) =
      if bytes_eq c.surface_ref id then some c.coefficient else find_coefficient id cs

module _ {ℓ} {A : Type ℓ} where
  -- `iter().all(..)`
  unfoldable pub all : (A → Bool) → List A → Bool
  all p [] = true
  all p (x ∷ xs) = p x && all p xs

module _ (f32 f64 : Float) (cr : Crypto) where
  abbrev pub ImageV1 : Type 0
  ImageV1 = SessionImageV1 f32.Carrier f64.Carrier

  unfoldable pub session_id : ImageV1 → Bytes
  session_id self = compute_id f32 cr self.base

  -- the loop of `validate`
  validate_surfaces :
      List (SurfaceCoefficient f64.Carrier) → List SurfaceEntry → Result SessionError (Unit {0})
  validate_surfaces cs [] = ok tt
  validate_surfaces cs (surf ∷ rest) =
      let n = count_refs surf.id cs in
      if not (n == 1)
      then err (
          malformed (
            codes "surface "
            ++ (surface_id_to_str cr surf.id
                ++ (codes " has " ++ (to_string n ++ codes " coefficients (expected 1)")))))
      else validate_surfaces cs rest

  unfoldable pub validate : ImageV1 → Result SessionError (Unit {0})
  unfolding validate_surfaces
  validate self =
      if not (length self.coefficients == length self.base.surfaces)
      then err (
          malformed (
            codes "v1 image has "
            ++ (to_string (length self.base.surfaces)
                ++ (codes " surfaces but "
                    ++ (to_string (length self.coefficients) ++ codes " coefficients")))))
      else validate_surfaces self.coefficients self.base.surfaces

  unfoldable pub coefficient_for : ImageV1 → SurfaceId → Option (Coefficient f64.Carrier)
  coefficient_for self id = find_coefficient id self.coefficients

  unfoldable pub coeff_is_top : ImageV1 → Bool
  unfolding all
  coeff_is_top self = all (λ c. is_top f64 c.coefficient) self.coefficients

  unfoldable pub base_eq : ImageV1 → ImageV1 → Bool
  base_eq self other =
      bytes_eq (canonical_bytes f32 cr self.base) (canonical_bytes f32 cr other.base)

  -- `is_some_and(|o| sc.coefficient.leq(o))`
  below_found : Coefficient f64.Carrier → Option (Coefficient f64.Carrier) → Bool
  below_found c none = false
  below_found c (some o) = coefficient_leq f64 c o

  unfoldable pub leq : ImageV1 → ImageV1 → Bool
  unfolding below_found all coefficient_for
  leq self other =
      if not (base_eq self other)
      then false
      else all (λ sc. below_found sc.coefficient (coefficient_for other sc.surface_ref))
          self.coefficients
        && length self.coefficients == length other.coefficients

  unfoldable pub alpha : ImageV1 → SessionImage f32.Carrier
  alpha img = img.base

  pub top_for : SurfaceEntry → SurfaceCoefficient f64.Carrier
  top_for surf = record { surface_ref = surf.id; coefficient = top f64 }

  unfoldable pub gamma : SessionImage f32.Carrier → ImageV1
  unfolding top_for
  gamma base = record { base = base; coefficients = map top_for base.surfaces }
