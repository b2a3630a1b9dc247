-- ===== src/Base/Fallible.antt =====
-- `Result<T, E>` with the `?` operator as bind.
use mathlib.Core.Path.{◌≡◌, refl}
use mathlib.Core.Option.{Option, none, some}

pub data Result {ℓ} (Failure : Type 0) (Value : Type ℓ) : Type ℓ where
  ok : Value → Result Failure Value
  err : Failure → Result Failure Value

-- `Option::ok_or`, and `ok_or_else` with its error computed.
abbrev pub ok_or {ℓ} : {E : Type 0} {A : Type ℓ} → Option A → E → Result E A
ok_or (some value) failure = ok value
ok_or none failure = err failure

module _ {ℓ κ} {Failure : Type 0} {From : Type ℓ} {To : Type κ} where
  infixl 5 ◌>>=◌
  abbrev pub ◌>>=◌ : Result Failure From → (From → Result Failure To) → Result Failure To
  err failure >>= next = err failure
  ok value >>= next = next value

  -- A `?` that went through.
  pub >>=-eq-ok :
      (first : Result Failure From) (next : From → Result Failure To) {last : To}
      → first >>= next ≡ ok last
      → (value : From) × (first ≡ ok value) × (next value ≡ ok last)
  >>=-eq-ok (err failure) next went = cc
  >>=-eq-ok (ok value) next went = (value, refl, went)
