-- ===== src/Wire/Frame.antt =====
-- simulboot-common/src/wire.rs: `encode_frame` and `decode_frame`. A `usize` has 64 bits.
pub mod Laws
use simulboot.Base.{
  ℕ, ◌+◌, ◌*◌, ◌/◌, ◌%◌, ◌^◌, ◌≡◌, [], ◌∷◌, ◌++◌, ltb, if◌then◌else◌, Bytes, length, take, Result,
  ok, err,
}
use simulboot.Wire.{WireError, postcard, incomplete, too_large, max_frame_len}

-- What the code uses of the postcard crate, at one message type.
pub record Postcard (T E : Type 0) : Type 0 where
  pub to_stdvec : T → Result E Bytes
  pub from_bytes : Bytes → Result E T
  -- `take_from_bytes`: a value, and the bytes behind it
  pub take_from_bytes : Bytes → Result E (T × Bytes)

-- The documented round trip: what `to_stdvec` wrote, `from_bytes` reads back.
abbrev pub RoundTrips : {T E : Type 0} → Postcard T E → Type 0
RoundTrips {T} pc = (m : T) (body : Bytes) → pc.to_stdvec m ≡ ok body → pc.from_bytes body ≡ ok m

-- `u32::to_be_bytes`
unfoldable pub to_be_bytes : ℕ → Bytes
to_be_bytes n = (n / 2 ^ 24 % 256) ∷ (n / 2 ^ 16 % 256) ∷ (n / 2 ^ 8 % 256) ∷ (n % 256) ∷ []

-- `u32::from_be_bytes`
unfoldable pub from_be_bytes : ℕ → ℕ → ℕ → ℕ → ℕ
from_be_bytes a b c d = a * 2 ^ 24 + b * 2 ^ 16 + c * 2 ^ 8 + d

module _ {T E : Type 0} (pc : Postcard T E) where
  unfoldable pub encode_frame : T → Result (WireError E) Bytes
  encode_frame msg = elim (pc.to_stdvec msg) [
    | ok body ↦ ok (to_be_bytes (length body % 2 ^ 32) ++ body)
    | err e ↦ err (postcard e)
  ]

  -- `decode_frame` behind the length prefix: `len` is the prefix, `body` is `buf[4..]`.
  unfoldable pub decode_body : ℕ → Bytes → Result (WireError E) (T × ℕ)
  decode_body len body =
      if ltb max_frame_len len
      then err (too_large len max_frame_len)
      else if ltb (4 + length body) (4 + len)
      then err (incomplete (4 + len) (4 + length body))
      else elim (pc.from_bytes (take len body)) [
        | ok msg ↦ ok (msg, 4 + len)
        | err e ↦ err (postcard e)
      ]

  unfoldable pub decode_frame : Bytes → Result (WireError E) (T × ℕ)
  decode_frame (a ∷ b ∷ c ∷ d ∷ body) = decode_body (from_be_bytes a b c d) body
  decode_frame buf = err (incomplete 4 (length buf))
