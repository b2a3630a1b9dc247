-- ===== src/Wire/Frame/Laws.antt =====
-- A frame is decoded from the front of any buffer that holds it, and no earlier.
use simulboot.Base.{
  ℕ, ◌+◌, ◌-◌, ◌/◌, ◌%◌, ◌^◌, ◌≤◌, ◌<◌, ◌≡◌, refl, sym, ap, ◌∙◌, ◌≢◌, [], ◌∷◌, ◌++◌, append-nil,
  arith, Bytes, length, take, drop, length-append, take-append, length-pos, ok, err,
}
use simulboot.Wire.{incomplete, max_frame_len}
use simulboot.Wire.Frame.{
  RoundTrips, Postcard, to_be_bytes, from_be_bytes, encode_frame, decode_body, decode_frame,
}

pub from_be_bytes-to_be_bytes :
    (n : ℕ)
    → n < 2 ^ 32
    → from_be_bytes (n / 2 ^ 24 % 256) (n / 2 ^ 16 % 256) (n / 2 ^ 8 % 256) (n % 256) ≡ n
unfolding from_be_bytes
from_be_bytes-to_be_bytes n h = omega arith

-- The frame around a body.
abbrev pub framed : Bytes → Bytes
framed body = to_be_bytes (length body) ++ body

pub length-framed : (body : Bytes) → length (framed body) ≡ 4 + length body
unfolding to_be_bytes
length-framed body = omega arith

module _ {T E : Type 0} (pc : Postcard T E) where
  pub encode_frame-framed :
      {m : T} {body : Bytes}
      → pc.to_stdvec m ≡ ok body
      → length body ≤ max_frame_len
      → encode_frame pc m ≡ ok (framed body)
  unfolding encode_frame
  encode_frame-framed {m} {body} h fits = ground (arith)

  decode_body-short :
      (len : ℕ) (body : Bytes)
      → len ≤ max_frame_len
      → length body < len
      → decode_body pc len body ≡ err (incomplete (4 + len) (4 + length body))
  unfolding decode_body
  decode_body-short len body h k = ground arith

  decode_body-full :
      {m : T} (body rest : Bytes)
      → length body ≤ max_frame_len
      → pc.from_bytes body ≡ ok m
      → decode_body pc (length body) (body ++ rest) ≡ ok (m, 4 + length body)
  unfolding decode_body
  decode_body-full body rest h k = ground (arith, take-append body rest, length-append body rest)

  pub decode_frame-framed :
      {m : T} (body rest : Bytes)
      → length body ≤ max_frame_len
      → pc.from_bytes body ≡ ok m
      → decode_frame pc (framed body ++ rest) ≡ ok (m, 4 + length body)
  unfolding decode_frame to_be_bytes
  decode_frame-framed body rest h k =
      rw (from_be_bytes-to_be_bytes (length body) (omega arith)) (decode_body-full body rest h k)

  -- Less than the frame asks for more.
  pub decode_frame-partial :
      (body rest buf more : Bytes)
      → length body ≤ max_frame_len
      → buf ++ more ≡ framed body ++ rest
      → length buf < 4 + length body
      → (needed : ℕ) × (decode_frame pc buf ≡ err (incomplete needed (length buf)))
        × (length buf < needed)
        × (needed ≤ 4 + length body)
  unfolding decode_frame to_be_bytes
  decode_frame-partial body rest [] more h e k = (4, refl, omega arith, omega arith)
  decode_frame-partial body rest (a ∷ []) more h e k = (4, refl, omega arith, omega arith)
  decode_frame-partial body rest (a ∷ b ∷ []) more h e k = (4, refl, omega arith, omega arith)
  decode_frame-partial body rest (a ∷ b ∷ c ∷ []) more h e k = (4, refl, omega arith, omega arith)
  decode_frame-partial body rest (a ∷ b ∷ c ∷ d ∷ buf) more h e k = (
    4 + length body,
    ground (arith, from_be_bytes-to_be_bytes (length body), decode_body-short (length body) buf),
    omega arith,
    omega arith,
  )

  encode_frame_inv :
      {m : T} {f : Bytes}
      → encode_frame pc m ≡ ok f
      → (body : Bytes) × (pc.to_stdvec m ≡ ok body)
        × (f ≡ to_be_bytes (length body % 2 ^ 32) ++ body)
  unfolding encode_frame
  encode_frame_inv {m} h = ground arith

  -- What an encoded frame of at most the maximal length looks like.
  pub encode_frame-eq-framed :
      {m : T} {f : Bytes}
      → encode_frame pc m ≡ ok f
      → length f ≤ 4 + max_frame_len
      → (body : Bytes) × (pc.to_stdvec m ≡ ok body)
        × (f ≡ framed body)
        × (length f ≡ 4 + length body)
        × (length body ≤ max_frame_len)
  encode_frame-eq-framed {m} {f} h fits =
      let (body, written, shape) = encode_frame_inv h in
      let long : length f ≡ 4 + length body = ap length shape ∙ unfold to_be_bytes in omega arith in
      let small : length body ≤ max_frame_len = omega arith in
      let same : length body % 2 ^ 32 ≡ length body = omega arith in
      (body, written, rw same at shape, long, small)

  -- A message that is encoded into at most 4 + MAX_FRAME_LEN bytes is decoded from the front of
  -- every buffer that begins with its frame, and the count of bytes consumed is the frame's length,
  -- if postcard reads back what it writes.
  pub decode_frame-encode_frame :
      (m : T) (f rest : Bytes)
      → RoundTrips pc
      → encode_frame pc m ≡ ok f
      → length f ≤ 4 + max_frame_len
      → decode_frame pc (f ++ rest) ≡ ok (m, length f)
  decode_frame-encode_frame m f rest trip h fits =
      let (body, written, shape, long, small) = encode_frame-eq-framed h fits in
      rw (long, shape) (decode_frame-framed body rest small (trip m body written))

  -- Every proper prefix of a frame of at most 4 + MAX_FRAME_LEN bytes is reported incomplete, with the bytes at hand and with a
  -- need that is more than those and at most the frame: nothing is decoded early or refused.
  pub decode_frame-prefix :
      (m : T) (f pre post : Bytes)
      → encode_frame pc m ≡ ok f
      → length f ≤ 4 + max_frame_len
      → f ≡ pre ++ post
      → post ≢ []
      → (needed : ℕ) × (decode_frame pc pre ≡ err (incomplete needed (length pre)))
        × (length pre < needed)
        × (needed ≤ length f)
  decode_frame-prefix m f pre post h fits split proper =
      let (body, written, shape, long, small) = encode_frame-eq-framed h fits in
      let e : pre ++ post ≡ framed body ++ [] =
        sym split ∙ shape ∙ sym (append-nil (framed body)) in
      let pos : 0 < length post = length-pos post proper in
      let total : length f ≡ length pre + length post = ap length split ∙ length-append pre post in
      let (needed, r, lo, hi) = decode_frame-partial body [] pre post small e (omega arith) in
      (needed, r, lo, omega arith)

  decode_body_sound :
      (len : ℕ) (body : Bytes) {m : T} {n : ℕ}
      → decode_body pc len body ≡ ok (m, n)
      → (n ≡ 4 + len)
        × (len ≤ length body)
        × (len ≤ max_frame_len)
        × (pc.from_bytes (take len body) ≡ ok m)
  unfolding decode_body
  decode_body_sound len body h = ground arith

  -- Whatever the bytes, a decoded frame lies inside the buffer, its body is at most MAX_FRAME_LEN
  -- long, and the message is what postcard reads from exactly the bytes behind the prefix: draining
  -- the count that is returned never goes past the end.
  pub decode_frame_sound :
      (buf : Bytes) {m : T} {n : ℕ}
      → decode_frame pc buf ≡ ok (m, n)
      → (4 ≤ n)
        × (n ≤ length buf)
        × (n ≤ 4 + max_frame_len)
        × (pc.from_bytes (take (n - 4) (drop 4 buf)) ≡ ok m)
  unfolding decode_frame
  decode_frame_sound (a ∷ b ∷ c ∷ d ∷ body) {n = n} h =
      let (e, fits, small, read) = decode_body_sound (from_be_bytes a b c d) body h in
      let back : n - 4 ≡ from_be_bytes a b c d = omega arith in
      (omega arith, omega arith, omega arith, rw back read)
  decode_frame_sound [] h = cc
  decode_frame_sound (a ∷ []) h = cc
  decode_frame_sound (a ∷ b ∷ []) h = cc
  decode_frame_sound (a ∷ b ∷ c ∷ []) h = cc
