-- ===== src/Wire/Stream/Progress.antt =====
-- `read_message` of simulboot-client/src/conn.rs and simulboot-host/src/main.rs: what a message costs.
use simulboot.Base.{
  ℕ, ◌+◌, ◌≤◌, ◌≡◌, refl, ◌⊎◌, inl, inr, Option, none, some, List, [], ◌∷◌, ◌++◌, arith, Bytes,
  length, length-append, length-drop, Result, ok, err,
}
use simulboot.Wire.{WireError, incomplete, too_large, postcard}
use simulboot.Wire.Frame.{Postcard, decode_frame}
use simulboot.Wire.Frame.Laws.{decode_frame_sound}
use simulboot.Wire.Stream.{
  ReadError, ReadResult, received, finished, failed, Received, on_decoded, at_end, read_message,
}
use simulboot.Wire.Stream.Laws.{contents}

-- The bytes that a reader has at hand and those to come.
abbrev pub pending : List ReadResult → Bytes → ℕ
pending stream buf = length buf + length (contents stream)

module _ {T E : Type 0} where
  -- A message that is handed out has taken four bytes at least off `total`.
  abbrev pub Costs : ℕ → Received T E → Type 0
  Costs total got = (m : T) → got.result ≡ ok (some m) → pending got.stream got.buf + 4 ≤ total

  at_end-Costs :
      (buf : Bytes) (stream : List ReadResult) (total : ℕ)
      → Costs total (at_end {T = T} {E = E} buf stream)
  unfolding at_end
  at_end-Costs [] stream total m h = cc
  at_end-Costs (b ∷ bs) stream total m h = cc

  on_decoded-Costs :
      (decoded : Result (WireError E) (T × ℕ)) (buf : Bytes) (stream : List ReadResult)
      (more : Received T E)
      → ((m : T) (n : ℕ) → decoded ≡ ok (m, n) → (4 ≤ n) × (n ≤ length buf))
      → Costs (pending stream buf) more
      → Costs (pending stream buf) (on_decoded decoded buf stream more)
  unfolding on_decoded
  on_decoded-Costs (ok (msg, n)) buf stream more sound later m' h =
      let (least, inside) = sound msg n refl in omega (arith, length-drop n buf)
  on_decoded-Costs (err (incomplete need have)) buf stream more sound later m' h = later m' h
  on_decoded-Costs (err (too_large len most)) buf stream more sound later m' h = cc
  on_decoded-Costs (err (postcard e)) buf stream more sound later m' h = cc

  -- What a call comes to: a message, the clean end, or an error.
  pub result-cases :
      (r : Result (ReadError E) (Option T))
      → ((m : T) × (r ≡ ok (some m))) ⊎ ((r ≡ ok none) ⊎ ((e : ReadError E) × (r ≡ err e)))
  result-cases (ok (some m)) = inl (m, refl)
  result-cases (ok none) = inr (inl refl)
  result-cases (err e) = inr (inr (e, refl))

  module _ (pc : Postcard T E) where
    inside_buffer :
        (buf : Bytes) (m : T) (n : ℕ) → decode_frame pc buf ≡ ok (m, n) → (4 ≤ n) × (n ≤ length buf)
    inside_buffer buf m n h =
        let (least, inside, _, _) = decode_frame_sound pc buf h in (least, inside)

    pub read_message-Costs :
        (stream : List ReadResult) (buf : Bytes)
        → Costs (pending stream buf) (read_message pc stream buf)
    unfolding read_message
    read_message-Costs [] buf =
        on_decoded-Costs _ buf [] _ (inside_buffer buf) (at_end-Costs buf [] _)
    read_message-Costs (received [] ∷ rest) buf =
        on_decoded-Costs _ buf (received [] ∷ rest) _ (inside_buffer buf) (at_end-Costs buf rest _)
    read_message-Costs (received (b ∷ bs) ∷ rest) buf =
        on_decoded-Costs _ buf (received (b ∷ bs) ∷ rest) _ (inside_buffer buf) (λ m h. omega (
          arith,
          read_message-Costs rest (buf ++ b ∷ bs) m h,
          length-append buf (b ∷ bs),
          length-append (b ∷ bs) (contents rest),
        ))
    read_message-Costs (finished ∷ rest) buf =
        on_decoded-Costs _ buf (finished ∷ rest) _ (inside_buffer buf) (at_end-Costs buf rest _)
    read_message-Costs (failed ∷ rest) buf =
        on_decoded-Costs _ buf (failed ∷ rest) _ (inside_buffer buf) (λ m h. cc)
