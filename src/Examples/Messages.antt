-- ===== src/Examples/Messages.antt =====
-- A postcard for a few messages of the structure channel, with one byte each: those about one surface.
use simulboot.Base.{
  ℕ, ◌≡◌, refl, sym, ap, inl, inr, Bool, true, false, ◌&&◌, [], ◌∷◌, arith, ◌==◌, if◌then◌else◌,
  Bool-cases, Bytes, bytes_eq, bytes_eq_iff, Result, ok, err,
}
use simulboot.Wire.{
  SurfaceAnnounce, Codec, h265, av1, OsKind, mac_os, windows, linux, StructureMessage, announce,
  suspend_ack, reconnect_ok, reconnect_fail, input_event, resize, suspend, reconnect, disconnect,
}
use simulboot.Wire.Frame.{Postcard, RoundTrips}

same_codec : Codec → Codec → Bool
same_codec h265 h265 = true
same_codec av1 av1 = true
same_codec h265 av1 = false
same_codec av1 h265 = false

same_os : OsKind → OsKind → Bool
same_os mac_os mac_os = true
same_os windows windows = true
same_os linux linux = true
same_os _ _ = false

same_codec_sound : (a b : Codec) → same_codec a b ≡ true → a ≡ b
unfolding same_codec
same_codec_sound h265 h265 h = refl
same_codec_sound av1 av1 h = refl
same_codec_sound h265 av1 h = cc
same_codec_sound av1 h265 h = cc

same_os_sound : (a b : OsKind) → same_os a b ≡ true → a ≡ b
unfolding same_os
same_os_sound mac_os mac_os h = refl
same_os_sound windows windows h = refl
same_os_sound linux linux h = refl
same_os_sound mac_os windows h = cc
same_os_sound mac_os linux h = cc
same_os_sound windows mac_os h = cc
same_os_sound windows linux h = cc
same_os_sound linux mac_os h = cc
same_os_sound linux windows h = cc

unfoldable pub same_announce : SurfaceAnnounce → SurfaceAnnounce → Bool
unfolding same_codec same_os
same_announce a b =
    bytes_eq a.id b.id
    && (bytes_eq a.name b.name
        && (a.width == b.width
            && (a.height == b.height
                && (same_codec a.codec b.codec
                    && (same_os a.provenance.os b.provenance.os
                        && (bytes_eq a.provenance.machine_name b.provenance.machine_name
                            && (bytes_eq a.provenance.tailscale_addr b.provenance.tailscale_addr
                                && bytes_eq a.provenance.capture_description
                                    b.provenance.capture_description)))))))

same_announce_sound : (a b : SurfaceAnnounce) → same_announce a b ≡ true → a ≡ b
unfolding same_announce
same_announce_sound a b h = ground (
  arith,
  bytes_eq_iff a.id b.id,
  bytes_eq_iff a.name b.name,
  same_codec_sound a.codec b.codec,
  same_os_sound a.provenance.os b.provenance.os,
  bytes_eq_iff a.provenance.machine_name b.provenance.machine_name,
  bytes_eq_iff a.provenance.tailscale_addr b.provenance.tailscale_addr,
  bytes_eq_iff a.provenance.capture_description b.provenance.capture_description,
)

module _ (own : SurfaceAnnounce) where
  unfoldable pub write_about : StructureMessage ℕ → Result (Unit {0}) Bytes
  write_about (announce a) = if same_announce a own then ok (1 ∷ []) else err tt
  write_about (reconnect_ok a) = if same_announce a own then ok (2 ∷ []) else err tt
  write_about suspend_ack = ok (3 ∷ [])
  write_about suspend = ok (4 ∷ [])
  write_about disconnect = ok (5 ∷ [])
  write_about (reconnect_fail reason) = err tt
  write_about (input_event sid event) = err tt
  write_about (resize sid width height) = err tt
  write_about (reconnect id) = err tt

  unfoldable pub read_about : Bytes → Result (Unit {0}) (StructureMessage ℕ)
  read_about (c ∷ []) =
      if c == 1
      then ok (announce own)
      else if c == 2
      then ok (reconnect_ok own)
      else if c == 3
      then ok suspend_ack
      else if c == 4
      then ok suspend
      else if c == 5
      then ok disconnect
      else err tt
  read_about _ = err tt

  abbrev pub about : Postcard (StructureMessage ℕ) (Unit {0})
  about = record { to_stdvec = write_about; from_bytes = read_about; take_from_bytes = λ s. err tt }

  is_one :
      (c : ℕ) (m : StructureMessage ℕ) (body : Bytes)
      → read_about (c ∷ []) ≡ ok m
      → c ∷ [] ≡ body
      → read_about body ≡ ok m
  is_one c m body h e = rw (← e) h

  pub about-RoundTrips : RoundTrips about
  unfolding write_about
  about-RoundTrips (announce a) body h = elim (Bool-cases (same_announce a own)) [
    | inl same ↦
        is_one 1 (announce a) body
          (unfold read_about in ap (λ b. ok (announce b)) (sym (same_announce_sound a own same)))
          (ground arith)
    | inr other ↦ ground arith
  ]
  about-RoundTrips (reconnect_ok a) body h = elim (Bool-cases (same_announce a own)) [
    | inl same ↦
        is_one 2 (reconnect_ok a) body
          (unfold read_about in
            ap (λ b. ok (reconnect_ok b)) (sym (same_announce_sound a own same)))
          (ground arith)
    | inr other ↦ ground arith
  ]
  about-RoundTrips suspend_ack body h =
      is_one 3 suspend_ack body (unfold read_about in refl) (ground arith)
  about-RoundTrips suspend body h = is_one 4 suspend body (unfold read_about in refl) (ground arith)
  about-RoundTrips disconnect body h =
      is_one 5 disconnect body (unfold read_about in refl) (ground arith)
  about-RoundTrips (reconnect_fail reason) body h = cc
  about-RoundTrips (input_event sid event) body h = cc
  about-RoundTrips (resize sid width height) body h = cc
  about-RoundTrips (reconnect id) body h = cc
