-- ===== src/Fetch/Image.antt =====
-- simulboot-client/src/session/mod.rs: `fetch_image`. `get` is `http_get` on the network, `utf8` is
-- `String::from_utf8`, `show` the print of an error; the result of `verify` is dropped there.
use simulboot.Base.{
  ℕ, ◌≡◌, ap, ◌∙◌, ◌⊎◌, inl, inr, not, ◌||◌, Option, none, some, List, ◌++◌, arith, if◌then◌else◌,
  Bool-cases, Bytes, codes, bytes_eq, bytes_eq_iff, strip_prefix, Result, ok, err, ◌>>=◌, ok_or,
  >>=-eq-ok,
}
use simulboot.Float.{Float}
use simulboot.Session.{SessionError, SessionImage, Crypto}
use simulboot.Session.Write.{compute_id}
use simulboot.Session.Parse.{Event}
use simulboot.Session.Parse.Document.{from_xml}
use simulboot.Fetch.{parse_http_url, last_segment}

-- `with_context`, or `?` into an `anyhow` error
unfoldable pub shown : {E A : Type 0} → (E → Bytes) → Result E A → Result Bytes A
shown show (ok a) = ok a
shown show (err e) = err (show e)

module _ (f : Float) (cr : Crypto) (quoted : Bytes → Bytes) (show : SessionError → Bytes) where
  open f use {Carrier}

  -- `computed.strip_prefix("sha256:").unwrap_or(&computed)`
  unfoldable pub bare : Bytes → Bytes
  bare computed = elim (strip_prefix (codes "sha256:") computed) [
    | some hex ↦ hex
    | none ↦ computed
  ]

  -- The check of the document against the id in the URL.
  unfoldable pub check_url_id : Bytes → SessionImage Carrier → Result Bytes (SessionImage Carrier)
  check_url_id path image =
      let url_id = last_segment path in
      let computed = compute_id f cr image in
      if not (bytes_eq url_id computed || bytes_eq url_id (bare computed))
      then err (
          codes "session image integrity check failed: url id "
          ++ quoted url_id
          ++ codes " != computed "
          ++ computed)
      else ok image

  module _ (read_events : Bytes → List (Result Bytes Event)) (utf8 : Bytes → Option Bytes)
      (get : Bytes → ℕ → Bytes → Result Bytes Bytes) where
    unfoldable pub fetch_image : Bytes → Result Bytes (SessionImage Carrier)
    fetch_image url = parse_http_url url >>= λ at. get at.0 at.1 at.2 >>= λ body.
        ok_or (utf8 body) (codes "session image was not valid UTF-8") >>= λ doc.
        shown show (from_xml f cr quoted read_events doc) >>= λ image. check_url_id at.2 image

    check_url_id_sound :
        (path : Bytes) (image : SessionImage Carrier) {img : SessionImage Carrier}
        → check_url_id path image ≡ ok img
        → (last_segment path ≡ compute_id f cr img)
          ⊎ (last_segment path ≡ bare (compute_id f cr img))
    unfolding check_url_id
    check_url_id_sound path image {img} h =
        elim (Bool-cases (bytes_eq (last_segment path) (compute_id f cr image))) [
          | inl whole ↦
              (let same : image ≡ img = ground arith in
                inl ((bytes_eq_iff _ _).0 whole ∙ ap (compute_id f cr) same))
          | inr differs ↦
              elim (Bool-cases (bytes_eq (last_segment path) (bare (compute_id f cr image)))) [
                | inl hex ↦
                    (let same : image ≡ img = ground arith in
                      inr ((bytes_eq_iff _ _).0 hex ∙ ap (λ i. bare (compute_id f cr i)) same))
                | inr apart ↦ ground arith
              ]
        ]

    -- Whatever the server sends: an image that `fetch_image` returns has as its content hash the last
    -- segment of the URL's path, with or without `sha256:`.
    pub fetch_image_sound :
        (url : Bytes) {img : SessionImage Carrier}
        → fetch_image url ≡ ok img
        → (host : Bytes) × (port : ℕ) × (path : Bytes) × (parse_http_url url
            ≡ ok (host, port, path))
          × ((last_segment path ≡ compute_id f cr img)
              ⊎ (last_segment path ≡ bare (compute_id f cr img)))
    unfolding fetch_image
    fetch_image_sound url h =
        let (at, parsed, h1) = >>=-eq-ok (parse_http_url url) _ h in
        let (body, _, h2) = >>=-eq-ok (get at.0 at.1 at.2) _ h1 in
        let (doc, _, h3) =
          >>=-eq-ok (ok_or (utf8 body) (codes "session image was not valid UTF-8")) _ h2 in
        let (image, _, h4) = >>=-eq-ok (shown show (from_xml f cr quoted read_events doc)) _ h3 in
        (at.0, at.1, at.2, parsed, check_url_id_sound at.2 image h4)
