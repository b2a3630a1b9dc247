-- ===== src/Client/Reload.antt =====
-- The client against itself, over simulboot-broker/src/lib.rs: a strip that suspend_and_serve has
-- suspended comes back in a client that resumes from the URL it has printed.
use simulboot.Base.{
  ℕ, ◌+◌, ◌≤◌, ◌≡◌, refl, ap, ◌∙◌, true, false, Option, some, List, [], ◌∷◌, ◌++◌, map, arith,
  Bytes, codes, Lacks, All, bytes_eq_refl, Result, ok,
}
use simulboot.Base.Decimal.{u16_max}
use simulboot.Float.{Float, Ordered, HasZero, Printable}
use simulboot.Session.{SessionImage, SessionError, Crypto, HexLaws, new_image}
use simulboot.Session.Write.{
  with_computed_id, compute_id, canonical_bytes, write_doc_with_id, declared_or_computed, fmt_f32,
  to_xml,
}
use simulboot.Session.Parse.{Event}
use simulboot.Session.Parse.Document.{sort_by_order, insert_by_order, from_xml}
use simulboot.Session.Parse.Laws.{Fits}
use simulboot.Session.Parse.RoundTrip.{printed, FocusFits}
use simulboot.Session.Escape.{Unescape, UnescapeLaws}
use simulboot.Session.Markup.{Reads}
use simulboot.Session.Markup.RoundTrip.{image_markup, from_xml-to_xml}
use simulboot.Strip.{Surface, Strip}
use simulboot.Strip.Order.{Numbered}
use simulboot.Fetch.{parse_http_url, last_segment}
use simulboot.Fetch.Lines.{IsAscii, IsWord}
use simulboot.Fetch.Image.{fetch_image, check_url_id, shown}
use simulboot.Fetch.Url.{
  session_url, parse_http_url-session_url, last_segment-session, content_id_lem,
}
use simulboot.Client.Checkpoint.{entry_of, image_from_strip}

module _ (f : Float) (cr : Crypto) {A : Type 0} (show_addr : A → Bytes) where
  -- The image of a suspended strip, its id, and its document.
  abbrev pub saved : Strip f.Carrier A → Bytes → SessionImage f.Carrier
  saved old created = image_from_strip f cr show_addr old created

  abbrev pub saved_id : Strip f.Carrier A → Bytes → Bytes
  saved_id old created = declared_or_computed f cr (saved old created).id (saved old created)

  abbrev pub saved_xml : Strip f.Carrier A → Bytes → Bytes
  saved_xml old created = to_xml f cr (saved old created)

  -- The document as bytes.
  abbrev pub saved_body : (Bytes → Bytes) → Strip f.Carrier A → Bytes → Bytes
  saved_body into_bytes old created = into_bytes (saved_xml old created)

module _ {F A : Type 0} (show_addr : A → Bytes) where
  -- The entries of numbered surfaces are sorted.
  sort_by_order-Numbered :
      (k : ℕ) (ss : List (Surface F A))
      → Numbered k ss
      → sort_by_order (map (entry_of show_addr) ss) ≡ map (entry_of show_addr) ss
  unfolding sort_by_order insert_by_order entry_of
  sort_by_order-Numbered k [] h = refl
  sort_by_order-Numbered k (s ∷ []) h = refl
  sort_by_order-Numbered k (s ∷ t ∷ ss) h =
      rw (sort_by_order-Numbered (k + 1) (t ∷ ss) h.1) (ground arith)

module _ (f : Float) (cr : Crypto) (quoted : Bytes → Bytes) (laws : HexLaws cr) (ord : Ordered f)
    (zero_ok : HasZero f) where
  -- A scroll position prints as its print reads.
  fmt_f32-printed : (v : f.Carrier) → fmt_f32 f (printed f cr quoted laws v) ≡ fmt_f32 f v
  unfolding fmt_f32 printed
  fmt_f32-printed v =
      let zero_eq : f.eq (f.of_ℕ 0) (f.of_ℕ 0) ≡ true =
        ord.le_antisymm _ _ (ord.le_refl _ zero_ok) (ord.le_refl _ zero_ok) in
      ground arith

  canonical_bytes-printed :
      (img : SessionImage f.Carrier) (id : Option Bytes)
      → canonical_bytes f cr (record img {
        id = id;
        layout = record {
          scroll_pos = printed f cr quoted laws img.layout.scroll_pos;
          focus = img.layout.focus;
        };
      })
        ≡ canonical_bytes f cr img
  unfolding canonical_bytes write_doc_with_id
  canonical_bytes-printed img id = rw (fmt_f32-printed img.layout.scroll_pos) refl

  module _ {A : Type 0} (show_addr : A → Bytes) where
    -- The image as it is read back.
    unfoldable pub reread : Strip f.Carrier A → Bytes → SessionImage f.Carrier
    reread old created = record (saved f cr show_addr old created) {
      id = some (saved_id f cr show_addr old created);
      layout = record { scroll_pos = printed f cr quoted laws old.scroll_pos; focus = old.focus };
    }

    compute_id-reread :
        (old : Strip f.Carrier A) (created : Bytes)
        → compute_id f cr (reread old created) ≡ saved_id f cr show_addr old created
    unfolding compute_id reread image_from_strip with_computed_id new_image canonical_bytes
        write_doc_with_id
    compute_id-reread old created =
        ap (λ b. codes "sha256:" ++ cr.encode (cr.digest b))
          (canonical_bytes-printed (saved f cr show_addr old created)
            (some (saved_id f cr show_addr old created)))

    pub from_xml-saved_xml :
        (unescape : Unescape)
        → UnescapeLaws unescape
        → (read_events : Bytes → List (Result Bytes Event)) (old : Strip f.Carrier A)
          (created : Bytes)
        → Printable f
        → All Fits (saved f cr show_addr old created).surfaces
        → FocusFits f cr quoted laws old.focus
        → f.is_nan old.scroll_pos ≡ false
        → Numbered 0 old.surfaces
        → Reads unescape read_events (image_markup f cr (saved f cr show_addr old created))
        → from_xml f cr quoted read_events (saved_xml f cr show_addr old created)
          ≡ ok (reread old created)
    unfolding reread image_from_strip with_computed_id new_image
    from_xml-saved_xml unescape plain read_events old created printable fits focus_fits number
          numbered reads =
        from_xml-to_xml f cr quoted laws unescape plain read_events
          (saved f cr show_addr old created) printable fits focus_fits (omega arith) number reads
        ∙ ap (λ ss. ok (record (reread old created) { surfaces = ss }))
            (sort_by_order-Numbered show_addr 0 old.surfaces numbered)

    pub saved_id_lem :
        (old : Strip f.Carrier A) (created : Bytes)
        → IsAscii (saved_id f cr show_addr old created)
          × IsWord (saved_id f cr show_addr old created)
          × Lacks b'/' (saved_id f cr show_addr old created)
    unfolding image_from_strip with_computed_id compute_id
    saved_id_lem old created = content_id_lem cr laws _

    module _ (show : SessionError → Bytes) where
      check_url_id_lem :
          (path : Bytes) (image : SessionImage f.Carrier) {id : Bytes}
          → last_segment path ≡ id
          → compute_id f cr image ≡ id
          → check_url_id f cr quoted show path image ≡ ok image
      unfolding check_url_id
      check_url_id_lem path image {id} last same = rw last (rw same (rw (bytes_eq_refl id) refl))

      module _ (read_events : Bytes → List (Result Bytes Event)) (utf8 : Bytes → Option Bytes)
          (get : Bytes → ℕ → Bytes → Result Bytes Bytes) where
        fetch_image_lem :
            (url : Bytes) {host path body doc : Bytes} {port : ℕ} {image : SessionImage f.Carrier}
            → parse_http_url url ≡ ok (host, port, path)
            → get host port path ≡ ok body
            → utf8 body ≡ some doc
            → from_xml f cr quoted read_events doc ≡ ok image
            → check_url_id f cr quoted show path image ≡ ok image
            → fetch_image f cr quoted show read_events utf8 get url ≡ ok image
        unfolding fetch_image shown
        fetch_image_lem url parsed got text read checked =
            rw parsed (rw got (rw text (rw read (rw checked refl))))

        pub fetch_image-session_url :
            (old : Strip f.Carrier A) (created host body : Bytes) (port : ℕ)
            → Lacks b'/' host
            → port ≤ u16_max
            → get host port (codes "/session/" ++ saved_id f cr show_addr old created) ≡ ok body
            → utf8 body ≡ some (saved_xml f cr show_addr old created)
            → from_xml f cr quoted read_events (saved_xml f cr show_addr old created)
              ≡ ok (reread old created)
            → fetch_image f cr quoted show read_events utf8 get
                (session_url host port (saved_id f cr show_addr old created))
              ≡ ok (reread old created)
        fetch_image-session_url old created host body port no_slash small got text read =
            let id : Bytes = saved_id f cr show_addr old created in
            let shape = saved_id_lem old created in
            fetch_image_lem (session_url host port id)
              (parse_http_url-session_url host port id no_slash small) got text read
              (check_url_id_lem (codes "/session/" ++ id) (reread old created)
                (last_segment-session id shape.2) (compute_id-reread old created))
