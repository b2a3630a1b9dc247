-- ===== src/Client/RoundTrip.antt =====
-- simulboot-client/src/main.rs and session/mod.rs with simulboot-broker/src/lib.rs: a session that one
-- client suspends and serves is fetched and resumed by another.
mod Examples
use simulboot.Base.{
  ℕ, ◌*◌, ◌≤◌, ◌≡◌, refl, ◌∙◌, Bool, false, Option, some, List, ◌++◌, Bytes, codes, length, Lacks,
  All, Result, ok,
}
use simulboot.Base.Decimal.{u16_max, u32_max}
use simulboot.Float.{Float, Ordered, HasZero, Linear, Printable}
use simulboot.Wire.{StructureMessage}
use simulboot.Wire.Frame.{Postcard}
use simulboot.Wire.Stream.{ReadResult}
use simulboot.Wire.Stream.Laws.{Flows, contents}
use simulboot.Session.{SessionImage, SessionError, Crypto, HexLaws, new_image}
use simulboot.Session.Write.{with_computed_id}
use simulboot.Session.Parse.{Event}
use simulboot.Session.Parse.Laws.{Fits}
use simulboot.Session.Parse.RoundTrip.{printed, FocusFits}
use simulboot.Session.Escape.{Unescape, UnescapeLaws}
use simulboot.Session.Markup.{Reads}
use simulboot.Session.Markup.RoundTrip.{image_markup}
use simulboot.Strip.{Surface, Strip, new_strip}
use simulboot.Strip.Order.{Numbered}
use simulboot.Strip.Focus.{FocusValid}
use simulboot.Broker.{ServedImage, new_xml, handle_connection}
use simulboot.Fetch.{request, response_body}
use simulboot.Fetch.Lines.{IsAscii, KeepsAscii, ascii, ascii-IsAscii, lacks, lacks-Lacks}
use simulboot.Fetch.Laws.{fetch_served}
use simulboot.Fetch.Image.{fetch_image}
use simulboot.Fetch.Url.{session_url}
use simulboot.Client.{resume}
use simulboot.Client.Links.{Link, Network, map_err}
use simulboot.Client.Links.Tasks.{suspend_link}
use simulboot.Client.Checkpoint.{entry_of, image_from_strip}
use simulboot.Client.Suspend.{Suspended, suspend_and_serve, futures_join_all, count_acked}
use simulboot.Client.Resume.{Back, resumed, resume_lem}
use simulboot.Client.Reload.{
  saved, saved_id, saved_xml, saved_body, saved_id_lem, reread, from_xml-saved_xml,
  fetch_image-session_url,
}

module _ (f : Float) (cr : Crypto) (quoted : Bytes → Bytes) (laws : HexLaws cr) (ord : Ordered f)
    (zero_ok : HasZero f) (lin : Linear f) (printable : Printable f) where
  module _ {A E : Type 0} (pc : Postcard (StructureMessage f.Carrier) E)
      (net : Network f.Carrier A E) (parse : Bytes → Option A) (show : SessionError → Bytes)
      (read_events : Bytes → List (Result Bytes Event)) (utf8 : Bytes → Option Bytes)
      (into_bytes : Bytes → Bytes) (unescape : Unescape) (entities : UnescapeLaws unescape)
      (lossy : Bytes → Bytes) (keeps : KeepsAscii lossy) where
    suspended :
        (old : Strip f.Carrier A) (created out : Bytes) (links : List (Link A))
        (heard : Link A → Bool × ℕ) (write : Bytes → Bytes → Result E (Unit {0}))
        → write out (saved_body f cr net.show_addr into_bytes old created) ≡ ok tt
        → suspend_and_serve f cr net.show_addr into_bytes heard write links old created out
          ≡ ok (record {
            acked =
                count_acked (futures_join_all (λ l. suspend_link (heard l).0 (heard l).1) links);
            file = saved_body f cr net.show_addr into_bytes old created;
            served =
                new_xml
                  (saved_id f cr net.show_addr old created)
                  (saved_body f cr net.show_addr into_bytes old created);
          })
    unfolding suspend_and_serve map_err
    suspended old created out links heard write written = rw written refl

    served :
        (old : Strip f.Carrier A) (created host : Bytes) (asked : List ReadResult)
        → IsAscii host
        → Lacks b'\r' host
        → Flows asked
        → contents asked
          ≡ request host (codes "/session/" ++ saved_id f cr net.show_addr old created)
        → length (request host (codes "/session/" ++ saved_id f cr net.show_addr old created))
          ≤ 64 * 1024
        → (raw : Bytes) × (handle_connection lossy
              (new_xml
                (saved_id f cr net.show_addr old created)
                (saved_body f cr net.show_addr into_bytes old created))
              asked
            ≡ some raw)
          × (response_body lossy raw ≡ ok (saved_body f cr net.show_addr into_bytes old created))
    unfolding new_xml ascii lacks
    served old created host asked plain line flows whole short =
        let shape = saved_id_lem f cr quoted laws ord zero_ok net.show_addr old created in
        fetch_served lossy keeps
          (new_xml (saved_id f cr net.show_addr old created)
            (saved_body f cr net.show_addr into_bytes old created))
          host asked (ascii-IsAscii (codes "application/xml; charset=utf-8") refl)
          (lacks-Lacks b'\r' (codes "application/xml; charset=utf-8") refl) plain line shape.0
          shape.1 shape.2 flows whole short

    -- From one client to another: `suspend_and_serve`, if the file can be written, serves the image of
    -- its strip, and a client that gets `http://host:port/session/id` from that server fetches an image
    -- from which `resume` makes a strip with the same surfaces in the same order, each as high as the new
    -- viewport, a third of it wide and with no frame yet, the same focus, and the scroll position as
    -- printed, clamped to the new range. The request reaches the server in any
    -- reads and has at most 64 KiB; the host's name is ASCII without line end and slash; surface ids
    -- have 32 bytes, sizes and orders fit a `u32`, the surfaces are numbered in order, the focus is on
    -- one of them or on none, the scroll position is a number; every host announces its surface again;
    -- `String::from_utf8` undoes `into_bytes`; the XML reader delivers, for the markup of the document
    -- as it is spelled, the events of that markup (no text with white space at its edges, which the
    -- reader trims), and unescapes the predefined entities; hex, floats and `from_utf8_lossy` behave as
    -- documented.
    pub resume-suspend_and_serve :
        (old : Strip f.Carrier A) (created out host : Bytes) (port : ℕ) (links : List (Link A))
        (heard : Link A → Bool × ℕ) (write : Bytes → Bytes → Result E (Unit {0}))
        (get : Bytes → ℕ → Bytes → Result Bytes Bytes) (asked : List ReadResult)
        (width height : f.Carrier)
        → write out (saved_body f cr net.show_addr into_bytes old created) ≡ ok tt
        → IsAscii host
        → Lacks b'\r' host
        → Lacks b'/' host
        → port ≤ u16_max
        → Flows asked
        → contents asked
          ≡ request host (codes "/session/" ++ saved_id f cr net.show_addr old created)
        → length (request host (codes "/session/" ++ saved_id f cr net.show_addr old created))
          ≤ 64 * 1024
        → ((raw : Bytes)
            → handle_connection lossy
                (new_xml
                  (saved_id f cr net.show_addr old created)
                  (saved_body f cr net.show_addr into_bytes old created))
                asked
              ≡ some raw
            → get host port (codes "/session/" ++ saved_id f cr net.show_addr old created)
              ≡ response_body lossy raw)
        → utf8 (saved_body f cr net.show_addr into_bytes old created)
          ≡ some (saved_xml f cr net.show_addr old created)
        → Reads unescape read_events (image_markup f cr (saved f cr net.show_addr old created))
        → All Fits (saved f cr net.show_addr old created).surfaces
        → FocusFits f cr quoted laws old.focus
        → f.is_nan old.scroll_pos ≡ false
        → Numbered 0 old.surfaces
        → FocusValid old
        → (back : Back f pc net parse quoted (saved_id f cr net.show_addr old created) old.surfaces)
        → (suspend_and_serve f cr net.show_addr into_bytes heard write links old created out
            ≡ ok (record {
              acked =
                  count_acked (futures_join_all (λ l. suspend_link (heard l).0 (heard l).1) links);
              file = saved_body f cr net.show_addr into_bytes old created;
              served =
                  new_xml
                    (saved_id f cr net.show_addr old created)
                    (saved_body f cr net.show_addr into_bytes old created);
            }))
          × (image : SessionImage f.Carrier) × (fetch_image f cr quoted show read_events utf8 get
                (session_url host port (saved_id f cr net.show_addr old created))
              ≡ ok image)
          × (resume f pc net parse quoted cr image (new_strip f width height)
              ≡ ok (
                  resumed f pc net parse quoted ord zero_ok lin cr old
                    (saved_id f cr net.show_addr old created)
                    (printed f cr quoted laws old.scroll_pos)
                    width
                    height
                    back))
    unfolding reread image_from_strip with_computed_id new_image
    resume-suspend_and_serve old created out host port links heard write get asked width height
          written plain line no_slash small flows whole short delivered text reads fits focus_fits
          number numbered valid back =
        let (raw, handled, body) = served old created host asked plain line flows whole short in
        let read =
          from_xml-saved_xml f cr quoted laws ord zero_ok net.show_addr unescape entities
            read_events old created printable fits focus_fits number numbered reads in
        let fetched =
          fetch_image-session_url f cr quoted laws ord zero_ok net.show_addr show read_events utf8
            get old created host (saved_body f cr net.show_addr into_bytes old created) port
            no_slash small (delivered raw handled ∙ body) text read in
        (
          suspended old created out links heard write written,
          reread f cr quoted laws ord zero_ok net.show_addr old created,
          fetched,
          resume_lem f pc net parse quoted ord zero_ok lin cr old
              (reread f cr quoted laws ord zero_ok net.show_addr old created) width height refl refl
              numbered valid back,
        )
