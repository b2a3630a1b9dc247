-- ===== src/Client/Resume.antt =====
-- simulboot-client/src/main.rs and session/mod.rs: a resume from the image of a strip restores it.
use simulboot.Base.{
  ℕ, ◌+◌, ◌≡◌, refl, sym, ap, ◌∙◌, true, ◌||◌, Option, none, some, List, [], ◌∷◌, ◌++◌, map,
  append-nil, append_assoc, arith, Bytes, All, bytes_eq, Result, ok,
}
use mathlib.Core.Path.{subst}
use simulboot.Float.{Float, Ordered, HasZero, Linear}
use simulboot.Wire.{SurfaceId, SurfaceAnnounce, StructureMessage}
use simulboot.Wire.Frame.{Postcard}
use simulboot.Session.{SessionImage, Crypto, new_image}
use simulboot.Session.Write.{with_computed_id, declared_or_computed}
use simulboot.Strip.{
  Surface, Strip, any_id, default_surface_width, max_scroll, clamp, new_strip, set_scroll,
  set_focus_opt,
}
use simulboot.Strip.Order.{Numbered, insert_ordered-next}
use simulboot.Strip.Scroll.{set_scroll_lem}
use simulboot.Strip.Focus.{FocusValid}
use simulboot.Client.{
  surface_from_announce, place, reconnect_one, reconnect_all, restore_layout, resume,
}
use simulboot.Client.Checkpoint.{entry_of, image_from_strip}
use simulboot.Client.Links.{Link, Network, connect, map_err}

module _ (f : Float) {A : Type 0} where
  open f use {Carrier, le, is_nan}

  -- What the host of a surface announces.
  abbrev pub announce_of : Surface Carrier A → SurfaceAnnounce
  announce_of s = record {
    id = s.id;
    name = s.name;
    width = s.source_width;
    height = s.source_height;
    codec = s.codec;
    provenance = s.provenance;
  }

  -- The surface on a strip with this viewport: a third of it wide, as high as it, with no frame yet,
  -- and otherwise as it was.
  unfoldable pub restored : Strip Carrier A → Surface Carrier A → Surface Carrier A
  restored strip s = record s {
    width = f.div strip.viewport_width (f.of_ℕ 3);
    height = strip.viewport_height;
    last_pts = none;
    frames_received = 0;
  }

  restored-Numbered :
      (strip : Strip Carrier A) (k : ℕ) (ss : List (Surface Carrier A))
      → Numbered k ss
      → Numbered k (map (restored strip) ss)
  unfolding restored
  restored-Numbered strip k [] h = tt
  restored-Numbered strip k (s ∷ ss) h = (h.0, restored-Numbered strip (k + 1) ss h.1)

  restored-any_id :
      (strip : Strip Carrier A) (id : SurfaceId) (ss : List (Surface Carrier A))
      → any_id id (map (restored strip) ss) ≡ any_id id ss
  unfolding restored any_id
  restored-any_id strip id [] = refl
  restored-any_id strip id (s ∷ ss) = ap (λ b. bytes_eq s.id id || b) (restored-any_id strip id ss)

  Numbered-append :
      (k : ℕ) (xs ys : List (Surface Carrier A)) → Numbered k (xs ++ ys) → Numbered k xs
  Numbered-append k [] ys h = tt
  Numbered-append k (x ∷ xs) ys h = (h.0, Numbered-append (k + 1) xs ys h.1)

  place_next :
      (strip : Strip Carrier A) (s : Surface Carrier A) (announce : SurfaceAnnounce)
      (address : A → Bytes)
      → announce ≡ announce_of s
      → Numbered 0 (strip.surfaces ++ restored strip s ∷ [])
      → place f (entry_of address s) announce s.host_addr strip
        ≡ record strip { surfaces = strip.surfaces ++ restored strip s ∷ [] }
  unfolding place entry_of restored surface_from_announce default_surface_width
  place_next strip s announce address same next =
      rw same (insert_ordered-next (restored strip s) strip next)

  module _ {E : Type 0} (pc : Postcard (StructureMessage Carrier) E) (net : Network Carrier A E)
      (parse : Bytes → Option A) (quoted : Bytes → Bytes) where
    -- Every surface's address is read back from its print, and its host, dialled with the session's
    -- id, announces the surface again.
    abbrev pub Back : Bytes → List (Surface Carrier A) → Type 0
    Back session_id ss =
        All
          (λ s.
            (parse (net.show_addr s.host_addr) ≡ some s.host_addr)
            × (link : Link A) × (connect pc net s.host_addr (some session_id) ≡ ok link)
            × (link.announce ≡ announce_of s))
          ss

    abbrev pub links_of :
        (session_id : Bytes) (ss : List (Surface Carrier A)) → Back session_id ss → List (Link A)
    links_of session_id [] h = []
    links_of session_id (s ∷ ss) h = (h.0).1 ∷ links_of session_id ss h.1

    reconnect_all-Back :
        (session_id : Bytes) (ss : List (Surface Carrier A)) (strip : Strip Carrier A)
        (links : List (Link A))
        → (back : Back session_id ss) → Numbered 0 (strip.surfaces ++ map (restored strip) ss)
        → reconnect_all f pc net parse quoted session_id
            (map (entry_of net.show_addr) ss)
            strip
            links
          ≡ ok (
            record strip { surfaces = strip.surfaces ++ map (restored strip) ss },
            links ++ links_of session_id ss back,
          )
    unfolding reconnect_all entry_of reconnect_one map_err restored surface_from_announce
        default_surface_width
    reconnect_all-Back session_id [] strip links back h =
        rw (append-nil strip.surfaces) (rw (append-nil links) refl)
    reconnect_all-Back session_id (s ∷ ss) strip links back h =
        let r : Surface Carrier A = restored strip s in
        let (parsed, link, dialled, announced) = back.0 in
        let grown : Strip Carrier A = record strip { surfaces = strip.surfaces ++ r ∷ [] } in
        let whole : strip.surfaces ++ map (restored strip) (s ∷ ss)
            ≡ grown.surfaces ++ map (restored strip) ss =
          sym (append_assoc strip.surfaces (r ∷ []) (map (restored strip) ss)) in
        let numbered : Numbered 0 (grown.surfaces ++ map (restored strip) ss) =
          subst (Numbered 0) whole h in
        let placed : place f (entry_of net.show_addr s) link.announce s.host_addr strip ≡ grown =
          place_next strip s link.announce net.show_addr announced
            (Numbered-append 0 grown.surfaces _ numbered) in
        let rest = reconnect_all-Back session_id ss grown (links ++ link ∷ []) (back.1) numbered in
        let out : List (Link A) = links_of session_id ss (back.1) in
        let surfaces = append_assoc strip.surfaces (r ∷ []) (map (restored strip) ss) in
        let regroup : (xs : List (Surface Carrier A))
            → xs ≡ strip.surfaces ++ map (restored strip) (s ∷ ss)
            → ◌≡◌ {A = Result Bytes (Strip Carrier A × List (Link A))}
                (ok (record strip { surfaces = xs }, links ++ link ∷ [] ++ out))
                (ok (
                  record strip { surfaces = strip.surfaces ++ map (restored strip) (s ∷ ss) },
                  links ++ link ∷ out,
                )) =
          λ xs same. rw same (rw (append_assoc links (link ∷ []) out) refl) in
        rw parsed (rw dialled (rw placed (rest ∙ regroup _ surfaces)))

    restore_layout_lem :
        (image : SessionImage Carrier) (strip : Strip Carrier A) {scrolled : Strip Carrier A}
        → set_scroll f image.layout.scroll_pos strip ≡ some scrolled
        → restore_layout f pc net parse quoted image strip
          ≡ some (set_focus_opt image.layout.focus scrolled)
    unfolding restore_layout
    restore_layout_lem image strip h = ground arith

    module _ (ord : Ordered f) (zero_ok : HasZero f) (lin : Linear f) (cr : Crypto) where
      focus_back :
          (old : Strip Carrier A) (strip : Strip Carrier A) (id : Option SurfaceId)
          → ((i : SurfaceId) → id ≡ some i → any_id i old.surfaces ≡ true)
          → strip.surfaces
            ≡ map (restored (new_strip f strip.viewport_width strip.viewport_height)) old.surfaces
          → set_focus_opt id strip ≡ record strip { focus = id }
      unfolding set_focus_opt
      focus_back old strip none valid same = refl
      focus_back old strip (some i) valid same =
          rw same (rw (restored-any_id _ i old.surfaces) (rw (valid i refl) refl))

      abbrev pub saved : Strip Carrier A → Bytes → SessionImage Carrier
      saved old created = image_from_strip f cr net.show_addr old created

      abbrev pub saved_id : Strip Carrier A → Bytes → Bytes
      saved_id old created = declared_or_computed f cr (saved old created).id (saved old created)

      -- A new strip with the surfaces of the old one.
      abbrev pub refilled : Strip Carrier A → Carrier → Carrier → Strip Carrier A
      refilled old width height = record (new_strip f width height) {
        surfaces = map (restored (new_strip f width height)) old.surfaces;
      }

      -- The strip after a resume at this scroll position, and its links.
      abbrev pub resumed :
          (old : Strip Carrier A) (session_id : Bytes) (x width height : Carrier)
          → Back session_id old.surfaces
          → Option (Strip Carrier A) × List (Link A)
      resumed old session_id x width height back = (
        some (record (refilled old width height) {
          scroll_pos = clamp f (f.of_ℕ 0) (max_scroll f (refilled old width height)) x;
          focus = old.focus;
        }),
        links_of session_id old.surfaces back,
      )

      -- A resume from any image with the surfaces and the focus of the strip.
      pub resume_lem :
          (old : Strip Carrier A) (image : SessionImage Carrier) (width height : Carrier)
          → image.surfaces ≡ map (entry_of net.show_addr) old.surfaces
          → image.layout.focus ≡ old.focus
          → Numbered 0 old.surfaces
          → FocusValid old
          → (back : Back (declared_or_computed f cr image.id image) old.surfaces)
          → resume f pc net parse quoted cr image (new_strip f width height)
            ≡ ok (
                resumed old
                  (declared_or_computed f cr image.id image)
                  image.layout.scroll_pos
                  width
                  height
                  back)
      unfolding resume new_strip
      resume_lem old image width height surfaces focus numbered valid back =
          let session : Bytes = declared_or_computed f cr image.id image in
          let bare : Strip Carrier A = new_strip f width height in
          let full : Strip Carrier A = refilled old width height in
          let x : Carrier = image.layout.scroll_pos in
          let returned =
            ap (λ entries. reconnect_all f pc net parse quoted session entries bare []) surfaces
            ∙ reconnect_all-Back session old.surfaces bare [] back
                (restored-Numbered bare 0 old.surfaces numbered) in
          let scrolled = set_scroll_lem f ord lin zero_ok x full in
          let focused =
            ap
              (λ id.
                set_focus_opt id
                  (record full { scroll_pos = clamp f (f.of_ℕ 0) (max_scroll f full) x }))
              focus
            ∙ focus_back old (record full { scroll_pos = clamp f (f.of_ℕ 0) (max_scroll f full) x })
                old.focus valid refl in
          let laid_out : restore_layout f pc net parse quoted image full
              ≡ some (record full {
                scroll_pos = clamp f (f.of_ℕ 0) (max_scroll f full) x;
                focus = old.focus;
              }) =
            restore_layout_lem image full scrolled ∙ ap some focused in
          rw returned (ap (λ strip. ok (strip, links_of session old.surfaces back)) laid_out)

      -- A resume from the image of a strip, at a compositor of any viewport: if the surfaces are
      -- numbered in order, the focus is on a surface of the strip or on none, and every host announces
      -- its surface again, then the new strip has these surfaces in this order, each as it was but
      -- for its size, a third of the viewport wide and as high, and its frames, none yet; the focus is the old
      -- one, and the scroll position is the old one clamped to the new range. Nothing panics, where
      -- floats compare as IEEE 754 says.
      pub resume-image_from_strip :
          (old : Strip Carrier A) (created : Bytes) (width height : Carrier)
          → Numbered 0 old.surfaces
          → FocusValid old
          → (back : Back (saved_id old created) old.surfaces)
          → resume f pc net parse quoted cr (saved old created) (new_strip f width height)
            ≡ ok (resumed old (saved_id old created) old.scroll_pos width height back)
      unfolding image_from_strip with_computed_id new_image
      resume-image_from_strip old created width height numbered valid back =
          resume_lem old (saved old created) width height refl refl numbered valid back
