-- ===== src/Client.antt =====
-- simulboot-client/src/main.rs: how the compositor's strip comes up, live and on a resume. A panic
-- of `f32::clamp` is the inner `none`. Links has the connections, Checkpoint the image of a strip,
-- Clock its time stamp, Suspend the suspension, Config the command line and Calls what it asks for,
-- Frames the frames that arrive; Resume, Handshake, Reload and RoundTrip put these together.
pub mod Links
pub mod Checkpoint
pub mod Resume
pub mod Handshake
pub mod Suspend
pub mod Reload
pub mod RoundTrip
pub mod Config
pub mod Calls
pub mod Frames
pub mod Clock
mod Examples
use simulboot.Base.{Option, none, some, List, [], ◌∷◌, ◌++◌, Bytes, codes, Result, ok, ◌>>=◌, ok_or}
use simulboot.Float.{Float}
use simulboot.Wire.{SurfaceAnnounce, StructureMessage}
use simulboot.Wire.Frame.{Postcard}
use simulboot.Session.{SurfaceEntry, SessionImage, Crypto}
use simulboot.Session.Write.{declared_or_computed}
use simulboot.Strip.{
  Surface, Strip, default_surface_width, append, insert_ordered, set_scroll, set_focus_opt,
}
use Links.{Link, Network, connect, map_err}

module _ (f : Float) {A : Type 0} where
  open f use {Carrier, of_ℕ}

  unfoldable pub surface_from_announce : SurfaceAnnounce → A → Strip Carrier A → Surface Carrier A
  surface_from_announce announce addr strip = record {
    id = announce.id;
    name = announce.name;
    order = 0;
    width = default_surface_width f strip;
    height = strip.viewport_height;
    source_width = announce.width;
    source_height = announce.height;
    codec = announce.codec;
    provenance = announce.provenance;
    host_addr = addr;
    last_pts = none;
    frames_received = 0;
  }

  -- The image is authoritative for placement.
  unfoldable pub place : SurfaceEntry → SurfaceAnnounce → A → Strip Carrier A → Strip Carrier A
  place entry announce addr strip =
      insert_ordered
        (record (surface_from_announce announce addr strip) {
          order = entry.order;
          width = default_surface_width f strip;
          height = strip.viewport_height;
        })
        strip

  module _ {E : Type 0} (pc : Postcard (StructureMessage Carrier) E)
      (net : Network Carrier A E) where
    -- The loop of `connect_live`, on the strip and the links so far.
    unfoldable pub connect_live :
        List A → Strip Carrier A → List (Link A) → Result Bytes (Strip Carrier A × List (Link A))
    connect_live [] strip links = ok (strip, links)
    connect_live (addr ∷ hosts) strip links =
        map_err (λ e. codes "connecting to host " ++ net.show_addr addr) (connect pc net addr none)
        >>= λ link.
            connect_live hosts (append f (surface_from_announce link.announce addr strip) strip).0
              (links ++ link ∷ [])

    -- `parse` is that of socket addresses, `quoted` the print of a text in a message.
    module _ (parse : Bytes → Option A) (quoted : Bytes → Bytes) where
      unfoldable pub reconnect_one : Bytes → A → Result Bytes (Link A)
      reconnect_one session_id addr =
          map_err (λ e. codes "reconnecting host " ++ net.show_addr addr)
            (connect pc net addr (some session_id))

      -- The loop of `resume`.
      unfoldable pub reconnect_all :
          Bytes
          → List SurfaceEntry
          → Strip Carrier A
          → List (Link A)
          → Result Bytes (Strip Carrier A × List (Link A))
      reconnect_all session_id [] strip links = ok (strip, links)
      reconnect_all session_id (entry ∷ rest) strip links =
          ok_or (parse entry.host.address) (codes "bad host address " ++ quoted entry.host.address)
          >>= λ addr. reconnect_one session_id addr >>= λ link.
              reconnect_all session_id rest (place entry link.announce addr strip)
                (links ++ link ∷ [])

      -- `set_scroll` and `set_focus_opt`, once every surface is back
      unfoldable pub restore_layout :
          SessionImage Carrier → Strip Carrier A → Option (Strip Carrier A)
      restore_layout image strip = elim (set_scroll f image.layout.scroll_pos strip) [
        | none ↦ none
        | some scrolled ↦ some (set_focus_opt image.layout.focus scrolled)
      ]

      -- `resume`, on the image that `fetch_image` has returned
      unfoldable pub resume :
          Crypto
          → SessionImage Carrier
          → Strip Carrier A
          → Result Bytes (Option (Strip Carrier A) × List (Link A))
      resume cr image strip =
          reconnect_all (declared_or_computed f cr image.id image) image.surfaces strip []
          >>= λ back. ok (restore_layout image back.0, back.1)
