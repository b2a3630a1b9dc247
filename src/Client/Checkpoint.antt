-- ===== src/Client/Checkpoint.antt =====
-- simulboot-client/src/session/mod.rs: the session image of a strip.
use simulboot.Base.{map, Bytes}
use simulboot.Float.{Float}
use simulboot.Session.{SurfaceEntry, SessionImage, Crypto, new_image}
use simulboot.Session.Write.{with_computed_id}
use simulboot.Strip.{Surface, Strip}

-- `address` is the print of a socket address.
unfoldable pub entry_of : {F A : Type 0} → (A → Bytes) → Surface F A → SurfaceEntry
entry_of address s = record {
  id = s.id;
  name = s.name;
  order = s.order;
  host = record {
    address = address s.host_addr;
    os = s.provenance.os;
    machine = s.provenance.machine_name;
    capture = s.provenance.capture_description;
  };
  codec = s.codec;
  width = s.source_width;
  height = s.source_height;
}

unfoldable pub image_from_strip :
    (f : Float)
    → Crypto
    → {A : Type 0} → (A → Bytes)
    → Strip f.Carrier A
    → Bytes
    → SessionImage f.Carrier
image_from_strip f cr address strip created = with_computed_id f cr (
    new_image created (map (entry_of address) strip.surfaces)
      (record { scroll_pos = strip.scroll_pos; focus = strip.focus }))
