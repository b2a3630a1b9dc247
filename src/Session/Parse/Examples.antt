-- ===== src/Session/Parse/Examples.antt =====
-- A concrete image of two surfaces.
use simulboot.Base.{some, [], ◌∷◌, ◌++◌, Bytes, codes}
use simulboot.Examples.Numbers.{Level, middle}
use simulboot.Wire.{h265, linux}
use simulboot.Session.{SessionImage, SurfaceEntry}

abbrev pub eight : Bytes
eight = 1 ∷ 2 ∷ 3 ∷ 4 ∷ 5 ∷ 6 ∷ 7 ∷ 8 ∷ []

abbrev pub shell : SurfaceEntry
shell = record {
  id = eight ++ (eight ++ (eight ++ eight));
  name = codes "a<b> \"&\"";
  order = 1;
  host = record {
    address = codes "127.0.0.1:7001";
    os = linux;
    machine = codes "R&D desk";
    capture = [];
  };
  codec = h265;
  width = 960;
  height = 540;
}

abbrev pub saved : SessionImage Level
saved = record {
  id = some (codes "sha256:ab");
  created = codes "2026-06-28T19:44:09Z";
  schema_version = 1;
  surfaces = shell ∷ record shell { order = 0 } ∷ [];
  layout = record { scroll_pos = middle; focus = some shell.id };
}

abbrev pub quotes : Bytes → Bytes
quotes s = b'"' ∷ s ++ b'"' ∷ []
