-- ===== src/Broker/Examples.antt =====
-- The server's answers at concrete requests.
use simulboot.Base.{codes}
use simulboot.Broker.{ServedImage, new_xml}

abbrev pub served : ServedImage
served = new_xml (codes "sha256:ab12") (codes "<session/>")
