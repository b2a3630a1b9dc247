-- ===== src/Lib.antt =====
-- A verification library for Simulboot: a compositor (the client) that shows surfaces of remote
-- hosts on one strip, suspends the session to a content-addressed XML image, serves that image over
-- HTTP, and resumes from it elsewhere. The library states what the program's parts do and proves it.
--
-- The parts, their code, and their files here:
--
--   simulboot-common/src/wire.rs. Wire has the types of the protocol, Wire/Frame the functions
--   encode_frame and decode_frame, Wire/Frame/Laws what they promise of one another.
--   simulboot-client/src/conn.rs and simulboot-host/src/main.rs, read_message. Wire/Stream, with
--   Wire/Stream/Laws. A stream is the list of what its reads bring, so that every way to cut the bytes
--   into reads is one list; `read_message` returns the rest of that list and the buffer.
--   simulboot-common/src/session.rs. Session has the image and the spellings of its enumerations and
--   ids, Session/Escape the XML escapes, Session/Write the writer (canonical_bytes, compute_id,
--   to_xml), Session/Write/Inj that the canonical form loses nothing, Session/Identity the function
--   verify. Session/Parse has the pieces of the reader, Session/Parse/Document its walk over the events
--   of a document (from_xml), Session/Parse/Laws, Surfaces and RoundTrip are on what it makes of the events
--   of an image. Session/Markup has markup, the text that spells it and its events; Session/Markup/Image
--   the markup that to_xml spells out, Session/Markup/Events its events, Session/Markup/RoundTrip that
--   from_xml undoes to_xml.
--   simulboot-common/src/coefficients.rs. Coefficients, with Bounds, Order and Top on the order of
--   coefficients and Spelling on their text.
--   simulboot-common/src/galois.rs. Galois has SessionImageV1, validate, the order leq, alpha and
--   gamma; Galois/Write the v1 document (to_xml_v1 and canonical_bytes_v1 are its to_xml and
--   canonical_bytes), Galois/Parse the reader of its coefficient block and from_xml (from_xml_v1).
--   Galois/Validate and Galois/Laws are on the maps; Galois/Block, Passing, Reading and Whole on
--   the events of the document, Galois/Markup and its Events on its markup, Galois/RoundTrip on reading
--   what is written.
--   simulboot-client/src/strip.rs. Strip has every operation, Strip/Order, Scroll, Focus and Hits what
--   they keep and compute.
--   simulboot-broker/src/lib.rs. Broker has one HTTP connection, from its reads to the bytes of the
--   response; Broker/Http what it shares with the client, Broker/Laws the routing.
--   simulboot-client/src/session/mod.rs. Fetch has the URL, the request and the response of http_get;
--   Fetch/Lines and Fetch/Laws put client and server together; Fetch/Image has fetch_image, with its
--   check of the id, Fetch/Url the URL that a suspended client prints. Client/Checkpoint has
--   image_from_strip, Client/Clock format_epoch_utc, and Client/Clock/Years and Calendar are on its
--   dates.
--   simulboot-client/src/conn.rs. Client/Links has connect, Client/Links/Tasks the three tasks of a
--   link (writer, reader, datagram pump) and Link::suspend, each on the list of what happens to it;
--   Client/Links/Laws is on connect and the reader.
--   simulboot-client/src/main.rs. Client has live mode (connect_live) and resume on the strip,
--   Client/Suspend suspend_and_serve, Client/Config the command line. Client/Calls is on what command
--   lines ask for, Client/Resume on a resume from an image, Client/Handshake on
--   the suspension at both ends of a link, Client/Reload and Client/RoundTrip on a session that one
--   client suspends and another resumes.
--   simulboot-host/src/main.rs. Host has the control loop of one connection and its answers,
--   Host/Config the command line and the announce; Host/Laws and Host/Termination are on the loop,
--   Wire/Stream/Progress is on what a message costs and Wire/Stream/Cut on a stream that ends early.
--   Host/Frames has send_frame and the task that forwards frames, Client/Frames takes them to the
--   strip. Cli has the loop over arguments that the programs share, Cli/Broker the configuration of
--   simulboot-broker/src/main.rs.
--
-- Base has lists, texts, decimal numbers and the type Result; Float is the record of what the code
-- uses of f32 and f64, with the laws of IEEE 754 that single theorems need as records of their own
-- (Ordered, Linear, Printable, HasZero). Examples and the files named Examples hold concrete
-- parameters and runs of the theorems on concrete values.
--
-- Conventions. Numbers are natural numbers, with `% 2 ^ w` where a w-bit integer wraps. A text is the
-- list of its characters and a buffer the list of its bytes; in the texts of HTTP and URLs, which are
-- ASCII, the two are one, and the document of an image is encoded by the parameter `into_bytes`. A call that can panic returns `none`.
-- Code of other packages is a parameter: postcard (Postcard, RoundTrips), SHA-256 and hex (Crypto,
-- HexLaws), quick-xml (the list of events of a document; Reads says that the events are those of the markup that
-- a text spells, UnescapeLaws what entities stand for), from_utf8_lossy (KeepsAscii), the network
-- (Network, the lists of reads). An async channel is the list of what goes through it, and tasks run
-- one behind another. The only fuel is that of the host's control loop and of the client's reader
-- task: one unit for a message. More units than messages are enough, and a message takes four bytes at
-- least, so that more than a quarter of the bytes that arrive is enough whatever they are.
--
-- Not modelled: the QUIC endpoints and their certificates (simulboot-client/src/net.rs,
-- simulboot-host/src/net.rs), the scheduling of tasks, timers and signal handlers, the log lines, the
-- renderer (simulboot-client/src/render.rs), the native capture backends (stubs around native
-- interfaces) and the reading of the clock.
pub mod Base
pub mod Float
pub mod Wire
pub mod Session
pub mod Galois
pub mod Strip
pub mod Broker
pub mod Fetch
pub mod Cli
pub mod Host
pub mod Client
mod Examples
pub mod Coefficients
