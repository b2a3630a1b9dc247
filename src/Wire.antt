-- ===== src/Wire.antt =====
-- simulboot-common/src/wire.rs: the data of the protocol. `F` is the type that stands for `f32`.
-- The framing is in Frame, and the reassembly of a stream, which the compositor and the host
-- write alike, in Stream.
pub mod Frame
pub mod Stream
mod Examples
use simulboot.Base.{ℕ, ◌*◌, Bytes}

-- `[u8; 32]`
abbrev pub SurfaceId : Type 0
SurfaceId = Bytes

pub data Codec : Type 0 where
  h265 av1 : Codec

pub data OsKind : Type 0 where
  mac_os windows linux : OsKind

pub record HostProvenance : Type 0 where
  pub os : OsKind
  pub machine_name : Bytes
  pub tailscale_addr : Bytes
  pub capture_description : Bytes

pub record SurfaceAnnounce : Type 0 where
  pub id : SurfaceId
  pub name : Bytes
  pub width : ℕ
  pub height : ℕ
  pub codec : Codec
  pub provenance : HostProvenance

pub record FrameHeader : Type 0 where
  pub surface_id : SurfaceId
  pub pts : ℕ
  pub len : ℕ

pub data InputEvent (F : Type 0) : Type 0 where
  key_down : ℕ → InputEvent F
  key_up : ℕ → InputEvent F
  mouse_move : F → F → InputEvent F
  mouse_down : ℕ → InputEvent F
  mouse_up : ℕ → InputEvent F
  scroll : F → F → InputEvent F

pub data StructureMessage (F : Type 0) : Type 0 where
  announce : SurfaceAnnounce → StructureMessage F
  suspend_ack : StructureMessage F
  reconnect_ok : SurfaceAnnounce → StructureMessage F
  reconnect_fail : Bytes → StructureMessage F
  input_event : SurfaceId → InputEvent F → StructureMessage F
  resize : SurfaceId → ℕ → ℕ → StructureMessage F
  suspend : StructureMessage F
  reconnect : Bytes → StructureMessage F
  disconnect : StructureMessage F

-- `E` is the error type of postcard.
pub data WireError (E : Type 0) : Type 0 where
  postcard : E → WireError E
  incomplete : ℕ → ℕ → WireError E
  too_large : ℕ → ℕ → WireError E

abbrev pub max_frame_len : ℕ
max_frame_len = 16 * 1024 * 1024
