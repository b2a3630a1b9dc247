-- ===== src/Strip.antt =====
-- simulboot-client/src/strip.rs: the strip of surfaces. `f` is `f32`, `A` the type of socket
-- addresses. Order has the numbering of surfaces, Scroll the range of the scroll position, Hits the
-- geometry, Focus the focus.
pub mod Order
pub mod Scroll
pub mod Hits
pub mod Focus
mod Examples
use simulboot.Base.{
  ℕ, ◌+◌, ◌%◌, ◌^◌, Bool, true, false, ◌&&◌, ◌||◌, Option, none, some, List, [], ◌∷◌, ◌++◌, leb,
  if◌then◌else◌, Bytes, length, bytes_eq,
}
use simulboot.Float.{Float}
use simulboot.Wire.{SurfaceId, Codec, HostProvenance}

pub record Surface (F A : Type 0) : Type 0 where
  pub id : SurfaceId
  pub name : Bytes
  pub order : ℕ
  pub width : F
  pub height : F
  pub source_width : ℕ
  pub source_height : ℕ
  pub codec : Codec
  pub provenance : HostProvenance
  pub host_addr : A
  pub last_pts : Option ℕ
  pub frames_received : ℕ

pub record Strip (F A : Type 0) : Type 0 where
  pub surfaces : List (Surface F A)
  pub scroll_pos : F
  pub viewport_width : F
  pub viewport_height : F
  pub focus : Option SurfaceId

pub record Hit (F : Type 0) : Type 0 where
  pub id : SurfaceId
  pub nx : F
  pub ny : F

-- `self.focus == Some(id)`
abbrev pub is_focus : Option SurfaceId → SurfaceId → Bool
is_focus none id = false
is_focus (some focus) id = bytes_eq focus id

-- `f32::clamp` past its assertion
unfoldable pub clamp : (f : Float) → f.Carrier → f.Carrier → f.Carrier → f.Carrier
clamp f lo hi x = let x' = if f.lt x lo then lo else x in if f.lt hi x' then hi else x'

module _ {F A : Type 0} where
  -- `surfaces.iter().any(|s| s.id == id)`
  unfoldable pub any_id : SurfaceId → List (Surface F A) → Bool
  any_id id [] = false
  any_id id (s ∷ rest) = bytes_eq s.id id || any_id id rest

  -- `surfaces.iter().find(|s| s.id == id)`
  unfoldable pub find_id : SurfaceId → List (Surface F A) → Option (Surface F A)
  find_id id [] = none
  find_id id (s ∷ rest) = if bytes_eq s.id id then some s else find_id id rest

  behind :
      Surface F A
      → Option (Surface F A × List (Surface F A))
      → Option (Surface F A × List (Surface F A))
  behind s none = none
  behind s (some (found, rest)) = some (found, s ∷ rest)

  -- The first surface with the id, and the list without it: `position` and `Vec::remove`.
  unfoldable pub take_id :
      SurfaceId → List (Surface F A) → Option (Surface F A × List (Surface F A))
  unfolding behind
  take_id id [] = none
  take_id id (s ∷ rest) = if bytes_eq s.id id then some (s, rest) else behind s (take_id id rest)

  -- `for (i, s) in surfaces.iter_mut().enumerate() { s.order = i as u32 }`, from index `i`
  unfoldable pub renumber : ℕ → List (Surface F A) → List (Surface F A)
  renumber i [] = []
  renumber i (s ∷ rest) = record s { order = i % 2 ^ 32 } ∷ renumber (i + 1) rest

  -- `sort_by_key(|s| s.order)`, a stable sort
  unfoldable pub insert_by_order : Surface F A → List (Surface F A) → List (Surface F A)
  insert_by_order s [] = s ∷ []
  insert_by_order s (t ∷ rest) =
      if leb s.order t.order then s ∷ t ∷ rest else t ∷ insert_by_order s rest

  unfoldable pub sort_by_order : List (Surface F A) → List (Surface F A)
  sort_by_order [] = []
  sort_by_order (s ∷ rest) = insert_by_order s (sort_by_order rest)

  -- `get_mut` and the change of `note_frame`; the count is a `u64`
  unfoldable pub note_in : SurfaceId → ℕ → List (Surface F A) → List (Surface F A)
  note_in id pts [] = []
  note_in id pts (s ∷ rest) =
      if bytes_eq s.id id
      then record s { last_pts = some pts; frames_received = (s.frames_received + 1) % 2 ^ 64 }
        ∷ rest
      else s ∷ note_in id pts rest

  unfoldable pub note_frame : SurfaceId → ℕ → Strip F A → Strip F A
  note_frame id pts self = record self { surfaces = note_in id pts self.surfaces }

  unfoldable pub insert_ordered : Surface F A → Strip F A → Strip F A
  insert_ordered surface self = record self {
    surfaces = sort_by_order (self.surfaces ++ surface ∷ []);
  }

  unfoldable pub set_focus : SurfaceId → Strip F A → Strip F A × Bool
  set_focus id self =
      if any_id id self.surfaces then (record self { focus = some id }, true) else (self, false)

  unfoldable pub set_focus_opt : Option SurfaceId → Strip F A → Strip F A
  set_focus_opt none self = record self { focus = none }
  set_focus_opt (some id) self = record self {
    focus = if any_id id self.surfaces then some id else none;
  }

module _ (f : Float) {A : Type 0} where
  open f use {Carrier, of_ℕ, le, lt, add, sub, div}

  unfoldable pub new_strip : Carrier → Carrier → Strip Carrier A
  new_strip viewport_width viewport_height = record {
    surfaces = [];
    scroll_pos = of_ℕ 0;
    viewport_width = viewport_width;
    viewport_height = viewport_height;
    focus = none;
  }

  unfoldable pub default_surface_width : Strip Carrier A → Carrier
  default_surface_width self = div self.viewport_width (of_ℕ 3)

  -- `append`, with the order that it returns
  unfoldable pub append : Surface Carrier A → Strip Carrier A → Strip Carrier A × ℕ
  append surface self =
      let order = length self.surfaces % 2 ^ 32 in
      let width = if le surface.width (of_ℕ 0) then default_surface_width self else surface.width in
      let height = if le surface.height (of_ℕ 0) then self.viewport_height else surface.height in
      let placed = record surface { order = order; width = width; height = height } in
      (record self { surfaces = self.surfaces ++ placed ∷ [] }, order)

  -- The sum of widths, from `x` on.
  unfoldable pub sum_widths : Carrier → List (Surface Carrier A) → Carrier
  sum_widths x [] = x
  sum_widths x (s ∷ rest) = sum_widths (add x s.width) rest

  unfoldable pub content_width : Strip Carrier A → Carrier
  unfolding sum_widths
  content_width self = sum_widths (of_ℕ 0) self.surfaces

  unfoldable pub max_scroll : Strip Carrier A → Carrier
  max_scroll self = f.max (sub (content_width self) self.viewport_width) (of_ℕ 0)

  -- `none` is the panic of `f32::clamp` where the bounds are not in order.
  unfoldable pub clamp_scroll : Strip Carrier A → Option (Strip Carrier A)
  unfolding clamp
  clamp_scroll self =
      if le (of_ℕ 0) (max_scroll self)
      then some (record self { scroll_pos = clamp f (of_ℕ 0) (max_scroll self) self.scroll_pos })
      else none

  unfoldable pub scroll_by : Carrier → Strip Carrier A → Option (Strip Carrier A)
  scroll_by dx self = clamp_scroll (record self { scroll_pos = add self.scroll_pos dx })

  unfoldable pub set_scroll : Carrier → Strip Carrier A → Option (Strip Carrier A)
  set_scroll pos self = clamp_scroll (record self { scroll_pos = pos })

  -- What `remove` does once the surface is out of the list.
  unfoldable pub after_remove :
      SurfaceId → Strip Carrier A → List (Surface Carrier A) → Strip Carrier A
  after_remove id self rest = record self {
    surfaces = renumber 0 rest;
    focus = if is_focus self.focus id then none else self.focus;
  }

  with_removed :
      Surface Carrier A
      → Option (Strip Carrier A)
      → Option (Strip Carrier A × Option (Surface Carrier A))
  with_removed surface none = none
  with_removed surface (some strip) = some (strip, some surface)

  removed :
      SurfaceId
      → Strip Carrier A
      → Option (Surface Carrier A × List (Surface Carrier A))
      → Option (Strip Carrier A × Option (Surface Carrier A))
  unfolding with_removed
  removed id self none = some (self, none)
  removed id self (some (surface, rest)) =
      with_removed surface (clamp_scroll (after_remove id self rest))

  -- `remove`; the outer `none` is a panic
  unfoldable pub remove :
      SurfaceId → Strip Carrier A → Option (Strip Carrier A × Option (Surface Carrier A))
  unfolding removed
  remove id self = removed id self (take_id id self.surfaces)

  -- the loop of `surface_left`
  left_from : Carrier → SurfaceId → List (Surface Carrier A) → Option Carrier
  left_from x id [] = none
  left_from x id (s ∷ rest) = if bytes_eq s.id id then some x else left_from (add x s.width) id rest

  unfoldable pub surface_left : SurfaceId → Strip Carrier A → Option Carrier
  unfolding left_from
  surface_left id self = left_from (of_ℕ 0) id self.surfaces

  -- the loop of `visible`
  visible_from : Carrier → Carrier → Carrier → List (Surface Carrier A) → List (Surface Carrier A)
  visible_from view_l view_r x [] = []
  visible_from view_l view_r x (s ∷ rest) =
      let r = add x s.width in
      let later = visible_from view_l view_r r rest in
      if lt view_l r && lt x view_r then s ∷ later else later

  unfoldable pub visible : Strip Carrier A → List (Surface Carrier A)
  unfolding visible_from
  visible self =
      visible_from self.scroll_pos (add self.scroll_pos self.viewport_width) (of_ℕ 0) self.surfaces

  -- the loop of `hit_test`
  hit_from : Carrier → Carrier → Carrier → List (Surface Carrier A) → Option (Hit Carrier)
  hit_from strip_x vy x [] = none
  hit_from strip_x vy x (s ∷ rest) =
      let r = add x s.width in
      if le x strip_x && lt strip_x r
      then some (record {
        id = s.id;
        nx = div (sub strip_x x) s.width;
        ny = clamp f (of_ℕ 0) (of_ℕ 1) (div vy s.height);
      })
      else hit_from strip_x vy r rest

  unfoldable pub hit_test : Carrier → Carrier → Strip Carrier A → Option (Hit Carrier)
  unfolding hit_from
  hit_test vx vy self =
      if lt vy (of_ℕ 0) || lt self.viewport_height vy
      then none
      else hit_from (add vx self.scroll_pos) vy (of_ℕ 0) self.surfaces

  focus_hit : Strip Carrier A → Option (Hit Carrier) → Strip Carrier A × Option (Hit Carrier)
  focus_hit self none = (self, none)
  focus_hit self (some hit) = (record self { focus = some hit.id }, some hit)

  unfoldable pub click :
      Carrier → Carrier → Strip Carrier A → Strip Carrier A × Option (Hit Carrier)
  unfolding focus_hit
  click vx vy self = focus_hit self (hit_test vx vy self)
