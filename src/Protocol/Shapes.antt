-- ===== src/Protocol/Shapes.antt =====
-- How the JSON of a map and of a frame is read.
use monitor_backend.Base.{String, Bool, true, if◌then◌else◌}
use monitor_backend.Json.{
  names, Json, Reader, read_string, read_float, read_int64, read_pointer, read_slice, read_struct,
}
use monitor_backend.Protocol.Types.{
  FramePayload, MapPayload, Platform, Point, Portal, Rope, zero_platform, zero_point, zero_portal,
  zero_rope,
}

abbrev pub with_field : {A B : Type 0} → Reader B → B → (B → A) → Json → A × Bool
with_field r old write j = let (b, fine) = r j old in (write b, fine)

point_field : String → Reader Point
unfolding names read_float read_slice
point_field key j p =
    if names key "x"
    then with_field (read_float) p.x (λ v. record p { x = v }) j
    else if names key "y"
    then with_field (read_float) p.y (λ v. record p { y = v }) j
    else (p, true)

unfoldable pub read_point : Reader Point
unfolding point_field
read_point = read_struct point_field

platform_field : String → Reader Platform
unfolding names read_float read_slice
platform_field key j p =
    if names key "id"
    then with_field (read_string) p.id (λ v. record p { id = v }) j
    else if names key "points"
    then with_field (read_slice zero_point read_point) p.points (λ v. record p { points = v }) j
    else (p, true)

unfoldable pub read_platform : Reader Platform
unfolding platform_field
read_platform = read_struct platform_field

rope_field : String → Reader Rope
unfolding names read_float read_slice
rope_field key j p =
    if names key "id"
    then with_field (read_string) p.id (λ v. record p { id = v }) j
    else if names key "x"
    then with_field (read_float) p.x (λ v. record p { x = v }) j
    else if names key "topY"
    then with_field (read_float) p.top_y (λ v. record p { top_y = v }) j
    else if names key "bottomY"
    then with_field (read_float) p.bottom_y (λ v. record p { bottom_y = v }) j
    else (p, true)

unfoldable pub read_rope : Reader Rope
unfolding rope_field
read_rope = read_struct rope_field

portal_field : String → Reader Portal
unfolding names read_float read_slice
portal_field key j p =
    if names key "id"
    then with_field (read_string) p.id (λ v. record p { id = v }) j
    else if names key "point"
    then with_field (read_point) p.point (λ v. record p { point = v }) j
    else if names key "type"
    then with_field (read_string) p.type (λ v. record p { type = v }) j
    else (p, true)

unfoldable pub read_portal : Reader Portal
unfolding portal_field
read_portal = read_struct portal_field

map_field : String → Reader MapPayload
unfolding names read_float read_slice
map_field key j p =
    if names key "id"
    then with_field (read_string) p.id (λ v. record p { id = v }) j
    else if names key "name"
    then with_field (read_string) p.name (λ v. record p { name = v }) j
    else if names key "aspectRatio"
    then with_field (read_float) p.aspect_ratio (λ v. record p { aspect_ratio = v }) j
    else if names key "platforms"
    then with_field (read_slice zero_platform read_platform) p.platforms
        (λ v. record p { platforms = v }) j
    else if names key "ropes"
    then with_field (read_slice zero_rope read_rope) p.ropes (λ v. record p { ropes = v }) j
    else if names key "portals"
    then with_field (read_slice zero_portal read_portal) p.portals (λ v. record p { portals = v }) j
    else (p, true)

unfoldable pub read_map : Reader MapPayload
unfolding map_field
read_map = read_struct map_field

frame_field : String → Reader FramePayload
unfolding names read_float read_slice
frame_field key j p =
    if names key "player"
    then with_field (read_pointer zero_point read_point) p.player (λ v. record p { player = v }) j
    else if names key "teammates"
    then with_field (read_slice zero_point read_point) p.teammates (λ v. record p { teammates = v })
        j
    else if names key "others"
    then with_field (read_slice zero_point read_point) p.others (λ v. record p { others = v }) j
    else if names key "sourceFPS"
    then with_field (read_float) p.source_fps (λ v. record p { source_fps = v }) j
    else if names key "capturedAt"
    then with_field (read_int64) p.captured_at (λ v. record p { captured_at = v }) j
    else (p, true)

unfoldable pub read_frame : Reader FramePayload
unfolding frame_field
read_frame = read_struct frame_field
