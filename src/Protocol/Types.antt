-- ===== src/Protocol/Types.antt =====
-- The payload types of the messages and their zero values.
use monitor_backend.Base.{ℕ, ◌*◌, String, Bool, true, false, Option, none, List, string_eq}
use monitor_backend.Base.Int.{ℤ, pos}
use monitor_backend.Json.{Json, Number, Slice, empty_slice}

abbrev pub max_message_bytes : ℕ
max_message_bytes = 16 * 1024

abbrev pub zero_number : Number
zero_number = record { negative = false; digits = 0; scale = 0; whole = true }

pub record Point : Type 0 where
  pub x : Number
  pub y : Number

pub record Platform : Type 0 where
  pub id : String
  pub points : Slice Point

pub record Rope : Type 0 where
  pub id : String
  pub x : Number
  pub top_y : Number
  pub bottom_y : Number

pub record Portal : Type 0 where
  pub id : String
  pub point : Point
  pub type : String

pub record MapPayload : Type 0 where
  pub id : String
  pub name : String
  pub aspect_ratio : Number
  pub platforms : Slice Platform
  pub ropes : Slice Rope
  pub portals : Slice Portal

pub record FramePayload : Type 0 where
  pub player : Option Point
  pub teammates : Slice Point
  pub others : Slice Point
  pub source_fps : Number
  pub captured_at : ℤ

pub record StatusPayload : Type 0 where
  pub online : Bool
  pub message : String

pub record ClientStatePayload : Type 0 where
  pub mode : String
  pub running : Bool

pub record ClientCommand : Type 0 where
  pub type : String
  pub action : String
  pub reason : String
  pub team_id : ℤ
  pub is_leader : Bool
  pub first_creation : Bool
  pub role_name : String
  pub target_role_name : String
  pub cycle_id : ℤ
  pub receipt_id : String
  pub invite_role_names : List String

pub record TeamJoinedPayload : Type 0 where
  pub team_id : ℤ
  pub role_name : String
  pub receipt_id : String

pub record RopePartyProgressPayload : Type 0 where
  pub team_id : ℤ
  pub cycle_id : ℤ
  pub event : String
  pub role_name : String
  pub receipt_id : String

pub record ExpPayload : Type 0 where
  pub current_exp : Option ℤ
  pub percent : Option Number
  pub confidence : Option Number
  pub recognition_method : String
  pub status : String
  pub recognized_at : ℤ

pub record RunePayload : Type 0 where
  pub detected : Bool
  pub confidence : Option Number
  pub detected_at : ℤ

pub record VerificationPayload : Type 0 where
  pub detected : Bool
  pub confidence : Option Number
  pub detected_at : ℤ

pub record ZoneRect : Type 0 where
  pub x : Number
  pub y : Number
  pub width : Number
  pub height : Number

pub record ZonePayload : Type 0 where
  pub outside : Bool
  pub rect : Option ZoneRect
  pub detected_at : ℤ

pub record GainPayload : Type 0 where
  pub inflow10m : ℤ
  pub outflow1h : ℤ
  pub total_usage : ℤ
  pub daily_usage : ℤ
  pub sampled_at : ℤ

pub record Envelope : Type 0 where
  pub type : String
  pub sequence : ℕ
  pub payload : Option Json

pub record Snapshot : Type 0 where
  pub type : String
  pub online : Bool
  pub connected : Bool
  pub client_state : Option ClientStatePayload
  pub map : Option Json
  pub frame : Option Json
  pub status : Option Json
  pub exp : Option Json
  pub rune : Option Json
  pub verification : Option Json
  pub zone : Option Json
  pub gain : Option Json
  pub updated_at : ℕ

-- The zero values of the structs that are decoded.
abbrev pub zero_point : Point
zero_point = record { x = zero_number; y = zero_number }

abbrev pub zero_platform : Platform
zero_platform = record { id = ""; points = empty_slice }

abbrev pub zero_rope : Rope
zero_rope = record { id = ""; x = zero_number; top_y = zero_number; bottom_y = zero_number }

abbrev pub zero_portal : Portal
zero_portal = record { id = ""; point = zero_point; type = "" }

abbrev pub zero_map : MapPayload
zero_map = record {
  id = "";
  name = "";
  aspect_ratio = zero_number;
  platforms = empty_slice;
  ropes = empty_slice;
  portals = empty_slice;
}

abbrev pub zero_frame : FramePayload
zero_frame = record {
  player = none;
  teammates = empty_slice;
  others = empty_slice;
  source_fps = zero_number;
  captured_at = pos 0;
}

abbrev pub zero_status : StatusPayload
zero_status = record { online = false; message = "" }

abbrev pub zero_client_state : ClientStatePayload
zero_client_state = record { mode = ""; running = false }

abbrev pub zero_team_joined : TeamJoinedPayload
zero_team_joined = record { team_id = pos 0; role_name = ""; receipt_id = "" }

abbrev pub zero_progress : RopePartyProgressPayload
zero_progress = record {
  team_id = pos 0;
  cycle_id = pos 0;
  event = "";
  role_name = "";
  receipt_id = "";
}

abbrev pub zero_exp : ExpPayload
zero_exp = record {
  current_exp = none;
  percent = none;
  confidence = none;
  recognition_method = "";
  status = "";
  recognized_at = pos 0;
}

abbrev pub zero_rune : RunePayload
zero_rune = record { detected = false; confidence = none; detected_at = pos 0 }

abbrev pub zero_verification : VerificationPayload
zero_verification = record { detected = false; confidence = none; detected_at = pos 0 }

abbrev pub zero_rect : ZoneRect
zero_rect = record { x = zero_number; y = zero_number; width = zero_number; height = zero_number }

abbrev pub zero_zone : ZonePayload
zero_zone = record { outside = false; rect = none; detected_at = pos 0 }

-- How each key of a struct is read: its `json` tags. A key with no tag is passed over. Keys are
-- compared exactly; encoding/json also takes a key in another letter case.

abbrev pub zero_envelope : Envelope
zero_envelope = record { type = ""; sequence = 0; payload = none }
