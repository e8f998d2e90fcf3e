-- ===== src/Protocol/Kinds.antt =====
-- The kinds of messages that a device may send, with their payloads.
use monitor_backend.Base.{◌≡◌, ◌≢◌, ◌⊎◌, String, true, Option, some, ◌++◌, All, string_eq, nat_eq}
use monitor_backend.Base.Int.{is_pos}
use monitor_backend.Json.{Json, unmarshal}
use monitor_backend.Protocol.{
  MapPayload, FramePayload, StatusPayload, ClientStatePayload, ExpPayload, RunePayload,
  VerificationPayload, ZonePayload, TeamJoinedPayload, RopePartyProgressPayload, zero_map,
  zero_frame, zero_status, zero_client_state, zero_team_joined, zero_progress, zero_exp, zero_rune,
  zero_verification, zero_zone, read_map, read_frame, read_status, read_client_state,
  read_team_joined, read_progress, read_exp, read_rune, read_verification, read_zone,
}
use monitor_backend.Protocol.Events.{IsRoleName, IsReceipt, ValidEvent}
use monitor_backend.Protocol.Accepted.{InUnit, player_points, ValidReading}
use monitor_backend.Protocol.Alarms.{ValidRune, ValidZone, ValidVerification}

abbrev pub IsMode : String → Type 0
IsMode m =
    (m ≡ "dead") ⊎ ((m ≡ "live") ⊎ ((m ≡ "follow_heal") ⊎ ((m ≡ "monitor") ⊎ (m ≡ "temple"))))

-- What a device may send: the type of the message, its payload and the condition on it.
pub data Allowed (type : String) (raw : Option Json) : Type 0 where
  map :
      type ≡ "map"
      → (p : MapPayload) → unmarshal zero_map read_map raw ≡ some p
      → (p.id ≢ "") × (p.name ≢ "")
      → Allowed type raw
  frame :
      type ≡ "frame"
      → (p : FramePayload) → unmarshal zero_frame read_frame raw ≡ some p
      → All InUnit (player_points p.player ++ (p.teammates.items ++ p.others.items))
      → Allowed type raw
  status :
      type ≡ "status"
      → (p : StatusPayload) → unmarshal zero_status read_status raw ≡ some p
      → Unit {0}
      → Allowed type raw
  exp :
      type ≡ "exp"
      → (p : ExpPayload) → unmarshal zero_exp read_exp raw ≡ some p
      → ValidReading p
      → Allowed type raw
  rune :
      type ≡ "rune"
      → (p : RunePayload) → unmarshal zero_rune read_rune raw ≡ some p
      → ValidRune p
      → Allowed type raw
  verification :
      type ≡ "verification"
      → (p : VerificationPayload) → unmarshal zero_verification read_verification raw ≡ some p
      → ValidVerification p
      → Allowed type raw
  zone :
      type ≡ "zone"
      → (p : ZonePayload) → unmarshal zero_zone read_zone raw ≡ some p
      → ValidZone p
      → Allowed type raw
  client_state :
      type ≡ "client_state"
      → (p : ClientStatePayload) → unmarshal zero_client_state read_client_state raw ≡ some p
      → IsMode p.mode
      → Allowed type raw
  team_joined :
      type ≡ "team_joined"
      → (p : TeamJoinedPayload) → unmarshal zero_team_joined read_team_joined raw ≡ some p
      → (is_pos p.team_id ≡ true) × IsRoleName p.role_name × IsReceipt p.receipt_id
      → Allowed type raw
  progress :
      type ≡ "rope_party_progress"
      → (p : RopePartyProgressPayload) → unmarshal zero_progress read_progress raw ≡ some p
      → (is_pos p.team_id ≡ true)
        × IsReceipt p.receipt_id
        × ValidEvent p.event p.cycle_id p.role_name
      → Allowed type raw
