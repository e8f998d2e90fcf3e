-- ===== src/Hub/Publishing.antt =====
-- `Publish`, `updateMonitorClaim` and `PublishGain`.
use monitor_backend.Base.{
  ℕ, suc, String, Bool, true, false, not, ◌&&◌, Option, none, some, ◌==◌, string_eq, nat_eq,
  if◌then◌else◌, lookup, insert,
}
use monitor_backend.Base.Int.{ℤ, pos, negsuc}
use monitor_backend.Json.{Json, num, obj, end, member, unmarshal, unmarshal_into}
use monitor_backend.Protocol.{
  ClientStatePayload, GainPayload, Envelope, zero_client_state, read_client_state,
}
use monitor_backend.Hub.{
  Hub, Room, forwarded, room, set_room, is_monitoring, broadcast, broadcast_snapshot,
  notify_client_observers,
}
use monitor_backend.Hub.Devices.{release_claim}

abbrev pub or_empty : Option String → String
or_empty none = ""
or_empty (some s) = s

abbrev pub claimed : String → ℕ → ClientStatePayload → Hub → Hub × Bool
claimed session user state h =
    let active = or_empty (lookup user h.active_monitors) in
    if user == 0
    then (h, true)
    else if is_monitoring state
    then (if not (active == "") && not (active == session)
        then (h, false)
        else (record h { active_monitors = insert user session h.active_monitors }, true))
    else (release_claim session user h, true)

-- Without a room or a user there is nothing to claim.
unfoldable pub update_monitor_claim : String → ClientStatePayload → Hub → Hub × Bool
update_monitor_claim session state h = elim (lookup session h.rooms) [
  | none ↦ (h, true)
  | some r ↦ claimed session r.user_id state h
]

-- The switch of `Publish`. Unmarshalling a client state writes the members that the message has
-- over the room's state, and leaves the others.
unfoldable pub store_by : String → Option Json → Room → Room
store_by type payload r =
    if type == "map"
    then record r { latest_map = payload }
    else if type == "frame"
    then record r { latest_frame = payload }
    else if type == "status"
    then record r { latest_status = payload }
    else if type == "exp"
    then record r { latest_exp = payload }
    else if type == "rune"
    then record r { latest_rune = payload }
    else if type == "verification"
    then record r { latest_verification = payload }
    else if type == "zone"
    then record r { latest_zone = payload }
    else if type == "gain"
    then record r { latest_gain = payload }
    else if type == "client_state"
    then (let state = (unmarshal_into read_client_state payload r.client_state).0 in
        record r { client_state = state; online = is_monitoring state })
    else r

unfoldable pub store_payload : Envelope → Room → Room
unfolding store_by
store_payload e r = store_by e.type e.payload r

-- What `Publish` does once the claim is granted. The raw message is the one that encodes `raw`.
unfoldable pub deliver : String → Envelope → Envelope → ℕ → Hub → Hub
deliver session e raw now h =
    let stored = store_payload e (room session h) in
    let r = record stored { updated_at = now } in
    if e.type == "client_state"
    then notify_client_observers r.user_id (set_room session (broadcast_snapshot r) h)
    else set_room session (broadcast (forwarded raw) r) h

abbrev pub claim_decoded : String → Hub → Option ClientStatePayload → Hub × Bool
claim_decoded session h none = (h, true)
claim_decoded session h (some state) = update_monitor_claim session state h

-- A client state that is not decoded claims nothing and is not refused.
unfoldable pub claim_first : String → Envelope → Hub → Hub × Bool
claim_first session e h =
    claim_decoded session h (unmarshal zero_client_state read_client_state e.payload)

abbrev pub decide : String → Envelope → Envelope → ℕ → Hub × Bool → Hub × Bool
decide session e raw now (h, granted) =
    if granted then (deliver session e raw now h, true) else (h, false)

unfoldable pub publish : String → Envelope → Envelope → ℕ → Hub → Hub × Bool
unfolding claim_first
publish session e raw now h =
    decide session e raw now
      (if e.type == "client_state" then claim_first session e h else (h, true))

abbrev number_json : ℤ → Json
number_json (pos n) = num (record { negative = false; digits = n; scale = 0; whole = true })
number_json (negsuc n) = num (record { negative = true; digits = suc n; scale = 0; whole = true })

-- `json.Marshal` of the payload.
abbrev pub gain_json : GainPayload → Json
gain_json p = obj (
    member "inflow10m" (number_json p.inflow10m) (
      member "outflow1h" (number_json p.outflow1h) (
        member "totalUsage" (number_json p.total_usage) (
          member "dailyUsage" (number_json p.daily_usage)
            (member "sampledAt" (number_json p.sampled_at) end)))))

abbrev pub gain_envelope : GainPayload → Envelope
gain_envelope p = record { type = "gain"; sequence = 0; payload = some (gain_json p) }

unfoldable pub publish_gain : String → GainPayload → ℕ → Hub → Hub
unfolding publish
publish_gain session p now h = (publish session (gain_envelope p) (gain_envelope p) now h).0
