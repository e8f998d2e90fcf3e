-- ===== src/Hub/Tests.antt =====
-- The hub at concrete calls: two sessions of the account 7.
use monitor_backend.Base.{
  ℕ, ◌≡◌, ◌≢◌, refl, String, true, false, none, some, string_eq, nat_eq, eq_iff, lookup, insert,
  erase, map_values, arith, List, [], ◌∷◌, map,
}
use monitor_backend.Json.{Json, bool, str, obj, end, member, unmarshal, unmarshal_into, read_struct}
use monitor_backend.Protocol.{Envelope, ClientStatePayload, zero_client_state, read_client_state}
use monitor_backend.Hub.{
  Hub, Room, room, new_hub, is_monitoring, broadcast, snapshot, notify_client_observers, forwarded,
  set_room, ViewerMessage, snapshot_of,
}
use monitor_backend.Hub.Devices.{
  attach_device, detach_device, leave_room, release_left, announce_left,
}
use monitor_backend.Hub.Claims.{settled, storing}
use monitor_backend.Hub.Publishing.{publish, deliver, store_payload, store_by, update_monitor_claim}
use monitor_backend.Hub.Watching.{
  register_observer, first_signal, subscribe_clients, observers_of, register_viewer, first_snapshot,
  subscribe, active_monitor_session,
}
use monitor_backend.Hub.Commands.{send_command, blank_command}
use monitor_backend.Hub.Queues.{Sent, send_command-Sent}
use monitor_backend.Hub.Runs.{
  Reach, here, next, attaches, claims, stores, phases, Matched, claims_are_good,
  active_monitor_session_lem,
}
use monitor_backend.Hub.Exclusion.{Outcome, publish_monitor, keeps_claim}
use monitor_backend.Hub.Channels.{subscribe_clients_lem, subscribe_lem}
use monitor_backend.Hub.Broadcasts.{run_step, run_steps, start}
use monitor_backend.Hub.Conflicts.{attach_device-claims_nothing, publish_idle}

abbrev account : String → ℕ
account s = 7

abbrev state_message : Json → Envelope
state_message j = record { type = "client_state"; sequence = 1; payload = some j }

abbrev monitoring : Envelope
monitoring = state_message (obj (member "mode" (str "monitor") (member "running" (bool true) end)))

-- The member `running` is left out.
abbrev partial : Envelope
partial = state_message (obj (member "mode" (str "monitor") end))

abbrev monitoring_state : ClientStatePayload
monitoring_state = record { mode = "monitor"; running = true }

monitoring-decodes :
    unmarshal zero_client_state read_client_state monitoring.payload ≡ some monitoring_state
unfolding read_client_state read_struct
monitoring-decodes = refl

attached_hub : Hub
attached_hub = attach_device "b" 7 "c2" 2 (attach_device "a" 7 "c1" 1 new_hub)

-- Session "a" has claimed the slot, and then monitors.
claimed_hub : Hub
claimed_hub = (update_monitor_claim "a" monitoring_state attached_hub).0

monitored_hub : Hub
monitored_hub = deliver "a" monitoring monitoring 3 claimed_hub

claimed_Reach : Reach account new_hub claimed_hub
unfolding attached_hub claimed_hub
claimed_Reach =
    next (next (next here (attaches "a" "c1" 1)) (attaches "b" "c2" 2))
      (claims "a" monitoring_state)

monitored_Reach : Reach account new_hub monitored_hub
unfolding monitored_hub
monitored_Reach = next claimed_Reach (stores "a" monitoring monitoring 3)

claim_granted : phases claimed_Reach "a" ≡ storing monitoring_state
unfolding claimed_Reach attached_hub attach_device update_monitor_claim notify_client_observers
    lookup insert map_values
claim_granted = refl

monitored_Matched : Matched monitored_Reach
unfolding monitored_Reach claimed_Reach
monitored_Matched =
    ((((tt, tt), tt), tt), λ t. (monitoring_state, monitoring-decodes, claim_granted))

monitored_settled : phases monitored_Reach "a" ≡ settled
unfolding monitored_Reach
monitored_settled = refl

-- The call of `Publish` does the same.
publishes_monitored : publish "a" monitoring monitoring 3 attached_hub ≡ (monitored_hub, true)
unfolding monitored_hub claimed_hub attached_hub attach_device publish update_monitor_claim deliver
    store_payload store_by notify_client_observers lookup insert map_values read_client_state
    read_struct
publishes_monitored = refl

monitored_claim : lookup 7 monitored_hub.active_monitors ≡ some "a"
unfolding monitored_hub claimed_hub attached_hub attach_device publish update_monitor_claim deliver
    store_payload store_by notify_client_observers lookup insert map_values read_client_state
    read_struct
monitored_claim = refl

claims_are_good_example :
    (7 ≡ account "a")
    × ((r : Room) × (lookup "a" monitored_hub.rooms ≡ some r)
        × (r.user_id ≡ 7)
        × (is_monitoring r.client_state ≡ true)
        × (r.online ≡ true))
claims_are_good_example =
    claims_are_good account monitored_hub 7 "a" monitored_Reach monitored_Matched monitored_settled
      monitored_claim

active_monitor_session_lem_example :
    (r : Room) × (lookup "a" monitored_hub.rooms ≡ some r)
    × (active_monitor_session 7 monitored_hub ≡ ("a", r.connected))
active_monitor_session_lem_example =
    active_monitor_session_lem account monitored_hub 7 "a" monitored_Reach monitored_Matched
      monitored_settled monitored_claim (ground (arith, eq_iff "a" ""))

room_b : Room
unfolding monitored_hub
room_b = room "b" monitored_hub

room_b_found : lookup "b" monitored_hub.rooms ≡ some room_b
unfolding room_b monitored_hub claimed_hub attached_hub attach_device publish update_monitor_claim
    deliver store_payload store_by notify_client_observers lookup insert map_values
    read_client_state read_struct
room_b_found = refl

room_b_user : room_b.user_id ≡ 7
unfolding room_b monitored_hub claimed_hub attached_hub attach_device publish update_monitor_claim
    deliver store_payload store_by notify_client_observers lookup insert map_values
    read_client_state read_struct
room_b_user = refl

-- Session "b" asks to monitor too.
publish_monitor_example :
    Outcome "b" room_b.user_id monitored_hub (publish "b" monitoring monitoring 4 monitored_hub)
publish_monitor_example =
    publish_monitor "b" monitoring monitoring 4 monitoring_state room_b monitored_hub refl
      monitoring-decodes refl room_b_found (ground (arith, room_b_user))

-- "b" claims too, and is refused: the first claim stands.
keeps_claim_example :
    lookup 7 (update_monitor_claim "b" monitoring_state monitored_hub).0.active_monitors ≡ some "a"
keeps_claim_example =
    keeps_claim account "a" 7 (next here (claims "b" monitoring_state))
      (tt, ground (arith, eq_iff "b" "a")) (ground (arith, eq_iff "a" "")) monitored_claim

-- A replaced connection of "a" that publishes at the same time: its idle state is claimed first and stored
-- last, and the claim of the other connection stays at a room that is not online.
abbrev idle_message : Envelope
idle_message =
    state_message (obj (member "mode" (str "monitor") (member "running" (bool false) end)))

abbrev overlapped_hub : Hub
overlapped_hub = deliver "a" idle_message idle_message 5 (
    deliver "a" monitoring monitoring 4
      (update_monitor_claim "a" monitoring_state
        (update_monitor_claim "a" (record { mode = "monitor"; running = false })
          monitored_hub).0).0)

overlap_claims_idle :
    (lookup 7 overlapped_hub.active_monitors ≡ some "a")
    × ((room "a" overlapped_hub).online ≡ false)
unfolding monitored_hub claimed_hub attached_hub erase attach_device update_monitor_claim deliver
    store_payload store_by notify_client_observers lookup insert map_values read_client_state
    read_struct
overlap_claims_idle = (refl, refl)

subscribe_clients_lem_example :
    ((h' : Hub) × (subscribe_clients 7 "tab" new_hub ≡ some h')
      × (lookup "tab" (observers_of 7 h') ≡ some true))
    × (first_signal 7 "tab" (notify_client_observers 7 (register_observer 7 "tab" new_hub)) ≡ none)
subscribe_clients_lem_example = subscribe_clients_lem 7 "tab" new_hub (omega arith)

abbrev ping : ViewerMessage
ping = forwarded (record { type = "exp"; sequence = 2; payload = none })

subscribe_lem_example :
    let h' = register_viewer "a" "tab" monitored_hub in
    ((h'' : Hub) × (subscribe "a" "tab" monitored_hub ≡ some h'')
      × (lookup "tab" (room "a" h'').viewers ≡ some (some (snapshot_of (snapshot (room "a" h'))))))
    × (first_snapshot "a" "tab" (set_room "a" (broadcast ping (room "a" h')) h') ≡ none)
subscribe_lem_example = subscribe_lem "a" "tab" ping monitored_hub

abbrev pong : ViewerMessage
pong = forwarded (record { type = "rune"; sequence = 3; payload = none })

-- Both find the channel full, both drain it, and the second one's message is lost.
abbrev overlap : List ℕ
overlap = 0 ∷ 1 ∷ 0 ∷ 1 ∷ 0 ∷ 1 ∷ []

overlap_loses : (run_steps overlap (map start (ping ∷ pong ∷ [])) (some pong)).1 ≡ some ping
unfolding run_steps run_step
overlap_loses = refl

-- Session "a" loses its connection, and "b" takes the slot.
taken_hub : Hub
taken_hub = (publish "b" monitoring monitoring 6 (detach_device "a" 7 "c1" 5 monitored_hub)).0

taken_claim : lookup 7 taken_hub.active_monitors ≡ some "b"
unfolding taken_hub monitored_hub claimed_hub attached_hub detach_device leave_room release_left
    announce_left erase attach_device publish update_monitor_claim deliver store_payload store_by
    notify_client_observers lookup insert map_values read_client_state read_struct
taken_claim = refl

taken_memory : is_monitoring (room "a" taken_hub).client_state ≡ true
unfolding taken_hub monitored_hub claimed_hub attached_hub detach_device leave_room release_left
    announce_left erase attach_device publish update_monitor_claim deliver store_payload store_by
    notify_client_observers lookup insert map_values read_client_state read_struct
taken_memory = refl

-- When "a" connects again both are online, and "b" holds the slot.
attach_device-claims_nothing_example :
    let h' = attach_device "a" 7 "c3" 7 taken_hub in
    ((room "a" h').online ≡ true)
    × ((room "a" h').connected ≡ true)
    × (lookup 7 h'.active_monitors ≡ lookup 7 taken_hub.active_monitors)
attach_device-claims_nothing_example =
    attach_device-claims_nothing "a" "c3" 7 7 7 taken_hub taken_memory

room_a : Room
unfolding monitored_hub
room_a = room "a" monitored_hub

room_a_found : lookup "a" monitored_hub.rooms ≡ some room_a
unfolding room_a monitored_hub claimed_hub attached_hub attach_device publish update_monitor_claim
    deliver store_payload store_by notify_client_observers lookup insert map_values
    read_client_state read_struct
room_a_found = refl

room_a_user : room_a.user_id ≡ 7
unfolding room_a monitored_hub claimed_hub attached_hub attach_device publish update_monitor_claim
    deliver store_payload store_by notify_client_observers lookup insert map_values
    read_client_state read_struct
room_a_user = refl

partial-decodes :
    unmarshal zero_client_state read_client_state partial.payload
    ≡ some (record { mode = "monitor"; running = false })
unfolding read_client_state read_struct
partial-decodes = refl

publish_idle_example :
    let (h', accepted) = publish "a" partial partial 4 monitored_hub in
    (accepted ≡ true)
    × (lookup room_a.user_id h'.active_monitors ≢ some "a")
    × ((room "a" h').online
        ≡ is_monitoring (unmarshal_into read_client_state partial.payload room_a.client_state).0)
publish_idle_example =
    publish_idle "a" partial partial 4 (record { mode = "monitor"; running = false }) room_a
      monitored_hub refl partial-decodes refl room_a_found (ground (arith, room_a_user))

-- The room is online although its session gave the slot up.
partial_stays_online :
    let (h', accepted) = publish "a" partial partial 4 monitored_hub in
    ((room "a" h').online ≡ true) × (lookup 7 h'.active_monitors ≡ none)
unfolding monitored_hub claimed_hub attached_hub erase attach_device publish update_monitor_claim
    deliver store_payload store_by notify_client_observers lookup insert map_values
    read_client_state read_struct
partial_stays_online = (refl, refl)

-- "a" gets a command while its connection takes nothing.
room_a_controls : room_a.controls ≡ some []
unfolding room_a monitored_hub claimed_hub attached_hub attach_device publish update_monitor_claim
    deliver store_payload store_by notify_client_observers lookup insert map_values
    read_client_state read_struct
room_a_controls = refl

room_a_connected : room_a.connected ≡ true
unfolding room_a monitored_hub claimed_hub attached_hub attach_device publish update_monitor_claim
    deliver store_payload store_by notify_client_observers lookup insert map_values
    read_client_state read_struct
room_a_connected = refl

send_command-Sent_example :
    let (h', accepted) = send_command "a" blank_command 0 monitored_hub in
    Sent blank_command 0 [] accepted (room "a" h').controls
send_command-Sent_example =
    send_command-Sent "a" blank_command 0 monitored_hub room_a [] room_a_found room_a_connected
      room_a_controls (omega arith)
