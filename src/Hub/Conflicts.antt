-- ===== src/Hub/Conflicts.antt =====
-- Rooms that `AttachDevice` and `Publish` set online without a claim of the user's slot.
use monitor_backend.Base.{
  ℕ, ◌≡◌, ◌≢◌, refl, sym, ap, ◌∙◌, String, Bool, true, false, some, string_eq, nat_eq, eq_iff,
  if◌then◌else◌, lookup, arith,
}
use monitor_backend.Json.{unmarshal, unmarshal_into}
use monitor_backend.Protocol.{Envelope, ClientStatePayload, zero_client_state, read_client_state}
use monitor_backend.Hub.{
  Hub, Room, room, room_or_new, set_room, is_monitoring, broadcast_snapshot, broadcast, forwarded,
  notify_client_observers,
}
use monitor_backend.Hub.Devices.{attach_device, attached, release_claim}
use monitor_backend.Hub.Publishing.{publish, deliver, store_payload, update_monitor_claim, decide}
use monitor_backend.Hub.Claims.{notify-rooms, notify-active_monitors, release_claim-rooms, released}
use monitor_backend.Hub.PublishCases.{store_state, claimed_cases}
use monitor_backend.Hub.PublishSteps.{publish_state}
use monitor_backend.Hub.Exclusion.{deliver-active_monitors}
use monitor_backend.Hub.Channels.{room-set_room}

room-notify :
    (session : String) (user : ℕ) (h : Hub)
    → room session (notify_client_observers user h) ≡ room session h
room-notify session user h = ap (λ m. room_or_new (lookup session m)) (notify-rooms user h)

-- A device that attaches to a session whose room last heard of a running monitor is online and
-- connected at once, and every user's slot is as before, also one that another session holds.
pub attach_device-claims_nothing :
    (session connection : String) (user now u : ℕ) (h : Hub)
    → is_monitoring (room session h).client_state ≡ true
    → let h' = attach_device session user connection now h in
      ((room session h').online ≡ true)
      × ((room session h').connected ≡ true)
      × (lookup u h'.active_monitors ≡ lookup u h.active_monitors)
unfolding attach_device broadcast_snapshot
attach_device-claims_nothing session connection user now u h m =
    let r = broadcast_snapshot (attached user connection now (room session h)) in
    let e : room session (notify_client_observers user (set_room session r h)) ≡ r =
      room-notify session user (set_room session r h) ∙ room-set_room session r h in
    (
      ap (λ (x : Room). x.online) e ∙ online,
      ap (λ (x : Room). x.connected) e ∙ connected,
      ap (lookup u) (notify-active_monitors user (set_room session r h)),
    )
  where
    online : (broadcast_snapshot (attached user connection now (room session h))).online ≡ true
    online = ground arith

    connected :
        (broadcast_snapshot (attached user connection now (room session h))).connected ≡ true
    connected = refl

delivered : Envelope → ℕ → Room → Room
delivered e now r = record (store_payload e r) { updated_at = now }

room-deliver :
    (session : String) (e raw : Envelope) (now : ℕ) (h : Hub)
    → e.type ≡ "client_state"
    → room session (deliver session e raw now h)
      ≡ broadcast_snapshot (delivered e now (room session h))
unfolding deliver delivered
room-deliver session e raw now h t =
    ap
      (λ (b : Bool). room session (
        if b
        then notify_client_observers (delivered e now (room session h)).user_id
            (set_room session (broadcast_snapshot (delivered e now (room session h))) h)
        else set_room session (broadcast (forwarded raw) (delivered e now (room session h))) h))
      ((eq_iff e.type "client_state").1 t)
    ∙ room-notify session _ _
    ∙ room-set_room session _ h

online-delivered :
    (e : Envelope) (now : ℕ) (r : Room)
    → e.type ≡ "client_state"
    → (broadcast_snapshot (delivered e now r)).online
      ≡ is_monitoring (unmarshal_into read_client_state e.payload r.client_state).0
unfolding broadcast_snapshot delivered store_payload
online-delivered e now r t = ap (λ (x : Room). x.online) (store_state e.type e.payload r t)

-- A session with a user that publishes a client state which decodes to no running monitor is
-- accepted and does not hold the slot afterwards. But the room's online flag is computed from the
-- message written over the room's old state, so members that the message leaves out count as
-- before.
pub publish_idle :
    (session : String) (e raw : Envelope) (now : ℕ) (s : ClientStatePayload) (r : Room) (h : Hub)
    → e.type ≡ "client_state"
    → unmarshal zero_client_state read_client_state e.payload ≡ some s
    → is_monitoring s ≡ false
    → lookup session h.rooms ≡ some r
    → r.user_id ≢ 0
    → let (h', accepted) = publish session e raw now h in
      (accepted ≡ true)
      × (lookup r.user_id h'.active_monitors ≢ some session)
      × ((room session h').online
          ≡ is_monitoring (unmarshal_into read_client_state e.payload r.client_state).0)
unfolding update_monitor_claim
publish_idle session e raw now s r h t d m q n = rw (publish_state session e raw now s h t d) (
    rw (q, update_monitor_claim)
      (claimed_cases (λ c. Idle (decide session e raw now c)) session r.user_id s h
        (λ z. absurd (n z)) (λ n k c. absurd (cc (m, k))) (λ n k c. absurd (cc (m, k)))
        (λ n k. (refl, given_up, online))))
  where
    Idle : Hub × Bool → Type 0
    Idle (h', accepted) =
        (accepted ≡ true)
        × (lookup r.user_id h'.active_monitors ≢ some session)
        × ((room session h').online
            ≡ is_monitoring (unmarshal_into read_client_state e.payload r.client_state).0)

    given_up :
        lookup r.user_id
          (deliver session e raw now (release_claim session r.user_id h)).active_monitors
        ≢ some session
    given_up k =
        (released session r.user_id r.user_id session h
            (sym (ap (lookup r.user_id) (deliver-active_monitors session e raw now _)) ∙ k)).1
          refl refl

    same_room : room session (release_claim session r.user_id h) ≡ r
    same_room =
        ap (λ x. room_or_new (lookup session x)) (release_claim-rooms session r.user_id h)
        ∙ ap room_or_new q

    online :
        (room session (deliver session e raw now (release_claim session r.user_id h))).online
        ≡ is_monitoring (unmarshal_into read_client_state e.payload r.client_state).0
    online =
        ap (λ (x : Room). x.online) (room-deliver session e raw now _ t)
        ∙ online-delivered e now _ t
        ∙ ap
            (λ (x : Room).
              is_monitoring (unmarshal_into read_client_state e.payload x.client_state).0)
            same_room
