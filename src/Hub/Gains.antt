-- ===== src/Hub/Gains.antt =====
-- The gain of a room, which only the server writes.
use monitor_backend.Base.{
  ℕ, ◌≡◌, ◌≢◌, refl, ap, ◌∙◌, String, Bool, true, false, Option, none, some, ◌==◌, string_eq,
  nat_eq, eq_iff, if◌then◌else◌, lookup, arith, Bool-cases, Option-cases, inl, inr,
}
use monitor_backend.Base.Results.{ok}
use monitor_backend.Json.{Json, unmarshal}
use monitor_backend.Protocol.{Envelope, ClientStatePayload, zero_client_state, read_client_state}
use monitor_backend.Protocol.Validate.{Message, validate_envelope}
use monitor_backend.Protocol.Kinds.{Allowed}
use monitor_backend.Protocol.Envelopes.{validate_envelope_iff}
use monitor_backend.Hub.{
  Hub, Room, room, room_or_new, set_room, forwarded, broadcast, broadcast_snapshot,
  notify_client_observers,
}
use monitor_backend.Hub.Publishing.{
  publish, deliver, store_by, store_payload, decide, claim_first, claim_decoded,
  update_monitor_claim,
}
use monitor_backend.Hub.Claims.{release_claim-rooms, notify-rooms}
use monitor_backend.Hub.PublishCases.{claimed_cases}
use monitor_backend.Hub.Channels.{room-set_room}

not_gain : {type : String} {raw : Option Json} → Allowed type raw → type ≢ "gain"
not_gain (Allowed.map t p d c) e = ground (arith, eq_iff "map" "gain")
not_gain (Allowed.frame t p d c) e = ground (arith, eq_iff "frame" "gain")
not_gain (Allowed.status t p d c) e = ground (arith, eq_iff "status" "gain")
not_gain (Allowed.exp t p d c) e = ground (arith, eq_iff "exp" "gain")
not_gain (Allowed.rune t p d c) e = ground (arith, eq_iff "rune" "gain")
not_gain (Allowed.verification t p d c) e = ground (arith, eq_iff "verification" "gain")
not_gain (Allowed.zone t p d c) e = ground (arith, eq_iff "zone" "gain")
not_gain (Allowed.client_state t p d c) e = ground (arith, eq_iff "client_state" "gain")
not_gain (Allowed.team_joined t p d c) e = ground (arith, eq_iff "team_joined" "gain")
not_gain (Allowed.progress t p d c) e = ground (arith, eq_iff "rope_party_progress" "gain")

-- A choice between rooms of the same gain.
either :
    (g : Option Json) (b : Bool) (x y : Room)
    → x.latest_gain ≡ g
    → y.latest_gain ≡ g
    → (if b then x else y).latest_gain ≡ g
either g true x y p q = p
either g false x y p q = q

store-latest_gain :
    (type : String) (payload : Option Json) (r : Room)
    → type ≢ "gain"
    → (store_by type payload r).latest_gain ≡ r.latest_gain
unfolding store_by
store-latest_gain type payload r n = either g (type == "map") _ _ refl (
    either g (type == "frame") _ _ refl (
      either g (type == "status") _ _ refl (
        either g (type == "exp") _ _ refl (
          either g (type == "rune") _ _ refl (
            either g (type == "verification") _ _ refl (
              either g (type == "zone") _ _ refl (elim (Bool-cases (type == "gain")) [
                | inl p ↦ absurd (n ((eq_iff type "gain").0 p))
                | inr q ↦ rw q (either g (type == "client_state") _ _ refl refl)
              ])))))))
  where
    g : Option Json
    g = r.latest_gain

snapshot-latest_gain : (r : Room) → (broadcast_snapshot r).latest_gain ≡ r.latest_gain
unfolding broadcast_snapshot
snapshot-latest_gain r = refl

forward-latest_gain :
    (raw : Envelope) (r : Room) → (broadcast (forwarded raw) r).latest_gain ≡ r.latest_gain
unfolding broadcast
forward-latest_gain raw r = refl

stored : Envelope → ℕ → Room → Room
stored e now r = record (store_payload e r) { updated_at = now }

stored-latest_gain :
    (e : Envelope) (now : ℕ) (r : Room)
    → e.type ≢ "gain"
    → (stored e now r).latest_gain ≡ r.latest_gain
unfolding stored store_payload
stored-latest_gain e now r n = store-latest_gain e.type e.payload r n

deliver-latest_gain :
    (session : String) (e raw : Envelope) (now : ℕ) (h : Hub)
    → e.type ≢ "gain"
    → (room session (deliver session e raw now h)).latest_gain ≡ (room session h).latest_gain
unfolding deliver stored
deliver-latest_gain session e raw now h n = go (e.type == "client_state")
  where
    r : Room
    r = stored e now (room session h)

    go :
        (b : Bool)
        → (room session (
            if b
            then notify_client_observers r.user_id (set_room session (broadcast_snapshot r) h)
            else set_room session (broadcast (forwarded raw) r) h)).latest_gain
          ≡ (room session h).latest_gain
    go true =
        ap (λ m. (room_or_new (lookup session m)).latest_gain) (notify-rooms r.user_id _)
        ∙ ap (λ (x : Room). x.latest_gain) (room-set_room session (broadcast_snapshot r) h)
        ∙ snapshot-latest_gain r
        ∙ stored-latest_gain e now (room session h) n
    go false =
        ap (λ (x : Room). x.latest_gain) (room-set_room session (broadcast (forwarded raw) r) h)
        ∙ forward-latest_gain raw r
        ∙ stored-latest_gain e now (room session h) n

update-rooms :
    (session : String) (s : ClientStatePayload) (h : Hub)
    → (update_monitor_claim session s h).0.rooms ≡ h.rooms
unfolding update_monitor_claim
update-rooms session s h = elim (Option-cases (lookup session h.rooms)) [
  | inl q ↦ rw (q, update_monitor_claim) refl
  | inr (r, q) ↦
      rw (q, update_monitor_claim)
        (claimed_cases (λ c. c.0.rooms ≡ h.rooms) session r.user_id s h (λ z. refl) (λ n m c. refl)
          (λ n m c. refl) (λ n m. release_claim-rooms session r.user_id h))
]

claim-rooms :
    (session : String) (e : Envelope) (h : Hub) → (claim_first session e h).0.rooms ≡ h.rooms
unfolding claim_first
claim-rooms session e h = go (unmarshal zero_client_state read_client_state e.payload)
  where
    go : (o : Option ClientStatePayload) → (claim_decoded session h o).0.rooms ≡ h.rooms
    go none = refl
    go (some s) = update-rooms session s h

-- Publishing a message that `ValidateEnvelope` passes does not change the latest gain of the
-- session's room, whether it is granted or refused: a device cannot forge it.
pub publish-latest_gain :
    (m : Message) (e raw : Envelope) (session : String) (now : ℕ) (h : Hub)
    → validate_envelope m ≡ ok e
    → (room session (publish session e raw now h).0).latest_gain ≡ (room session h).latest_gain
unfolding publish
publish-latest_gain m e raw session now h v = outer (e.type == "client_state")
  where
    n : e.type ≢ "gain"
    n = not_gain ((validate_envelope_iff m e).0 v).allowed

    decided :
        (c : Hub × Bool)
        → c.0.rooms ≡ h.rooms
        → (room session (decide session e raw now c).0).latest_gain ≡ (room session h).latest_gain
    decided (h', true) q =
        deliver-latest_gain session e raw now h' n
        ∙ ap (λ m. (room_or_new (lookup session m)).latest_gain) q
    decided (h', false) q = ap (λ m. (room_or_new (lookup session m)).latest_gain) q

    outer :
        (b : Bool)
        → (room session
            (decide session e raw now
              (if b then claim_first session e h else (h, true))).0).latest_gain
          ≡ (room session h).latest_gain
    outer true = decided (claim_first session e h) (claim-rooms session e h)
    outer false = decided (h, true) refl
