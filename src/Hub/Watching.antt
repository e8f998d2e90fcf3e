-- ===== src/Hub/Watching.antt =====
-- What viewers, observers and the other services read, and `Close`.
use monitor_backend.Base.{
  ℕ, String, Bool, true, false, ◌&&◌, Option, none, some, [], ◌∷◌, ◌==◌, string_eq, nat_eq,
  if◌then◌else◌, Map, lookup, insert, erase, map_values,
}
use monitor_backend.Json.{Json, Reader, unmarshal}
use monitor_backend.Protocol.{
  ClientStatePayload, ExpPayload, RunePayload, VerificationPayload, ZonePayload, zero_client_state,
  zero_exp, zero_rune, zero_verification, zero_zone, read_exp, read_rune, read_verification,
  read_zone,
}
use monitor_backend.Hub.{Hub, Room, ViewerMessage, snapshot_of, room, set_room, snapshot}

unfoldable pub client_status : String → Hub → Bool × ClientStatePayload × ℕ
client_status session h = elim (lookup session h.rooms) [
  | none ↦ (false, zero_client_state, 0)
  | some r ↦ (r.connected, r.client_state, r.updated_at)
]

abbrev pub active_room : ℕ → String → Option Room → String × Bool
active_room user session none = ("", false)
active_room user session (some r) =
    if session == "" then ("", false) else (session, r.connected && (r.online && r.user_id == user))

unfoldable pub active_monitor_session : ℕ → Hub → String × Bool
active_monitor_session user h = elim (lookup user h.active_monitors) [
  | none ↦ active_room user "" (lookup "" h.rooms)
  | some session ↦ active_room user session (lookup session h.rooms)
]

-- `SubscribeClients` in its two parts: the registration under the hub's lock, and the first signal,
-- sent to a channel of capacity one without the lock. `none`: the send waits for a reader, and there
-- is none until the call returns.
abbrev pub observers_of : ℕ → Hub → Map String Bool
observers_of user h = elim (lookup user h.client_observers) [ none ↦ [] | some m ↦ m ]

unfoldable pub register_observer : ℕ → String → Hub → Hub
register_observer user observer h = record h {
  client_observers = insert user (insert observer false (observers_of user h)) h.client_observers;
}

abbrev pub send_first_signal : ℕ → String → Option Bool → Hub → Option Hub
send_first_signal user observer (some false) h = some (record h {
  client_observers = insert user (insert observer true (observers_of user h)) h.client_observers;
})
send_first_signal user observer _ h = none

unfoldable pub first_signal : ℕ → String → Hub → Option Hub
first_signal user observer h =
    send_first_signal user observer (lookup observer (observers_of user h)) h

unfoldable pub subscribe_clients : ℕ → String → Hub → Option Hub
unfolding register_observer first_signal
subscribe_clients user observer h = first_signal user observer (register_observer user observer h)

abbrev pub without_empty : ℕ → Map String Bool → Map ℕ (Map String Bool) → Map ℕ (Map String Bool)
without_empty user [] m = erase user m
without_empty user (o ∷ os) m = insert user (o ∷ os) m

unfoldable pub unsubscribe_clients : ℕ → String → Hub → Hub
unsubscribe_clients user observer h = elim (lookup user h.client_observers) [
  | none ↦ h
  | some observers ↦ record h {
    client_observers = without_empty user (erase observer observers) h.client_observers;
  }
]

-- `Subscribe` in its two parts, as `SubscribeClients`.
unfoldable pub register_viewer : String → String → Hub → Hub
register_viewer session viewer h =
    let r = room session h in
    set_room session (record r { viewers = insert viewer none r.viewers }) h

abbrev pub send_first_snapshot : String → String → Option (Option ViewerMessage) → Hub → Option Hub
send_first_snapshot session viewer (some none) h =
    let r = room session h in
    some (
      set_room session
        (record r { viewers = insert viewer (some (snapshot_of (snapshot r))) r.viewers }) h)
send_first_snapshot session viewer _ h = none

unfoldable pub first_snapshot : String → String → Hub → Option Hub
unfolding snapshot
first_snapshot session viewer h =
    send_first_snapshot session viewer (lookup viewer (room session h).viewers) h

unfoldable pub subscribe : String → String → Hub → Option Hub
unfolding register_viewer first_snapshot
subscribe session viewer h = first_snapshot session viewer (register_viewer session viewer h)

unfoldable pub unsubscribe : String → String → Hub → Hub
unsubscribe session viewer h =
    let r = room session h in set_room session (record r { viewers = erase viewer r.viewers }) h

-- The four `Latest` functions: the payload, whether the device is online, whether there is one.
abbrev pub reading : {A : Type 0} → A → Reader A → Bool → Option Json → A × Bool × Bool
reading fresh r online none = (fresh, online, false)
reading fresh r online (some raw) = elim (unmarshal fresh r (some raw)) [
  | none ↦ (fresh, online, false)
  | some p ↦ (p, online, true)
]

unfoldable pub latest_exp : String → Hub → ExpPayload × Bool × Bool
latest_exp session h = elim (lookup session h.rooms) [
  | none ↦ (zero_exp, false, false)
  | some r ↦ reading zero_exp read_exp r.online r.latest_exp
]

unfoldable pub latest_rune : String → Hub → RunePayload × Bool × Bool
latest_rune session h = elim (lookup session h.rooms) [
  | none ↦ (zero_rune, false, false)
  | some r ↦ reading zero_rune read_rune r.online r.latest_rune
]

unfoldable pub latest_verification : String → Hub → VerificationPayload × Bool × Bool
latest_verification session h = elim (lookup session h.rooms) [
  | none ↦ (zero_verification, false, false)
  | some r ↦ reading zero_verification read_verification r.online r.latest_verification
]

unfoldable pub latest_zone : String → Hub → ZonePayload × Bool × Bool
latest_zone session h = elim (lookup session h.rooms) [
  | none ↦ (zero_zone, false, false)
  | some r ↦ reading zero_zone read_zone r.online r.latest_zone
]

abbrev pub closed_room : Room → Room
closed_room r = record r { controls = none; viewers = [] }

unfoldable pub close : Hub → Hub
close h = record h { closed = true; rooms = map_values closed_room h.rooms; client_observers = [] }
