-- ===== src/Hub/Channels.antt =====
-- The channels of viewers and observers: what they hold after a broadcast, and when the first send
-- of `Subscribe` and `SubscribeClients` waits.
use monitor_backend.Base.{
  ℕ, ◌≡◌, ◌≢◌, refl, ap, ◌∙◌, String, Bool, true, false, Option, none, some, ◌==◌, string_eq,
  nat_eq, eq_iff, nat_beq_iff, Map, lookup, insert, map_values, lookup-insert, lookup-map_values,
  arith, Bool-cases, inl, inr,
}
use monitor_backend.Hub.{
  Hub, Room, ViewerMessage, snapshot_of, snapshot, room, set_room, broadcast,
  notify_client_observers, offer, signal,
}
use monitor_backend.Hub.Watching.{
  register_observer, first_signal, subscribe_clients, observers_of, register_viewer, first_snapshot,
  subscribe, send_first_signal, send_first_snapshot,
}

string_refl : (s : String) → (s == s) ≡ true
string_refl s = ground (arith, eq_iff s s)

nat_refl : (n : ℕ) → (n == n) ≡ true
nat_refl n = ground (arith, nat_beq_iff n n)

lookup-insert_self :
    (s : String) {V : Type 0} (v : V) (m : Map String V) → lookup s (insert s v m) ≡ some v
lookup-insert_self s v m = rw (lookup-insert s s v m, string_refl s)

lookup-insert_user : (n : ℕ) {V : Type 0} (v : V) (m : Map ℕ V) → lookup n (insert n v m) ≡ some v
lookup-insert_user n v m = rw (lookup-insert n n v m, nat_refl n)

-- A broadcast that no other one overlaps.
pub broadcast-viewers :
    (m : ViewerMessage) (viewer : String) (r : Room) (held : Option ViewerMessage)
    → lookup viewer r.viewers ≡ some held
    → lookup viewer (broadcast m r).viewers ≡ some (some m)
unfolding broadcast
broadcast-viewers m viewer r held e =
    rw (lookup-map_values (offer m) viewer r.viewers, e) (last held)
  where
    last : (o : Option ViewerMessage) → some (offer m o) ≡ some (some m)
    last none = refl
    last (some old) = refl

registered :
    (user : ℕ) (observer : String) (h : Hub)
    → lookup user (register_observer user observer h).client_observers
      ≡ some (insert observer false (observers_of user h))
unfolding register_observer
registered user observer h = lookup-insert_user user _ h.client_observers

observers_of-eq :
    (user : ℕ) (h : Hub) (m : Map String Bool)
    → lookup user h.client_observers ≡ some m
    → observers_of user h ≡ m
observers_of-eq user h m e = rw (e, observers_of)

first_signal_of :
    (user : ℕ) (observer : String) (h : Hub) (m : Map String Bool) (held : Bool)
    → lookup user h.client_observers ≡ some m
    → lookup observer m ≡ some held
    → first_signal user observer h ≡ send_first_signal user observer (some held) h
unfolding first_signal
first_signal_of user observer h m held e k =
    ap (λ o. send_first_signal user observer (lookup observer o) h) (observers_of-eq user h m e)
    ∙ ap (λ o. send_first_signal user observer o h) k

notified :
    (user : ℕ) (observer : String) (h : Hub) (m : Map String Bool) (held : Bool)
    → user ≢ 0
    → lookup user h.client_observers ≡ some m
    → lookup observer m ≡ some held
    → (m' : Map String Bool) × (lookup user (notify_client_observers user h).client_observers
        ≡ some m')
      × (lookup observer m' ≡ some true)
unfolding notify_client_observers
notified user observer h m held n e k = elim (Bool-cases (user == 0)) [
  | inl z ↦ absurd (n ((nat_beq_iff user 0).0 z))
  | inr z ↦ rw (z, e) (_, lookup-insert_user user _ h.client_observers, signalled)
]
  where
    signalled : lookup observer (map_values signal m) ≡ some true
    signalled = rw (lookup-map_values signal observer m, k) (always held)
      where
        always : (b : Bool) → some (signal b) ≡ some true
        always true = refl
        always false = refl

-- For an account, `SubscribeClients` returns, with one signal waiting, when nothing is sent to the
-- new channel between its registration and the first signal. If the account's observers are
-- notified in between, the first signal finds the channel full and waits.
pub subscribe_clients_lem :
    (user : ℕ) (observer : String) (h : Hub)
    → user ≢ 0
    → ((h' : Hub) × (subscribe_clients user observer h ≡ some h')
        × (lookup observer (observers_of user h') ≡ some true))
      × (first_signal user observer
            (notify_client_observers user (register_observer user observer h))
          ≡ none)
unfolding subscribe_clients
subscribe_clients_lem user observer h n =
    let r0 = register_observer user observer h in
    let sent : Hub = record r0 {
      client_observers =
          insert user (insert observer true (observers_of user r0)) r0.client_observers;
    } in
    let r = registered user observer h in
    let s = lookup-insert_self observer false (observers_of user h) in
    let (m, e, k) = notified user observer (register_observer user observer h) _ false n r s in
    (
      (
        _,
        first_signal_of user observer (register_observer user observer h) _ false r s,
        ap (lookup observer) (
              observers_of-eq user sent (insert observer true (observers_of user r0))
                (lookup-insert_user user _ _))
            ∙ lookup-insert_self observer true _,
      ),
      first_signal_of user observer _ m true e k,
    )

viewer_registered :
    (session viewer : String) (h : Hub)
    → lookup viewer (room session (register_viewer session viewer h)).viewers ≡ some none
unfolding register_viewer
viewer_registered session viewer h =
    rw
      (lookup-insert_self session
        (record (room session h) { viewers = insert viewer none (room session h).viewers }) h.rooms)
      (lookup-insert_self viewer none (room session h).viewers)

pub room-set_room :
    (session : String) (r : Room) (h : Hub) → room session (set_room session r h) ≡ r
room-set_room session r h = rw (lookup-insert_self session r h.rooms)

-- `Subscribe` returns, with the room's snapshot waiting, when nothing is broadcast to the new
-- channel between its registration and the first send. If the room broadcasts a message in
-- between, the first send finds the channel full and waits.
pub subscribe_lem :
    (session viewer : String) (m : ViewerMessage) (h : Hub)
    → let h' = register_viewer session viewer h in
      ((h'' : Hub) × (subscribe session viewer h ≡ some h'')
        × (lookup viewer (room session h'').viewers
            ≡ some (some (snapshot_of (snapshot (room session h'))))))
      × (first_snapshot session viewer (set_room session (broadcast m (room session h')) h') ≡ none)
unfolding subscribe first_snapshot
subscribe_lem session viewer m h =
    let h' = register_viewer session viewer h in
    let e = viewer_registered session viewer h in
    let r = room session h' in
    (
      (
        _,
        ap (λ o. send_first_snapshot session viewer o h') e,
        ap (λ (x : Room). lookup viewer x.viewers) (room-set_room session _ h')
            ∙ lookup-insert_self viewer _ r.viewers,
      ),
      ap
            (λ (x : Room).
              send_first_snapshot session viewer (lookup viewer x.viewers)
                (set_room session (broadcast m r) h'))
            (room-set_room session (broadcast m r) h')
          ∙ ap (λ o. send_first_snapshot session viewer o (set_room session (broadcast m r) h'))
              (broadcast-viewers m viewer r none e),
    )
