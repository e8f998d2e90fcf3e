-- ===== src/Hub/QuietSteps.antt =====
-- The calls that change nothing on which the monitor claims depend.
use monitor_backend.Base.{
  ℕ, inl, inr, ◌≡◌, refl, ◌∙◌, subst, String, Bool, true, false, Option, none, some, List,
  string_eq, nat_eq, state_if_not, lookup, lookup-map_values, arith, Option-cases,
}
use mathlib.Core.Option
use mathlib.Core.Option.{some-injective}
use monitor_backend.Protocol.{ClientCommand}
use monitor_backend.Hub.{Hub, Room, Frame, ViewerMessage, room, room_or_new, set_room}
use monitor_backend.Hub.Commands.{send_command, send_to_room, disconnect, disconnect_room}
use monitor_backend.Hub.Watching.{
  first_snapshot, first_signal, unsubscribe_clients, close, closed_room, send_first_snapshot,
  send_first_signal, observers_of,
}
use monitor_backend.Hub.Claims.{
  Phase, Phases, same-Stands, Holds, Owned, Inv, Inv-InvBut, set_room-Inv, same-Inv,
}

-- A room that differs in nothing that the claims depend on.
pub quiet-Inv :
    (owner : String → ℕ) (ph : Phases) (session : String) (r : Room) (h : Hub)
    → r.user_id ≡ (room session h).user_id
    → r.client_state ≡ (room session h).client_state
    → r.online ≡ (room session h).online
    → Inv owner ph h
    → Inv owner ph (set_room session r h)
quiet-Inv owner ph session r h a b c v =
    set_room-Inv owner ph h session r (Inv-InvBut owner ph session h v)
      (own (lookup session h.rooms) a (v.owned session))
      (λ u e. hold u (lookup session h.rooms) a b c (v.holds u session e))
  where
    own :
        (o : Option Room)
        → r.user_id ≡ (room_or_new o).user_id
        → Owned (owner session) o
        → Owned (owner session) (some r)
    own none p w = ground arith
    own (some q) p w = ground arith

    hold :
        (u : ℕ) (o : Option Room)
        → r.user_id ≡ (room_or_new o).user_id
        → r.client_state ≡ (room_or_new o).client_state
        → r.online ≡ (room_or_new o).online
        → Holds (ph session) u o
        → Holds (ph session) u (some r)
    hold u none p q s w = absurd w
    hold u (some x) p q s w = (p ∙ w.0, w.1, same-Stands (ph session) x r q s w.2)

-- Sending a command and disconnecting change a room's controls channel at most.
pub send_to_room_cases :
    (P : Hub → Type 0) (session : String) (c : ClientCommand) (taken : ℕ) (r : Room) (h : Hub)
    (o : Option (List Frame))
    → P h
    → ((q : Option (List Frame)) → P (set_room session (record r { controls = q }) h))
    → P (send_to_room session c taken r o h).0
send_to_room_cases P session c taken r h none p k = p
send_to_room_cases P session c taken r h (some q) p k = state_if_not P r.connected _ _ p (k _)

pub disconnect_room_cases :
    (P : Hub → Type 0) (session action reason : String) (r : Room) (h : Hub)
    (o : Option (List Frame))
    → P h
    → ((q : Option (List Frame)) → P (set_room session (record r { controls = q }) h))
    → P (disconnect_room session action reason r o h).0
disconnect_room_cases P session action reason r h none p k = p
disconnect_room_cases P session action reason r h (some q) p k =
    state_if_not P r.connected _ _ p (k _)

controls-Inv :
    (owner : String → ℕ) (ph : Phases) (session : String) (r : Room) (h : Hub)
    (q : Option (List Frame))
    → Inv owner ph h
    → lookup session h.rooms ≡ some r
    → Inv owner ph (set_room session (record r { controls = q }) h)
controls-Inv owner ph session r h q v e =
    quiet-Inv owner ph session (record r { controls = q }) h (ground (arith, e)) (ground (arith, e))
      (ground (arith, e)) v

pub send_command-Inv :
    (owner : String → ℕ) (ph : Phases) (session : String) (c : ClientCommand) (taken : ℕ) (h : Hub)
    → Inv owner ph h
    → Inv owner ph (send_command session c taken h).0
unfolding send_command
send_command-Inv owner ph session c taken h v = elim (Option-cases (lookup session h.rooms)) [
  | inl e ↦ rw (e, send_command) v
  | inr (r, e) ↦
      rw (e, send_command)
        (send_to_room_cases (Inv owner ph) session c taken r h r.controls v
          (λ q. controls-Inv owner ph session r h q v e))
]

pub disconnect-Inv :
    (owner : String → ℕ) (ph : Phases) (session action reason : String) (h : Hub)
    → Inv owner ph h
    → Inv owner ph (disconnect session action reason h).0
unfolding disconnect
disconnect-Inv owner ph session action reason h v = elim (Option-cases (lookup session h.rooms)) [
  | inl e ↦ rw (e, disconnect) v
  | inr (r, e) ↦
      rw (e, disconnect)
        (disconnect_room_cases (Inv owner ph) session action reason r h r.controls v
          (λ q. controls-Inv owner ph session r h q v e))
]

pub first_snapshot-Inv :
    (owner : String → ℕ) (ph : Phases) (session viewer : String) (h : Hub) {h' : Hub}
    → first_snapshot session viewer h ≡ some h'
    → Inv owner ph h
    → Inv owner ph h'
unfolding first_snapshot
first_snapshot-Inv owner ph session viewer h {h'} e v =
    go (lookup viewer (room session h).viewers) e
  where
    go :
        (o : Option (Option ViewerMessage))
        → send_first_snapshot session viewer o h ≡ some h'
        → Inv owner ph h'
    go none k = absurd (cc k)
    go (some none) k =
        subst (Inv owner ph) (some-injective _ _ k)
          (quiet-Inv owner ph session _ h refl refl refl v)
    go (some (some m)) k = absurd (cc k)

pub first_signal-Inv :
    (owner : String → ℕ) (ph : Phases) (user : ℕ) (observer : String) (h : Hub) {h' : Hub}
    → first_signal user observer h ≡ some h'
    → Inv owner ph h
    → Inv owner ph h'
unfolding first_signal
first_signal-Inv owner ph user observer h {h'} e v = go (lookup observer (observers_of user h)) e
  where
    go : (o : Option Bool) → send_first_signal user observer o h ≡ some h' → Inv owner ph h'
    go none k = absurd (cc k)
    go (some false) k =
        subst (Inv owner ph) (some-injective _ _ k) (same-Inv owner ph h _ refl refl v)
    go (some true) k = absurd (cc k)

pub forgets-Inv :
    (owner : String → ℕ) (ph : Phases) (user : ℕ) (observer : String) (h : Hub)
    → Inv owner ph h
    → Inv owner ph (unsubscribe_clients user observer h)
unfolding unsubscribe_clients
forgets-Inv owner ph user observer h v = elim (Option-cases (lookup user h.client_observers)) [
  | inl e ↦ rw (e, unsubscribe_clients) v
  | inr (m, e) ↦ rw (e, unsubscribe_clients) (same-Inv owner ph h _ refl refl v)
]

pub close-Inv :
    (owner : String → ℕ) (ph : Phases) (h : Hub) → Inv owner ph h → Inv owner ph (close h)
unfolding close
close-Inv owner ph h v = record {
  holds = λ u s e.
      rw (lookup-map_values closed_room s h.rooms)
        (hold (ph s) u (lookup s h.rooms) (v.holds u s e));
  owned = λ s.
      rw (lookup-map_values closed_room s h.rooms) (own (owner s) (lookup s h.rooms) (v.owned s));
}
  where
    hold :
        (p : Phase) (u : ℕ) (o : Option Room) → Holds p u o → Holds p u (Option.map closed_room o)
    hold p u none k = k
    hold p u (some r) k = (k.0, k.1, same-Stands p r (closed_room r) refl refl k.2)

    own : (u : ℕ) (o : Option Room) → Owned u o → Owned u (Option.map closed_room o)
    own u none k = k
    own u (some r) k = k
