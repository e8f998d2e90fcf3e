-- ===== src/Hub/QuietClaims.antt =====
-- Calls that leave every claim as it is.
use monitor_backend.Hub.QuietSteps.{send_to_room_cases, disconnect_room_cases}
use monitor_backend.Base.{
  ℕ, inl, inr, ◌≡◌, refl, sym, ap, String, Bool, true, false, Option, none, some, string_eq, nat_eq,
  lookup, Option-cases,
}
use mathlib.Core.Option.{some-injective}
use monitor_backend.Protocol.{ClientCommand}
use monitor_backend.Hub.{Hub, ViewerMessage, room}
use monitor_backend.Hub.Commands.{send_command, disconnect}
use monitor_backend.Hub.Watching.{
  first_snapshot, first_signal, unsubscribe_clients, send_first_snapshot, send_first_signal,
  observers_of,
}

pub send_command-active_monitors :
    (session : String) (c : ClientCommand) (taken : ℕ) (h : Hub)
    → (send_command session c taken h).0.active_monitors ≡ h.active_monitors
unfolding send_command
send_command-active_monitors session c taken h = elim (Option-cases (lookup session h.rooms)) [
  | inl e ↦ rw (e, send_command)
  | inr (r, e) ↦
      rw (e, send_command)
        (send_to_room_cases (λ k. k.active_monitors ≡ h.active_monitors) session c taken r h
          r.controls refl (λ q. refl))
]

pub disconnect-active_monitors :
    (session action reason : String) (h : Hub)
    → (disconnect session action reason h).0.active_monitors ≡ h.active_monitors
unfolding disconnect
disconnect-active_monitors session action reason h = elim (Option-cases (lookup session h.rooms)) [
  | inl e ↦ rw (e, disconnect)
  | inr (r, e) ↦
      rw (e, disconnect)
        (disconnect_room_cases (λ k. k.active_monitors ≡ h.active_monitors) session action reason r
          h r.controls refl (λ q. refl))
]

pub first_snapshot-active_monitors :
    (session viewer : String) (h : Hub) {h' : Hub}
    → first_snapshot session viewer h ≡ some h'
    → h'.active_monitors ≡ h.active_monitors
unfolding first_snapshot
first_snapshot-active_monitors session viewer h {h'} e =
    go (lookup viewer (room session h).viewers) e
  where
    go :
        (o : Option (Option ViewerMessage))
        → send_first_snapshot session viewer o h ≡ some h'
        → h'.active_monitors ≡ h.active_monitors
    go none k = absurd (cc k)
    go (some none) k = ap (λ x. x.active_monitors) (sym (some-injective _ _ k))
    go (some (some m)) k = absurd (cc k)

pub first_signal-active_monitors :
    (user : ℕ) (observer : String) (h : Hub) {h' : Hub}
    → first_signal user observer h ≡ some h'
    → h'.active_monitors ≡ h.active_monitors
unfolding first_signal
first_signal-active_monitors user observer h {h'} e = go (lookup observer (observers_of user h)) e
  where
    go :
        (o : Option Bool)
        → send_first_signal user observer o h ≡ some h'
        → h'.active_monitors ≡ h.active_monitors
    go none k = absurd (cc k)
    go (some false) k = ap (λ x. x.active_monitors) (sym (some-injective _ _ k))
    go (some true) k = absurd (cc k)

pub unsubscribe_clients-active_monitors :
    (user : ℕ) (observer : String) (h : Hub)
    → (unsubscribe_clients user observer h).active_monitors ≡ h.active_monitors
unfolding unsubscribe_clients
unsubscribe_clients-active_monitors user observer h =
    elim (Option-cases (lookup user h.client_observers)) [
      | inl e ↦ rw (e, unsubscribe_clients)
      | inr (m, e) ↦ rw (e, unsubscribe_clients)
    ]
