-- ===== src/Hub/Runs.antt =====
-- Histories of calls, and what holds of the monitor claims after any of them. A step is what one lock
-- covers: `Publish` and the function that `AttachDevice` returns are several steps, with any others in
-- between. A broadcast and the signals that follow it are part of the step before them: they change
-- channels only.
use monitor_backend.Base.{
  ℕ, ◌≡◌, refl, ◌≢◌, subst, String, true, Option, none, some, ◌==◌, string_eq, nat_eq, eq_iff,
  lookup, arith, if◌then◌else◌, Bool-cases, inl, inr,
}
use monitor_backend.Json.{unmarshal}
use monitor_backend.Protocol.{
  Envelope, ClientCommand, ClientStatePayload, GainPayload, zero_client_state, read_client_state,
}
use monitor_backend.Hub.{Hub, Room, new_hub, is_monitoring}
use monitor_backend.Hub.Devices.{attach_device, leave_room, release_left, announce_left}
use monitor_backend.Hub.Publishing.{update_monitor_claim, deliver, publish_gain, gain_envelope}
use monitor_backend.Hub.Commands.{send_command, disconnect}
use monitor_backend.Hub.Watching.{
  register_viewer, first_snapshot, unsubscribe, register_observer, first_signal,
  unsubscribe_clients, close, active_monitor_session,
}
use monitor_backend.Hub.Claims.{
  Phases, settled, storing, leaving, set_phase, claim-owner, Holds, Inv, new_hub-Inv, same-Inv,
}
use monitor_backend.Hub.ClaimSteps.{
  attach_device-Inv, leave_room-Inv, release_left-Inv, announce_left-Inv,
}
use monitor_backend.Hub.PublishSteps.{update_monitor_claim-Inv, store_state-Inv, store_other-Inv}
use monitor_backend.Hub.QuietSteps.{
  quiet-Inv, send_command-Inv, disconnect-Inv, first_snapshot-Inv, first_signal-Inv, forgets-Inv,
  close-Inv,
}

-- Devices attach and detach under the user that owns the session. A client state that decodes is claimed
-- and then, if it is granted, stored.
pub data Step (owner : String → ℕ) (h : Hub) : Hub → Type 0 where
  attaches :
      (session connection : String) (now : ℕ)
      → Step owner h (attach_device session (owner session) connection now h)
  leaves :
      (session connection : String) (now : ℕ) → Step owner h (leave_room session connection now h).0
  releases : (session : String) → Step owner h (release_left session (owner session) h)
  announces : (session : String) → Step owner h (announce_left session (owner session) h)
  claims :
      (session : String) (s : ClientStatePayload)
      → Step owner h (update_monitor_claim session s h).0
  stores :
      (session : String) (e raw : Envelope) (now : ℕ) → Step owner h (deliver session e raw now h)
  gains :
      (session : String) (p : GainPayload) (now : ℕ) → Step owner h (publish_gain session p now h)
  sends :
      (session : String) (c : ClientCommand) (taken : ℕ)
      → Step owner h (send_command session c taken h).0
  disconnects :
      (session action reason : String) → Step owner h (disconnect session action reason h).0
  registers : (session viewer : String) → Step owner h (register_viewer session viewer h)
  snapshots :
      (session viewer : String) {h' : Hub}
      → first_snapshot session viewer h ≡ some h'
      → Step owner h h'
  unsubscribes : (session viewer : String) → Step owner h (unsubscribe session viewer h)
  observes : (user : ℕ) (observer : String) → Step owner h (register_observer user observer h)
  signals :
      (user : ℕ) (observer : String) {h' : Hub}
      → first_signal user observer h ≡ some h'
      → Step owner h h'
  forgets : (user : ℕ) (observer : String) → Step owner h (unsubscribe_clients user observer h)
  closes : Step owner h (close h)

pub data Reach (owner : String → ℕ) (h : Hub) : Hub → Type 0 where
  here : Reach owner h h
  next : {t u : Hub} → Reach owner h t → Step owner t u → Reach owner h u

-- What the sessions' calls have under way after a step.
abbrev pub after_step : {owner : String → ℕ} {h h' : Hub} → Step owner h h' → Phases → Phases
after_step {owner} {h} (leaves session connection now) ph =
    if (leave_room session connection now h).1 then set_phase session leaving ph else ph
after_step (releases session) ph = set_phase session settled ph
after_step {owner} {h} (claims session s) ph =
    if (update_monitor_claim session s h).1 then set_phase session (storing s) ph else ph
after_step (stores session e raw now) ph =
    if e.type == "client_state" then set_phase session settled ph else ph
after_step _ ph = ph

-- A client state is stored while the session's last claim is its own: no other claim and no disconnection
-- of the session came between its two parts.
abbrev pub Matches : {owner : String → ℕ} {h h' : Hub} → Step owner h h' → Phases → Type 0
Matches (stores session e raw now) ph =
    e.type ≡ "client_state"
    → (s : ClientStatePayload) × (unmarshal zero_client_state read_client_state e.payload ≡ some s)
      × (ph session ≡ storing s)
Matches _ ph = Unit

abbrev pub phases : {owner : String → ℕ} {h h' : Hub} → Reach owner h h' → Phases
phases here = λ session. settled
phases (next run step) = after_step step (phases run)

abbrev pub Matched : {owner : String → ℕ} {h h' : Hub} → Reach owner h h' → Type 0
Matched here = Unit
Matched (next run step) = Matched run × Matches step (phases run)

-- Every step keeps the invariant.
pub Step-Inv :
    (owner : String → ℕ) (ph : Phases) {h h' : Hub}
    → (step : Step owner h h') → Matches step ph
    → Inv owner ph h
    → Inv owner (after_step step ph) h'
unfolding publish_gain register_viewer unsubscribe register_observer
Step-Inv owner ph {h} (attaches session connection now) a v =
    attach_device-Inv owner ph session connection now h v
Step-Inv owner ph {h} (leaves session connection now) a v =
    leave_room-Inv owner ph session h v connection now
Step-Inv owner ph {h} (releases session) a v = release_left-Inv owner ph session h v
Step-Inv owner ph {h} (announces session) a v = announce_left-Inv owner ph session h v
Step-Inv owner ph {h} (claims session s) a v = update_monitor_claim-Inv owner ph session h v s
Step-Inv owner ph {h} (stores session e raw now) a v =
    elim (Bool-cases (e.type == "client_state")) [
      | inl p ↦
          let t = (eq_iff e.type "client_state").0 p in
          let (s, d, storing_s) = a t in
          rw p (store_state-Inv owner ph session h v e raw now s t d storing_s)
      | inr n ↦ rw n (
          store_other-Inv owner ph session h v e raw now
            (λ t. cc ((eq_iff e.type "client_state").1 t, n)))
    ]
Step-Inv owner ph {h} (gains session p now) a v =
    store_other-Inv owner ph session h v (gain_envelope p) (gain_envelope p) now
      (ground (arith, eq_iff "gain" "client_state"))
Step-Inv owner ph {h} (sends session c taken) a v = send_command-Inv owner ph session c taken h v
Step-Inv owner ph {h} (disconnects session action reason) a v =
    disconnect-Inv owner ph session action reason h v
Step-Inv owner ph {h} (registers session viewer) a v =
    quiet-Inv owner ph session _ h refl refl refl v
Step-Inv owner ph {h} (snapshots session viewer e) a v =
    first_snapshot-Inv owner ph session viewer h e v
Step-Inv owner ph {h} (unsubscribes session viewer) a v =
    quiet-Inv owner ph session _ h refl refl refl v
Step-Inv owner ph {h} (observes user observer) a v = same-Inv owner ph h _ refl refl v
Step-Inv owner ph {h} (signals user observer e) a v = first_signal-Inv owner ph user observer h e v
Step-Inv owner ph {h} (forgets user observer) a v = forgets-Inv owner ph user observer h v
Step-Inv owner ph {h} closes a v = close-Inv owner ph h v

Reach-Inv :
    (owner : String → ℕ) {h : Hub} (run : Reach owner new_hub h)
    → Matched run
    → Inv owner (phases run) h
Reach-Inv owner here a = new_hub-Inv owner (λ session. settled)
Reach-Inv owner (next run step) a = Step-Inv owner (phases run) step a.1 (Reach-Inv owner run a.0)

-- After any history of steps from an empty hub, those of different sessions in any order, in which devices
-- attach under the owner of their session, and no other client state and no disconnection of a session
-- comes between the claim of one of its client states and its storing, a claim of a user's monitor slot
-- by a session of which no client state and no disconnection is half done is by a session of that user,
-- whose room reports a running monitor and is online.
pub claims_are_good :
    (owner : String → ℕ) (h : Hub) (user : ℕ) (session : String) (run : Reach owner new_hub h)
    → Matched run
    → phases run session ≡ settled
    → lookup user h.active_monitors ≡ some session
    → (user ≡ owner session)
      × ((r : Room) × (lookup session h.rooms ≡ some r)
          × (r.user_id ≡ user)
          × (is_monitoring r.client_state ≡ true)
          × (r.online ≡ true))
claims_are_good owner h user session run a over e =
    let v = Reach-Inv owner run a in
    (
      claim-owner owner (phases run) user session h v e,
      found (lookup session h.rooms)
          (subst (λ p. Holds p user (lookup session h.rooms)) over (v.holds user session e)),
    )
  where
    found :
        (o : Option Room)
        → Holds settled user o
        → (r : Room) × (o ≡ some r)
          × (r.user_id ≡ user)
          × (is_monitoring r.client_state ≡ true)
          × (r.online ≡ true)
    found none k = absurd k
    found (some r) k = (r, refl, k.0, k.2.0, k.2.1)

-- After such a history, if a session with a nonempty id claims a user's slot and none of its client states
-- or disconnections is half done, `ActiveMonitorSession` answers with that session, active exactly as
-- long as its room is connected.
pub active_monitor_session_lem :
    (owner : String → ℕ) (h : Hub) (user : ℕ) (session : String) (run : Reach owner new_hub h)
    → Matched run
    → phases run session ≡ settled
    → lookup user h.active_monitors ≡ some session
    → session ≢ ""
    → (r : Room) × (lookup session h.rooms ≡ some r)
      × (active_monitor_session user h ≡ (session, r.connected))
unfolding active_monitor_session
active_monitor_session_lem owner h user session run a over e n =
    let (_, (r, q, z, m, o)) = claims_are_good owner h user session run a over e in
    (r, q, rw (e, active_monitor_session) (rw q (ground (arith, eq_iff session ""))))
