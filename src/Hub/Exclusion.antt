-- ===== src/Hub/Exclusion.antt =====
-- One running monitor for each account: who is refused, and how long a claim stands.
use monitor_backend.Base.{
  ℕ, ◌⊎◌, inl, inr, ◌≡◌, refl, ◌≢◌, ap, ◌∙◌, String, Bool, true, false, some, ◌==◌, string_eq,
  nat_eq, eq_iff, nat_beq_iff, lookup, insert, lookup-insert, arith, Bool-cases, Option-cases,
}
use monitor_backend.Protocol.{Envelope}
use monitor_backend.Hub.{Hub, Room, is_monitoring}
use monitor_backend.Hub.Devices.{attach_device, leave_room, release_left, announce_left}
use monitor_backend.Hub.Publishing.{publish, publish_gain, gain_envelope}
use monitor_backend.Hub.Watching.{register_viewer, unsubscribe, register_observer, close}
use monitor_backend.Json.{unmarshal}
use monitor_backend.Protocol.{ClientStatePayload, zero_client_state, read_client_state}
use monitor_backend.Hub.Devices.{release_claim}
use monitor_backend.Hub.Publishing.{update_monitor_claim, deliver, or_empty, decide}
use monitor_backend.Hub.Claims.{notify-active_monitors, release_claim-lookup}
use monitor_backend.Hub.PublishCases.{claimed_cases, conflicts}
use monitor_backend.Hub.PublishSteps.{publish_state}
use monitor_backend.Hub.QuietClaims.{
  send_command-active_monitors, disconnect-active_monitors, first_snapshot-active_monitors,
  first_signal-active_monitors, unsubscribe_clients-active_monitors,
}
use monitor_backend.Hub.Runs.{
  Step, Reach, here, next, attaches, leaves, releases, announces, claims, stores, gains, sends,
  disconnects, registers, snapshots, unsubscribes, observes, signals, forgets, closes,
}

pub deliver-active_monitors :
    (session : String) (e raw : Envelope) (now : ℕ) (h : Hub)
    → (deliver session e raw now h).active_monitors ≡ h.active_monitors
unfolding deliver
deliver-active_monitors session e raw now h = elim (Bool-cases (e.type == "client_state")) [
  | inl p ↦ rw p (notify-active_monitors _ _)
  | inr n ↦ rw n
]

-- What a call of `Publish` with a running monitor may come to, for the user's slot.
abbrev pub Outcome : String → ℕ → Hub → Hub × Bool → Type 0
Outcome session user h (h', accepted) =
    let holder = or_empty (lookup user h.active_monitors) in
    ((accepted ≡ true)
      × ((holder ≡ "") ⊎ (holder ≡ session))
      × (lookup user h'.active_monitors ≡ some session))
    ⊎ ((accepted ≡ false) × (holder ≢ "") × (holder ≢ session) × (h' ≡ h))

-- A session with a user that publishes a client state which decodes to a running monitor is
-- accepted only if no other session holds the user's slot, and refused only if another does.
-- Accepted, it holds the slot; refused, the hub is as before.
pub publish_monitor :
    (session : String) (e raw : Envelope) (now : ℕ) (s : ClientStatePayload) (r : Room) (h : Hub)
    → e.type ≡ "client_state"
    → unmarshal zero_client_state read_client_state e.payload ≡ some s
    → is_monitoring s ≡ true
    → lookup session h.rooms ≡ some r
    → r.user_id ≢ 0
    → Outcome session r.user_id h (publish session e raw now h)
unfolding update_monitor_claim
publish_monitor session e raw now s r h t d m q n = rw (publish_state session e raw now s h t d) (
    rw (q, update_monitor_claim)
      (claimed_cases (λ c. Outcome session r.user_id h (decide session e raw now c)) session
        r.user_id s h (λ z. absurd (n z)) (λ n m c. inr (refl, nonempty c, other c, refl))
        (λ n m c. inl (
          refl,
          free c,
          ap (lookup r.user_id) (deliver-active_monitors session e raw now _) ∙ insert_self,
        ))
        (λ n k. absurd (cc (m, k)))))
  where
    holder : String
    holder = or_empty (lookup r.user_id h.active_monitors)

    nonempty : conflicts session (lookup r.user_id h.active_monitors) ≡ true → holder ≢ ""
    nonempty c = ground (arith, eq_iff holder "")

    other : conflicts session (lookup r.user_id h.active_monitors) ≡ true → holder ≢ session
    other c = ground (arith, eq_iff holder session)

    free :
        conflicts session (lookup r.user_id h.active_monitors) ≡ false
        → (holder ≡ "") ⊎ (holder ≡ session)
    free c = ground (arith, eq_iff holder session, eq_iff holder "")

    insert_self : lookup r.user_id (insert r.user_id session h.active_monitors) ≡ some session
    insert_self = ground (
      arith,
      lookup-insert r.user_id r.user_id session h.active_monitors,
      nat_beq_iff r.user_id r.user_id,
    )

-- The session whose claim or release a step is.
abbrev pub ActsFor : {owner : String → ℕ} {h h' : Hub} → Step owner h h' → String → Type 0
ActsFor (releases s) session = s ≡ session
ActsFor (claims s state) session = s ≡ session
ActsFor _ session = ⊥

-- Releasing on behalf of another session takes nothing from this one.
release_other :
    (other session : String) (user u : ℕ) (h : Hub)
    → other ≢ session
    → lookup u h.active_monitors ≡ some session
    → lookup u (release_claim other user h).active_monitors ≡ some session
release_other other session user u h n e =
    rw (release_claim-lookup other user u h) (elim (Bool-cases (user == u)) [
      | inl p ↦ ground (arith, nat_beq_iff user u, eq_iff session other)
      | inr k ↦ rw k e
    ])

claim_other :
    (other session : String) (u : ℕ) (s : ClientStatePayload) (h : Hub)
    → other ≢ session
    → session ≢ ""
    → lookup u h.active_monitors ≡ some session
    → lookup u (update_monitor_claim other s h).0.active_monitors ≡ some session
unfolding update_monitor_claim
claim_other other session u s h n k e = elim (Option-cases (lookup other h.rooms)) [
  | inl q ↦ rw (q, update_monitor_claim) e
  | inr (r, q) ↦
      rw (q, update_monitor_claim)
        (claimed_cases (λ c. lookup u c.0.active_monitors ≡ some session) other r.user_id s h
          (λ z. e) (λ n m c. e) (λ z m c. free r.user_id c)
          (λ z m. release_other other session r.user_id u h n e))
]
  where
    free :
        (user : ℕ)
        → conflicts other (lookup user h.active_monitors) ≡ false
        → lookup u (insert user other h.active_monitors) ≡ some session
    free user c = rw (lookup-insert user u other h.active_monitors) (elim (Bool-cases (user == u)) [
      | inl p ↦ absurd (taken ((nat_beq_iff user u).0 p) c)
      | inr m ↦ rw m e
    ])
      where
        taken : user ≡ u → conflicts other (lookup user h.active_monitors) ≡ false → ⊥
        taken p c = ground (arith, eq_iff session "", eq_iff session other)

leave_room-active_monitors :
    (session connection : String) (now : ℕ) (h : Hub)
    → (leave_room session connection now h).0.active_monitors ≡ h.active_monitors
unfolding leave_room
leave_room-active_monitors session connection now h = ground arith

release_left_other :
    (other session : String) (user u : ℕ) (h : Hub)
    → other ≢ session
    → lookup u h.active_monitors ≡ some session
    → lookup u (release_left other user h).active_monitors ≡ some session
unfolding release_left
release_left_other other session user u h n c = elim (Bool-cases (user == 0)) [
  | inl z ↦ rw z c
  | inr z ↦ rw z (release_other other session user u h n c)
]

-- A claim stands through every step but a claim or a release of its own session.
pub Step-keeps_claim :
    (owner : String → ℕ) (session : String) (u : ℕ) {h h' : Hub}
    → (step : Step owner h h') → ¬ ActsFor step session
    → session ≢ ""
    → lookup u h.active_monitors ≡ some session
    → lookup u h'.active_monitors ≡ some session
unfolding attach_device announce_left publish_gain register_viewer unsubscribe register_observer
    close
Step-keeps_claim owner session u {h} (attaches s connection now) n w c =
    ap (lookup u) (notify-active_monitors (owner s) _) ∙ c
Step-keeps_claim owner session u {h} (leaves s connection now) n w c =
    ap (lookup u) (leave_room-active_monitors s connection now h) ∙ c
Step-keeps_claim owner session u {h} (releases s) n w c =
    release_left_other s session (owner s) u h n c
Step-keeps_claim owner session u {h} (announces s) n w c =
    ap (lookup u) (notify-active_monitors (owner s) _) ∙ c
Step-keeps_claim owner session u {h} (claims s state) n w c = claim_other s session u state h n w c
Step-keeps_claim owner session u {h} (stores s e raw now) n w c =
    ap (lookup u) (deliver-active_monitors s e raw now h) ∙ c
Step-keeps_claim owner session u {h} (gains s p now) n w c =
    ap (lookup u) (deliver-active_monitors s (gain_envelope p) (gain_envelope p) now h) ∙ c
Step-keeps_claim owner session u {h} (sends s x taken) n w c =
    ap (lookup u) (send_command-active_monitors s x taken h) ∙ c
Step-keeps_claim owner session u {h} (disconnects s a r) n w c =
    ap (lookup u) (disconnect-active_monitors s a r h) ∙ c
Step-keeps_claim owner session u {h} (registers s v) n w c = c
Step-keeps_claim owner session u {h} (snapshots s v e) n w c =
    ap (lookup u) (first_snapshot-active_monitors s v h e) ∙ c
Step-keeps_claim owner session u {h} (unsubscribes s v) n w c = c
Step-keeps_claim owner session u {h} (observes x o) n w c = c
Step-keeps_claim owner session u {h} (signals x o e) n w c =
    ap (lookup u) (first_signal-active_monitors x o h e) ∙ c
Step-keeps_claim owner session u {h} (forgets x o) n w c =
    ap (lookup u) (unsubscribe_clients-active_monitors x o h) ∙ c
Step-keeps_claim owner session u {h} closes n w c = c

-- No step of a history is a claim or a release of the session.
abbrev pub Avoids : {owner : String → ℕ} {h h' : Hub} → Reach owner h h' → String → Type 0
Avoids here session = Unit
Avoids (next run step) session = Avoids run session × (¬ ActsFor step session)

-- A session with a nonempty id that holds a user's slot holds it after any further history of steps in
-- which devices attach under the owner of their session, in whatever order and however the calls
-- interleave, as long as no step is the claim of a client state that it publishes or the release at the
-- end of one of its own connections.
pub keeps_claim :
    (owner : String → ℕ) (session : String) (u : ℕ) {h h' : Hub}
    → (run : Reach owner h h') → Avoids run session
    → session ≢ ""
    → lookup u h.active_monitors ≡ some session
    → lookup u h'.active_monitors ≡ some session
keeps_claim owner session u here a w c = c
keeps_claim owner session u (next run step) a w c =
    Step-keeps_claim owner session u step a.1 w (keeps_claim owner session u run a.0 w c)
