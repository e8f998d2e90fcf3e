-- ===== src/Hub/PublishSteps.antt =====
-- The claim and the storing of `Publish` keep the invariant of the monitor claims.
use monitor_backend.Base.{
  ℕ, ◌≡◌, refl, ◌≢◌, ◌⊎◌, inl, inr, sym, ap, ◌∙◌, subst, String, Bool, true, false, Option, none,
  some, ◌==◌, string_eq, nat_eq, eq_iff, if◌then◌else◌, lookup, insert, lookup-insert, nat_beq_iff,
  arith, Bool-cases, Option-cases,
}
use monitor_backend.Hub.{Hub, Room, room, room_or_new, set_room, broadcast_snapshot, broadcast}
use monitor_backend.Hub.Claims.{
  Phases, settled, storing, set_phase, set_phase_self, same-Stands, Holds, Owned, Inv, InvBut,
  Inv-InvBut, InvBut-phases, set_room-Inv, settle-Inv, notify-Inv, release_claim-Inv, released,
}
use mathlib.Core.Option.{some-injective}
use monitor_backend.Json.{unmarshal}
use monitor_backend.Protocol.{Envelope, ClientStatePayload, zero_client_state, read_client_state}
use monitor_backend.Protocol.Merging.{merged_monitoring}
use monitor_backend.Hub.{forwarded}
use monitor_backend.Hub.PublishCases.{store_other, store-user_id, store_state, claimed_cases}
use monitor_backend.Hub.Publishing.{
  store_by, store_payload, deliver, publish, claimed, claim_first, claim_decoded, decide,
  update_monitor_claim,
}

store-Owned :
    (owner : ℕ) (e : Envelope) (o : Option Room)
    → Owned owner o
    → Owned owner (some (store_payload e (room_or_new o)))
unfolding store_payload
store-Owned owner e none w = inl (store-user_id e.type e.payload _)
store-Owned owner e (some r) (inl z) = inl (store-user_id e.type e.payload r ∙ z)
store-Owned owner e (some r) (inr z) = inr (store-user_id e.type e.payload r ∙ z)

deliver-Inv :
    (owner : String → ℕ) (ph : Phases) (session : String) (e raw : Envelope) (now : ℕ) (h : Hub)
    → InvBut owner ph session h
    → ((u : ℕ)
        → lookup u h.active_monitors ≡ some session
        → Holds (ph session) u (some (store_payload e (room session h))))
    → Inv owner ph (deliver session e raw now h)
unfolding deliver broadcast_snapshot broadcast
deliver-Inv owner ph session e raw now h v k =
    let stored = store-Owned _ e (lookup session h.rooms) (v.owned session) in
    let r : Room = record (store_payload e (room session h)) { updated_at = now } in
    let timed : (u : ℕ)
        → lookup u h.active_monitors ≡ some session
        → Holds (ph session) u (some r) =
      λ u c.
        let good = k u c in
        (
          good.0,
          good.1,
          same-Stands (ph session) (store_payload e (room session h)) r refl refl good.2,
        ) in
    let sent : (q : Room)
        → q.user_id ≡ r.user_id
        → q.client_state ≡ r.client_state
        → q.online ≡ r.online
        → (u : ℕ) → lookup u h.active_monitors ≡ some session
        → Holds (ph session) u (some q) =
      λ q a b d u c.
        let good = timed u c in (a ∙ good.0, good.1, same-Stands (ph session) r q b d good.2) in
    elim (Bool-cases (e.type == "client_state")) [
      | inl p ↦ rw p (
          notify-Inv owner ph r.user_id (set_room session (broadcast_snapshot r) h) (
            set_room-Inv owner ph h session (broadcast_snapshot r) v stored
              (sent (broadcast_snapshot r) refl refl refl)))
      | inr n ↦ rw n (
          set_room-Inv owner ph h session (broadcast (forwarded raw) r) v stored
            (sent (broadcast (forwarded raw) r) refl refl refl))
    ]

module _ (owner : String → ℕ) (ph : Phases) (session : String) (h : Hub) (v : Inv owner ph h) where
  -- Any other message than a client state leaves the claims good.
  other-Holds :
      (e : Envelope)
      → e.type ≢ "client_state"
      → (u : ℕ) → lookup u h.active_monitors ≡ some session
      → Holds (ph session) u (some (store_payload e (room session h)))
  unfolding store_payload
  other-Holds e n u c = go (lookup session h.rooms) (v.holds u session c)
    where
      go :
          (o : Option Room)
          → Holds (ph session) u o
          → Holds (ph session) u (some (store_by e.type e.payload (room_or_new o)))
      go none k = absurd k
      go (some r) k =
          let (a, b, c) = store_other e.type e.payload r n in
          (a ∙ k.0, k.1, same-Stands (ph session) r _ b c k.2)

  pub store_other-Inv :
      (e raw : Envelope) (now : ℕ)
      → e.type ≢ "client_state"
      → Inv owner ph (deliver session e raw now h)
  store_other-Inv e raw now n =
      deliver-Inv owner ph session e raw now h (Inv-InvBut owner ph session h v) (other-Holds e n)

  -- A client state that was granted and whose session did nothing else is stored.
  module _ (e raw : Envelope) (now : ℕ) (s : ClientStatePayload) (t : e.type ≡ "client_state")
      (d : unmarshal zero_client_state read_client_state e.payload ≡ some s) where
    state-Holds :
        (u : ℕ) (o : Option Room)
        → Holds (storing s) u o
        → Holds settled u (some (store_payload e (room_or_new o)))
    unfolding store_payload
    state-Holds u none k = absurd k
    state-Holds u (some r) k =
        let merged = merged_monitoring e.payload r.client_state s d k.2 in
        rw (store_state e.type e.payload r t) (k.0, k.1, (merged, merged))

    pub store_state-Inv :
        ph session ≡ storing s
        → Inv owner (set_phase session settled ph) (deliver session e raw now h)
    store_state-Inv now_storing =
        deliver-Inv owner (set_phase session settled ph) session e raw now h
          (InvBut-phases owner ph session settled h (Inv-InvBut owner ph session h v))
          (λ u c.
            subst (λ p. Holds p u (some (store_payload e (room session h))))
              (sym (set_phase_self session settled ph))
              (state-Holds u (lookup session h.rooms) (
                subst (λ p. Holds p u (lookup session h.rooms)) now_storing (v.holds u session c))))

  claim-InvBut :
      (user : ℕ)
      → InvBut owner ph session
          (record h { active_monitors = insert user session h.active_monitors })
  claim-InvBut user = record {
    holds = λ u x n e. elim (Bool-cases (user == u)) [
      | inl p ↦ absurd (
          n (
            some-injective session x
              (ground (arith, lookup-insert user u session h.active_monitors))))
      | inr k ↦ v.holds u x (ground (arith, lookup-insert user u session h.active_monitors))
    ];
    owned = v.owned;
  }

  -- After the claim of a slot by a room's user, a claim of the session is by that user.
  claim-user :
      (user u : ℕ) (r : Room)
      → Holds (ph session) u (some r) ⊎ (user ≡ u)
      → r.user_id ≡ user
      → user ≢ 0
      → (r.user_id ≡ u) × (u ≢ 0)
  claim-user user u r (inl k) e n = (k.0, k.1)
  claim-user user u r (inr k) e n = (e ∙ k, λ z. n (k ∙ z))

  -- A granted client state: if it monitors, the claim is the session's; otherwise it has none.
  module _ (s : ClientStatePayload) where
    abbrev Claimed : Hub × Bool → Type 0
    Claimed (h', granted) = Inv owner (if granted then set_phase session (storing s) ph else ph) h'

    module _ (r : Room) (q : lookup session h.rooms ≡ some r) where
      holder : (u : ℕ) → lookup u h.active_monitors ≡ some session → Holds (ph session) u (some r)
      holder u c = subst (Holds (ph session) u) q (v.holds u session c)

      claimant :
          (u : ℕ)
          → lookup u (insert r.user_id session h.active_monitors) ≡ some session
          → Holds (ph session) u (some r) ⊎ (r.user_id ≡ u)
      claimant u c = elim (Bool-cases (r.user_id == u)) [
        | inl p ↦ inr ((nat_beq_iff r.user_id u).0 p)
        | inr n ↦
            inl (holder u (ground (arith, lookup-insert r.user_id u session h.active_monitors)))
      ]

      claimed-Inv : Claimed (claimed session r.user_id s h)
      claimed-Inv =
          claimed_cases Claimed session r.user_id s h
            (λ z.
              settle-Inv owner ph session (storing s) h (Inv-InvBut owner ph session h v)
                (λ u c. absurd ((holder u c).1 (sym (holder u c).0 ∙ z))))
            (λ n m c. v)
            (λ n m c. settle-Inv owner ph session (storing s) _ (claim-InvBut r.user_id) (λ u c.
              let (z, k) = claim-user r.user_id u r (claimant u c) refl n in rw q (z, k, m)))
            (λ n m.
              settle-Inv owner ph session (storing s) _
                (Inv-InvBut owner ph session _ (release_claim-Inv owner ph session r.user_id h v))
                (λ u c.
                  let (before, other) = released session r.user_id u session h c in
                  absurd (other (holder u before).0 refl)))

    pub update_monitor_claim-Inv : Claimed (update_monitor_claim session s h)
    unfolding update_monitor_claim
    update_monitor_claim-Inv = elim (Option-cases (lookup session h.rooms)) [
      | inl q ↦
          rw (q, update_monitor_claim)
            (settle-Inv owner ph session (storing s) h (Inv-InvBut owner ph session h v)
              (λ u c. absurd (subst (Holds (ph session) u) q (v.holds u session c))))
      | inr (r, q) ↦ rw (q, update_monitor_claim) (claimed-Inv r q)
    ]

-- The decision of `Publish` about a client state that decodes to `s`.
pub publish_state :
    (session : String) (e raw : Envelope) (now : ℕ) (s : ClientStatePayload) (h : Hub)
    → e.type ≡ "client_state"
    → unmarshal zero_client_state read_client_state e.payload ≡ some s
    → let (h', granted) = update_monitor_claim session s h in
      publish session e raw now h
      ≡ (if granted then (deliver session e raw now h', true) else (h', false))
unfolding publish
publish_state session e raw now s h t d = ap (decide session e raw now) (
    ap (λ (b : Bool). if b then claim_first session e h else (h, true)) ((eq_iff _ _).1 t)
    ∙ ap (claim_decoded session h) d)
