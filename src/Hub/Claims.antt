-- ===== src/Hub/Claims.antt =====
-- The invariant of the monitor claims.
use monitor_backend.Base.{
  ℕ, ◌≡◌, refl, ◌≢◌, ◌⊎◌, inl, inr, sym, ap, ◌∙◌, subst, String, true, false, Option, none, some,
  ◌==◌, string_eq, nat_eq, eq_iff, if◌then◌else◌, lookup, lookup-insert, nat_beq_iff, lookup-erase,
  arith, Bool-cases, Option-cases,
}
use monitor_backend.Protocol.{ClientStatePayload}
use monitor_backend.Hub.{Hub, Room, set_room, is_monitoring, notify_client_observers, new_hub}
use monitor_backend.Hub.Devices.{release_claim}

-- What a session's calls have under way: nothing, a client state that `Publish` has granted and not stored
-- yet, or a disconnection that has left the room and not released the claim yet.
pub data Phase : Type 0 where
  settled : Phase
  storing : ClientStatePayload → Phase
  leaving : Phase

abbrev pub Phases : Type 0
Phases = String → Phase

abbrev pub set_phase : String → Phase → Phases → Phases
set_phase session p ph = λ s. if session == s then p else ph s

-- What a claim needs of the session's room.
abbrev pub Stands : Phase → Room → Type 0
Stands settled r = (is_monitoring r.client_state ≡ true) × (r.online ≡ true)
Stands (storing s) r = is_monitoring s ≡ true
Stands leaving r = Unit {0}

pub same-Stands :
    (p : Phase) (r q : Room)
    → q.client_state ≡ r.client_state
    → q.online ≡ r.online
    → Stands p r
    → Stands p q
same-Stands settled r q a b k = (ap is_monitoring a ∙ k.0, b ∙ k.1)
same-Stands (storing s) r q a b k = k
same-Stands leaving r q a b k = tt

-- A claim of the user's slot is good: the session's room is the user's, and monitoring and online once its
-- calls are over.
abbrev pub Holds : Phase → ℕ → Option Room → Type 0
Holds p user none = ⊥
Holds p user (some r) = (r.user_id ≡ user) × (user ≢ 0) × Stands p r

abbrev pub Owned : ℕ → Option Room → Type 0
Owned owner none = Unit {0}
Owned owner (some r) = (r.user_id ≡ 0) ⊎ (r.user_id ≡ owner)

-- `owner` gives the user that each session belongs to, as the database does.
pub record Inv (owner : String → ℕ) (ph : Phases) (h : Hub) : Type 0 where
  pub holds :
      (user : ℕ) (session : String)
      → lookup user h.active_monitors ≡ some session
      → Holds (ph session) user (lookup session h.rooms)
  pub owned : (session : String) → Owned (owner session) (lookup session h.rooms)

pub new_hub-Inv : (owner : String → ℕ) (ph : Phases) → Inv owner ph new_hub
unfolding lookup
new_hub-Inv owner ph = record { holds = λ u s e. absurd (cc e); owned = λ s. tt }

-- The invariant but for the claims of one session.
pub record InvBut (owner : String → ℕ) (ph : Phases) (session : String) (h : Hub) : Type 0 where
  pub holds :
      (user : ℕ) (s : String)
      → session ≢ s
      → lookup user h.active_monitors ≡ some s
      → Holds (ph s) user (lookup s h.rooms)
  pub owned : (s : String) → Owned (owner s) (lookup s h.rooms)

pub Inv-InvBut :
    (owner : String → ℕ) (ph : Phases) (session : String) (h : Hub)
    → Inv owner ph h
    → InvBut owner ph session h
Inv-InvBut owner ph session h v = record { holds = λ u s n e. v.holds u s e; owned = v.owned }

-- Only the session's own phase matters to its claims.
pub InvBut-phases :
    (owner : String → ℕ) (ph : Phases) (session : String) (p : Phase) (h : Hub)
    → InvBut owner ph session h
    → InvBut owner (set_phase session p ph) session h
InvBut-phases owner ph session p h v = record {
  holds = λ u s n e. elim (Bool-cases (session == s)) [
    | inl t ↦ absurd (n ((eq_iff session s).0 t))
    | inr f ↦ rw f (v.holds u s n e)
  ];
  owned = v.owned;
}

pub set_phase_self :
    (session : String) (p : Phase) (ph : Phases) → set_phase session p ph session ≡ p
set_phase_self session p ph = rw ((eq_iff session session).1 refl) refl

-- The invariant, if what the session claims is good in its new phase.
pub settle-Inv :
    (owner : String → ℕ) (ph : Phases) (session : String) (p : Phase) (h : Hub)
    → InvBut owner ph session h
    → ((user : ℕ)
        → lookup user h.active_monitors ≡ some session
        → Holds p user (lookup session h.rooms))
    → Inv owner (set_phase session p ph) h
settle-Inv owner ph session p h v k = record {
  holds = λ u s e. elim (Bool-cases (session == s)) [
    | inl t ↦ rw t (
        subst (λ x. Holds p u (lookup x h.rooms)) ((eq_iff session s).0 t)
          (k u (e ∙ ap some (sym ((eq_iff session s).0 t)))))
    | inr f ↦ rw f (v.holds u s (λ q. cc ((eq_iff session s).1 q, f)) e)
  ];
  owned = v.owned;
}

-- A room that is written back keeps the invariant if it is good for the claims of its session.
pub set_room-Inv :
    (owner : String → ℕ) (ph : Phases) (h : Hub) (session : String) (r : Room)
    → InvBut owner ph session h
    → Owned (owner session) (some r)
    → ((user : ℕ) → lookup user h.active_monitors ≡ some session → Holds (ph session) user (some r))
    → Inv owner ph (set_room session r h)
set_room-Inv owner ph h session r v o k = record {
  holds = λ u s e. rw (lookup-insert session s r h.rooms) (elim (Bool-cases (session == s)) [
    | inl p ↦ rw p (
        subst (λ x. Holds (ph x) u (some r)) ((eq_iff session s).0 p)
          (k u (e ∙ ap some (sym ((eq_iff session s).0 p)))))
    | inr n ↦ rw n (v.holds u s (λ q. cc ((eq_iff session s).1 q, n)) e)
  ]);
  owned = λ s. rw (lookup-insert session s r h.rooms) (elim (Bool-cases (session == s)) [
    | inl p ↦ rw p (subst (λ x. Owned (owner x) (some r)) ((eq_iff session s).0 p) o)
    | inr n ↦ rw n (v.owned s)
  ]);
}

-- The invariant speaks of the rooms and the claims alone.
pub same-Inv :
    (owner : String → ℕ) (ph : Phases) (h h' : Hub)
    → h'.rooms ≡ h.rooms
    → h'.active_monitors ≡ h.active_monitors
    → Inv owner ph h
    → Inv owner ph h'
same-Inv owner ph h h' p q v = record {
  holds = λ u s e.
      subst (λ m. Holds (ph s) u (lookup s m)) (sym p) (v.holds u s (ap (lookup u) (sym q) ∙ e));
  owned = λ s. subst (λ m. Owned (owner s) (lookup s m)) (sym p) (v.owned s);
}

pub notify-rooms : (user : ℕ) (h : Hub) → (notify_client_observers user h).rooms ≡ h.rooms
unfolding notify_client_observers
notify-rooms user h = ground arith

pub notify-active_monitors :
    (user : ℕ) (h : Hub) → (notify_client_observers user h).active_monitors ≡ h.active_monitors
unfolding notify_client_observers
notify-active_monitors user h = ground arith

pub notify-Inv :
    (owner : String → ℕ) (ph : Phases) (user : ℕ) (h : Hub)
    → Inv owner ph h
    → Inv owner ph (notify_client_observers user h)
notify-Inv owner ph user h =
    same-Inv owner ph h _ (notify-rooms user h) (notify-active_monitors user h)

-- A claimed session is the claiming user's.
pub claim-owner :
    (owner : String → ℕ) (ph : Phases) (user : ℕ) (session : String) (h : Hub)
    → Inv owner ph h
    → lookup user h.active_monitors ≡ some session
    → user ≡ owner session
claim-owner owner ph user session h v e =
    go (lookup session h.rooms) (v.holds user session e) (v.owned session)
  where
    go :
        (o : Option Room)
        → Holds (ph session) user o
        → Owned (owner session) o
        → user ≡ owner session
    go none k w = absurd k
    go (some r) k (inl z) = absurd (k.1 (sym k.0 ∙ z))
    go (some r) k (inr o) = sym k.0 ∙ o

pub release_claim-rooms :
    (session : String) (user : ℕ) (h : Hub) → (release_claim session user h).rooms ≡ h.rooms
release_claim-rooms session user h = ground arith

-- Releasing takes away the session's claim of the user's slot, and no other claim.
pub release_claim-lookup :
    (session : String) (user u : ℕ) (h : Hub)
    → lookup u (release_claim session user h).active_monitors ≡ (
        if user == u
        then elim (lookup user h.active_monitors) [
          | none ↦ none
          | some holder ↦ if holder == session then none else some holder
        ]
        else lookup u h.active_monitors)
release_claim-lookup session user u h = elim (Option-cases (lookup user h.active_monitors)) [
  | inl n ↦ ground (arith, nat_beq_iff user u)
  | inr (s, e) ↦ ground (arith, nat_beq_iff user u, lookup-erase user u h.active_monitors)
]

-- What is still claimed after a release was claimed before, and is not what was released.
pub released :
    (session : String) (user u : ℕ) (x : String) (h : Hub)
    → lookup u (release_claim session user h).active_monitors ≡ some x
    → (lookup u h.active_monitors ≡ some x) × (user ≡ u → x ≢ session)
released session user u x h e = go (lookup user h.active_monitors) refl (Bool-cases (user == u))
  where
    go :
        (o : Option String)
        → lookup user h.active_monitors ≡ o
        → ((user == u) ≡ true) ⊎ ((user == u) ≡ false)
        → (lookup u h.active_monitors ≡ some x) × (user ≡ u → x ≢ session)
    go o q (inr n) = (
      ground (arith, release_claim-lookup session user u h),
      λ same. absurd (ground (arith, nat_beq_iff user u)),
    )
    go none q (inl p) = absurd (ground (arith, release_claim-lookup session user u h))
    go (some holder) q (inl p) = (
      ground (arith, release_claim-lookup session user u h, nat_beq_iff user u),
      λ same k. ground (arith, release_claim-lookup session user u h, eq_iff holder session),
    )

pub release_claim-Inv :
    (owner : String → ℕ) (ph : Phases) (session : String) (user : ℕ) (h : Hub)
    → Inv owner ph h
    → Inv owner ph (release_claim session user h)
release_claim-Inv owner ph session user h v = record {
  holds = λ u s e.
      rw (release_claim-rooms session user h) (v.holds u s (released session user u s h e).0);
  owned = λ s. rw (release_claim-rooms session user h) (v.owned s);
}

-- After the owner's claim of a session is released, nobody claims that session.
pub unclaimed :
    (owner : String → ℕ) (ph : Phases) (session : String) (h : Hub) (u : ℕ)
    → Inv owner ph h
    → lookup u (release_claim session (owner session) h).active_monitors ≡ some session
    → ⊥
unclaimed owner ph session h u v e =
    let (before, other) = released session (owner session) u session h e in
    other (sym (claim-owner owner ph u session h v before)) refl

-- A session whose owner is nobody is not claimed.
pub unowned :
    (owner : String → ℕ) (ph : Phases) (session : String) (h : Hub) (u : ℕ)
    → Inv owner ph h
    → owner session ≡ 0
    → lookup u h.active_monitors ≡ some session
    → ⊥
unowned owner ph session h u v z e = go (lookup session h.rooms) (v.holds u session e)
  where
    go : (o : Option Room) → Holds (ph session) u o → ⊥
    go none k = k
    go (some r) k = k.1 (claim-owner owner ph u session h v e ∙ z)
