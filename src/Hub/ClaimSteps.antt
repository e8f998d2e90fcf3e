-- ===== src/Hub/ClaimSteps.antt =====
-- The calls of a device's connection keep the invariant of the monitor claims.
use monitor_backend.Base.{
  ℕ, refl, inl, inr, sym, ◌∙◌, subst, String, Option, none, some, ◌==◌, string_eq, nat_eq,
  if◌then◌else◌, lookup, nat_beq_iff, arith, Bool-cases,
}
use monitor_backend.Hub.{Hub, Room, room, room_or_new, broadcast_snapshot}
use monitor_backend.Hub.Devices.{
  attach_device, attached, detached, release_claim, leave_room, release_left, announce_left,
}
use monitor_backend.Hub.Claims.{
  Phase, Phases, settled, storing, leaving, set_phase, set_phase_self, Stands, same-Stands, Holds,
  Owned, Inv, Inv-InvBut, InvBut-phases, set_room-Inv, settle-Inv, notify-Inv, release_claim-Inv,
  unclaimed, unowned,
}

-- A device of the session's own user attaches: the claim stays good, since the room keeps the
-- client's state.
pub attach_device-Inv :
    (owner : String → ℕ) (ph : Phases) (session connection : String) (now : ℕ) (h : Hub)
    → Inv owner ph h
    → Inv owner ph (attach_device session (owner session) connection now h)
unfolding attach_device broadcast_snapshot
attach_device-Inv owner ph session connection now h v = notify-Inv owner ph (owner session) _ (
    set_room-Inv owner ph h session _ (Inv-InvBut owner ph session h v) (inr refl)
      (λ u e. attached-Holds u (lookup session h.rooms) (v.holds u session e) (v.owned session)))
  where
    attached-Stands :
        (p : Phase) (r : Room)
        → Stands p r
        → Stands p (broadcast_snapshot (attached (owner session) connection now r))
    attached-Stands settled r k = (k.0, ground arith)
    attached-Stands (storing s) r k = k
    attached-Stands leaving r k = tt

    attached-Holds :
        (u : ℕ) (o : Option Room)
        → Holds (ph session) u o
        → Owned (owner session) o
        → Holds
            (ph session)
            u
            (some (broadcast_snapshot (attached (owner session) connection now (room_or_new o))))
    attached-Holds u none k w = absurd k
    attached-Holds u (some r) k (inl z) = absurd (k.1 (sym k.0 ∙ z))
    attached-Holds u (some r) k (inr o) = (sym o ∙ k.0, k.1, attached-Stands (ph session) r k.2)

broadcast_snapshot-Owned :
    (owner : ℕ) (o : Option Room)
    → Owned owner o
    → Owned owner (some (broadcast_snapshot (room_or_new o)))
unfolding broadcast_snapshot
broadcast_snapshot-Owned owner none w = inl refl
broadcast_snapshot-Owned owner (some r) w = w

detached-Owned :
    (owner now : ℕ) (o : Option Room)
    → Owned owner o
    → Owned owner (some (detached now (room_or_new o)))
detached-Owned owner now none w = inl refl
detached-Owned owner now (some r) w = w

broadcast_snapshot-Holds :
    (p : Phase) (user : ℕ) (o : Option Room)
    → Holds p user o
    → Holds p user (some (broadcast_snapshot (room_or_new o)))
unfolding broadcast_snapshot
broadcast_snapshot-Holds p user none w = absurd w
broadcast_snapshot-Holds p user (some r) w =
    (w.0, w.1, same-Stands p r (broadcast_snapshot r) refl refl w.2)

detached-Holds :
    (p : Phase) (user now : ℕ) (o : Option Room)
    → Holds p user o
    → Holds leaving user (some (detached now (room_or_new o)))
detached-Holds p user now none w = absurd w
detached-Holds p user now (some r) w = (w.0, w.1, tt)

module _ (owner : String → ℕ) (ph : Phases) (session : String) (h : Hub) (v : Inv owner ph h) where
  -- A connection leaves the room: the claim waits for its release if the connection was the current
  -- one, and stays good otherwise.
  pub leave_room-Inv :
      (connection : String) (now : ℕ)
      → let (h', did_detach) = leave_room session connection now h in
        Inv owner (if did_detach then set_phase session leaving ph else ph) h'
  unfolding leave_room
  leave_room-Inv connection now = elim (Bool-cases ((room session h).publisher == connection)) [
    | inl t ↦ rw t (
        set_room-Inv owner (set_phase session leaving ph) h session _
          (InvBut-phases owner ph session leaving h (Inv-InvBut owner ph session h v))
          (detached-Owned (owner session) now (lookup session h.rooms) (v.owned session))
          (λ u e.
            subst (λ p. Holds p u (some (detached now (room session h))))
              (sym (set_phase_self session leaving ph))
              (detached-Holds (ph session) u now (lookup session h.rooms) (v.holds u session e))))
    | inr f ↦ rw f v
  ]

  -- After the release the session claims nothing.
  pub release_left-Inv :
      Inv owner (set_phase session settled ph) (release_left session (owner session) h)
  unfolding release_left
  release_left-Inv = elim (Bool-cases (owner session == 0)) [
    | inl z ↦ rw z (
        settle-Inv owner ph session settled h (Inv-InvBut owner ph session h v)
          (λ u e. absurd (unowned owner ph session h u v ((nat_beq_iff (owner session) 0).0 z) e)))
    | inr n ↦ rw n (
        settle-Inv owner ph session settled (release_claim session (owner session) h)
          (Inv-InvBut owner ph session _ (release_claim-Inv owner ph session (owner session) h v))
          (λ u e. absurd (unclaimed owner ph session h u v e)))
  ]

  pub announce_left-Inv : Inv owner ph (announce_left session (owner session) h)
  unfolding announce_left
  announce_left-Inv = notify-Inv owner ph (owner session) _ (
      set_room-Inv owner ph h session _ (Inv-InvBut owner ph session h v)
        (broadcast_snapshot-Owned _ (lookup session h.rooms) (v.owned session))
        (λ u e.
          broadcast_snapshot-Holds (ph session) u (lookup session h.rooms) (v.holds u session e)))
