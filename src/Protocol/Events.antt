-- ===== src/Protocol/Events.antt =====
-- The rope party events that `ValidateEnvelope` lets pass, and what they may carry.
use Prim.Native.String.{len, count}
use monitor_backend.Base.{
  ◌≤◌, ◌≡◌, refl, ◌⊎◌, inl, inr, String, true, false, arith, eq_iff, Bool-cases, subst, sym, ◌==◌,
  string_eq, nat_eq,
}
use monitor_backend.Base.Int.{ℤ, pos, is_pos}
use monitor_backend.Base.Results.{ok}
use monitor_backend.Protocol.Validate.{event_checks}

-- 1 to 24 characters.
abbrev pub IsRoleName : String → Type 0
IsRoleName n = (1 ≤ count n) × (count n ≤ 24)

-- Absent, or 8 to 64 bytes.
abbrev pub IsReceipt : String → Type 0
IsReceipt r = (len r ≡ 0) ⊎ ((8 ≤ len r) × (len r ≤ 64))

-- Which rope party events may carry what.
pub data ValidEvent (event : String) (cycle : ℤ) (role : String) : Type 0 where
  team_event :
      (event ≡ "team_created") ⊎ (event ≡ "team_disbanded")
      → role ≡ ""
      → ValidEvent event cycle role
  cycle_event :
      (event ≡ "boss_cycle_disbanded")
        ⊎ ((event ≡ "boss_joined") ⊎ ((event ≡ "buff_completed") ⊎ (event ≡ "boss_kicked")))
      → is_pos cycle ≡ true
      → role ≡ ""
      → ValidEvent event cycle role
  due_event : event ≡ "buff_due" → cycle ≡ pos 0 → role ≡ "" → ValidEvent event cycle role
  invitation : event ≡ "invitation_sent" → IsRoleName role → ValidEvent event cycle role

pub event_checks_complete :
    (event : String) (cycle : ℤ) (role : String)
    → ValidEvent event cycle role
    → event_checks event cycle role ≡ ok tt
unfolding event_checks
event_checks_complete event cycle role (team_event (inl e) r) = rw (e, r)
event_checks_complete event cycle role (team_event (inr e) r) = rw (e, r)
event_checks_complete event cycle role (cycle_event (inl e) c r) = rw (e, c, r)
event_checks_complete event cycle role (cycle_event (inr (inl e)) c r) = rw (e, c, r)
event_checks_complete event cycle role (cycle_event (inr (inr (inl e))) c r) = rw (e, c, r)
event_checks_complete event cycle role (cycle_event (inr (inr (inr e))) c r) = rw (e, c, r)
event_checks_complete event cycle role (due_event e c r) = rw (e, c, r)
event_checks_complete event cycle role (invitation e r) = rw e (ground arith)

-- One case of the switch: at the event's own name it takes its case, otherwise it goes on.
event_case :
    (x event : String) (cycle : ℤ) (role : String)
    → event_checks event cycle role ≡ ok tt
    → (event_checks x cycle role ≡ ok tt → ValidEvent x cycle role)
    → ((event == x) ≡ false → ValidEvent event cycle role)
    → ValidEvent event cycle role
event_case x event cycle role h found other = elim (Bool-cases (event == x)) [
  | inl e ↦
      subst (λ v. event_checks v cycle role ≡ ok tt → ValidEvent v cycle role)
        (sym ((eq_iff event x).0 e)) found h
  | inr n ↦ other n
]

pub event_checks_sound :
    (event : String) (cycle : ℤ) (role : String)
    → event_checks event cycle role ≡ ok tt
    → ValidEvent event cycle role
unfolding event_checks
event_checks_sound event cycle role h =
    event_case "team_created" event cycle role h
      (λ k. team_event (inl refl) (ground (arith, eq_iff role "")))
      λ n0.
        event_case "team_disbanded" event cycle role h
          (λ k. team_event (inr refl) (ground (arith, eq_iff role "")))
          λ n1.
            event_case "boss_cycle_disbanded" event cycle role h
              (λ k. cycle_event (inl refl) (ground arith) (ground (arith, eq_iff role "")))
              λ n2.
                event_case "buff_due" event cycle role h
                  (λ k. due_event refl (ground arith) (ground (arith, eq_iff role "")))
                  λ n3.
                    event_case "boss_joined" event cycle role h
                      (λ k.
                        cycle_event (inr (inl refl)) (ground arith)
                          (ground (arith, eq_iff role "")))
                      λ n4.
                        event_case "buff_completed" event cycle role h
                          (λ k.
                            cycle_event (inr (inr (inl refl))) (ground arith)
                              (ground (arith, eq_iff role "")))
                          λ n5.
                            event_case "boss_kicked" event cycle role h
                              (λ k.
                                cycle_event (inr (inr (inr refl))) (ground arith)
                                  (ground (arith, eq_iff role "")))
                              λ n6.
                                event_case "invitation_sent" event cycle role h
                                  (λ k. invitation refl (ground arith)) λ n7. absurd (ground arith)
