-- ===== src/Hub/PublishCases.antt =====
-- Case rules for the switch of `Publish` and for `updateMonitorClaim`.
use monitor_backend.Base.{
  ℕ, not, ◌≡◌, refl, ◌≢◌, inl, inr, String, Bool, true, false, Option, ◌==◌, string_eq, nat_eq,
  eq_iff, lookup, insert, nat_beq_iff, Bool-cases, ◌&&◌,
}
use monitor_backend.Hub.{Hub, Room, is_monitoring}
use monitor_backend.Hub.Devices.{release_claim}
use monitor_backend.Json.{Json, unmarshal_into}
use monitor_backend.Protocol.{ClientStatePayload, read_client_state}
use monitor_backend.Hub.Publishing.{store_by, or_empty, claimed}

-- A case rule for the switch.
pub store_cases :
    (P : Room → Type 0) (type : String) (payload : Option Json) (r : Room)
    → P (record r { latest_map = payload })
    → P (record r { latest_frame = payload })
    → P (record r { latest_status = payload })
    → P (record r { latest_exp = payload })
    → P (record r { latest_rune = payload })
    → P (record r { latest_verification = payload })
    → P (record r { latest_zone = payload })
    → P (record r { latest_gain = payload })
    → (type ≡ "client_state"
        → let state = (unmarshal_into read_client_state payload r.client_state).0 in
          P (record r { client_state = state; online = is_monitoring state }))
    → P r
    → P (store_by type payload r)
unfolding store_by
store_cases P type payload r p_map p_frame p_status p_exp p_rune p_verification p_zone p_gain
      p_state p_other =
    elim (Bool-cases (type == "map")) [
      | inl e ↦ rw e p_map
      | inr n0 ↦ rw n0 (elim (Bool-cases (type == "frame")) [
        | inl e ↦ rw e p_frame
        | inr n1 ↦ rw n1 (elim (Bool-cases (type == "status")) [
          | inl e ↦ rw e p_status
          | inr n2 ↦ rw n2 (elim (Bool-cases (type == "exp")) [
            | inl e ↦ rw e p_exp
            | inr n3 ↦ rw n3 (elim (Bool-cases (type == "rune")) [
              | inl e ↦ rw e p_rune
              | inr n4 ↦ rw n4 (elim (Bool-cases (type == "verification")) [
                | inl e ↦ rw e p_verification
                | inr n5 ↦ rw n5 (elim (Bool-cases (type == "zone")) [
                  | inl e ↦ rw e p_zone
                  | inr n6 ↦ rw n6 (elim (Bool-cases (type == "gain")) [
                    | inl e ↦ rw e p_gain
                    | inr n7 ↦ rw n7 (elim (Bool-cases (type == "client_state")) [
                      | inl e ↦ rw e (p_state ((eq_iff _ _).0 e))
                      | inr n ↦ rw n p_other
                    ])
                  ])
                ])
              ])
            ])
          ])
        ])
      ])
    ]

-- The switch changes the user of no room, and only a client state changes what claims depend on.
pub store_other :
    (type : String) (payload : Option Json) (r : Room)
    → type ≢ "client_state"
    → let q = store_by type payload r in
      (q.user_id ≡ r.user_id) × (q.client_state ≡ r.client_state) × (q.online ≡ r.online)
store_other type payload r n =
    store_cases
      (λ q. (q.user_id ≡ r.user_id) × (q.client_state ≡ r.client_state) × (q.online ≡ r.online))
      type payload r same same same same same same same same (λ e. absurd (n e)) same
  where
    same : (r.user_id ≡ r.user_id) × (r.client_state ≡ r.client_state) × (r.online ≡ r.online)
    same = (refl, refl, refl)

pub store-user_id :
    (type : String) (payload : Option Json) (r : Room)
    → (store_by type payload r).user_id ≡ r.user_id
store-user_id type payload r =
    store_cases (λ q. q.user_id ≡ r.user_id) type payload r refl refl refl refl refl refl refl refl
      (λ e. refl) refl

pub store_state :
    (type : String) (payload : Option Json) (r : Room)
    → type ≡ "client_state"
    → let state = (unmarshal_into read_client_state payload r.client_state).0 in
      store_by type payload r ≡ record r { client_state = state; online = is_monitoring state }
unfolding store_by
store_state type payload r e = rw e

-- The claimed slot is another session's.
abbrev pub conflicts : String → Option String → Bool
conflicts session o = not (or_empty o == "") && not (or_empty o == session)

-- A case rule for `updateMonitorClaim` at a session with a room.
pub claimed_cases :
    (P : Hub × Bool → Type 0) (session : String) (user : ℕ) (s : ClientStatePayload) (h : Hub)
    → (user ≡ 0 → P (h, true))
    → (user ≢ 0
        → is_monitoring s ≡ true
        → conflicts session (lookup user h.active_monitors) ≡ true
        → P (h, false))
    → (user ≢ 0
        → is_monitoring s ≡ true
        → conflicts session (lookup user h.active_monitors) ≡ false
        → P (record h { active_monitors = insert user session h.active_monitors }, true))
    → (user ≢ 0 → is_monitoring s ≡ false → P (release_claim session user h, true))
    → P (claimed session user s h)
claimed_cases P session user s h nobody refused granted idle = elim (Bool-cases (user == 0)) [
  | inl z ↦ rw z (nobody ((nat_beq_iff user 0).0 z))
  | inr z ↦
      let n : user ≢ 0 = λ e. cc ((nat_beq_iff user 0).1 e, z) in
      elim (Bool-cases (is_monitoring s)) [
        | inl m ↦ elim (Bool-cases (conflicts session (lookup user h.active_monitors))) [
          | inl c ↦ rw (z, m, c) (refused n m c)
          | inr c ↦ rw (z, m, c) (granted n m c)
        ]
        | inr m ↦ rw (z, m) (idle n m)
      ]
]
