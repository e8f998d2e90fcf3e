-- ===== src/Server/Teams/Requests.antt =====
-- The requests to save a team that pass the checks.
use Prim.Native.String.{len}
use monitor_backend.Base.{
  ◌≤◌, ◌≡◌, refl, String, Bool, true, false, not, ◌||◌, List, [], ◌∷◌, ◌==◌, string_eq, eq_iff, ltb,
  length, arith, All, nat_eq,
}
use monitor_backend.Base.Results.{ok, passed, succeeded, ok_inj, refuse_if-eq-ok}
use monitor_backend.BossCycle.{contains_session_id}
use monitor_backend.Server.Teams.Choosing.{select_members, check_request}

-- No session twice.
abbrev pub Distinct : List String → Type 0
Distinct [] = Unit
Distinct (id ∷ ids) = (contains_session_id ids id ≡ false) × Distinct ids

-- Between one and five different sessions with ids of 36 bytes, the leader among them.
abbrev pub Chosen : String → List String → Type 0
Chosen leader ids =
    (1 ≤ length ids)
    × (length ids ≤ 5)
    × (All (λ id. len id ≡ 36) ids)
    × Distinct ids
    × (contains_session_id ids leader ≡ true)

abbrev Selected : List String → String → Bool → List String → Bool → Type 0
Selected seen leader selected ids b =
    (All (λ id. len id ≡ 36) ids)
    × Distinct ids
    × ((s : String) → contains_session_id seen s ≡ true → contains_session_id ids s ≡ false)
    × (b ≡ (selected || contains_session_id ids leader))

select-Selected :
    (seen : List String) (leader : String) (selected : Bool) (ids : List String) (b : Bool)
    → select_members seen leader selected ids ≡ ok b
    → Selected seen leader selected ids b
unfolding select_members contains_session_id
select-Selected seen leader selected [] b e =
    (tt, tt, λ s h. refl, ground (arith, ok_inj selected b e))
select-Selected seen leader selected (id ∷ ids) b e =
    let (bad, next) =
      passed (not (len id == 36) || contains_session_id seen id) "invalid_team_members" _ b e in
    let (l, d, apart, sel) =
      select-Selected (id ∷ seen) leader (selected || id == leader) ids b next in
    (
      (ground (arith), l),
      (apart id (ground (arith, eq_iff id id)), d),
      λ s h. ground (arith, apart s, eq_iff id s),
      ground (arith, sel),
    )

pub check_request-Chosen :
    (leader : String) (ids : List String) → check_request leader ids ≡ ok tt → Chosen leader ids
unfolding check_request
check_request-Chosen leader ids e =
    let (size, next) =
      passed (ltb (length ids) 1 || ltb 5 (length ids)) "invalid_team_size" _ tt e in
    let (selected, chosen, last) = succeeded (select_members [] leader false ids) _ tt next in
    let (l, d, apart, sel) = select-Selected [] leader false ids selected chosen in
    let led = refuse_if-eq-ok (not selected) "leader_not_selected" last in
    (ground arith, ground arith, l, d, ground (arith, sel))
