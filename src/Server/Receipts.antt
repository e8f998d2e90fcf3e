-- ===== src/Server/Receipts.antt =====
-- Reports of a join that arrive twice.
use monitor_backend.Base.{
  ℕ, ◌≡◌, refl, sym, ap, ◌∙◌, inl, inr, some, String, Bool, true, false, not, ◌&&◌, ◌||◌, List, [],
  ◌∷◌, ◌++◌, ◌==◌, string_eq, nat_eq, eq_iff, if◌then◌else◌, arith, Bool-cases,
}
use monitor_backend.Protocol.{TeamJoinedPayload}
use monitor_backend.BossCycle.{Team, Member, has, update_where}
use monitor_backend.Server.{Store}
use monitor_backend.Server.Rows.{update-after, has-append}
use monitor_backend.Server.Joins.{
  is_row, set_joined, join_rows, joined_tables, is_receipt, acknowledge_join, write_join,
  is_confirmed, notify_if, mark_team_joined,
}

-- The tables of the rope team.
abbrev pub rows : Store → List Team × List Member × List (String × String)
rows st = (st.world.teams, st.world.members, st.receipts)

marked_at :
    (b : Bool) (session : String) (taken user : ℕ) (p : TeamJoinedPayload) (r : Store × Bool)
    → rows (
        if b
        then acknowledge_join session taken p (notify_if r.1 user r.0)
        else notify_if r.1 user r.0)
      ≡ rows r.0
marked_at true session taken user p (s, true) = refl
marked_at true session taken user p (s, false) = refl
marked_at false session taken user p (s, true) = refl
marked_at false session taken user p (s, false) = refl

-- What a committed report does to the tables.
marked :
    (reads : Bool) (now user : ℕ) (session : String) (p : TeamJoinedPayload) (taken : ℕ)
    → (st : Store)
    → rows (mark_team_joined true reads now user session p taken st)
      ≡ rows (write_join now user session p st).0
unfolding mark_team_joined
marked reads now user session p taken st =
    marked_at
      (reads
        && is_confirmed user session p (
            notify_if (write_join now user session p st).1 user
              (write_join now user session p st).0))
      session taken user p (write_join now user session p st)

-- The tables that a report writes, without the flag.
abbrev tables : List Member × List (String × String) × Bool → List Member × List (String × String)
tables (ms, rs, changed) = (ms, rs)

abbrev pub rejoined_at : ℕ → Member → Member
rejoined_at now m = record m { joined_at = some now }

-- The time of the join is written again by a report without a receipt.
abbrev pub rejoined : ℕ → ℕ → String → TeamJoinedPayload → List Team → List Member → List Member
rejoined now user session p ts ms =
    if p.receipt_id == ""
    then update_where (is_row user session p.team_id ts) (rejoined_at now) ms
    else ms

tables-twice :
    (now later user : ℕ) (session : String) (p : TeamJoinedPayload) (ts : List Team)
    → (ms : List Member) (rs : List (String × String))
    → tables (
        joined_tables later user session p ts
          (joined_tables now user session p ts ms rs).0
          (joined_tables now user session p ts ms rs).1)
      ≡ (
        rejoined later user session p ts (joined_tables now user session p ts ms rs).0,
        (joined_tables now user session p ts ms rs).1,
      )
tables-twice now later user session p ts ms rs = elim (Bool-cases (p.receipt_id == "")) [
  | inl t ↦ rw t (
      ap (λ xs. (xs, rs))
        (update-after (is_row user session p.team_id ts) (set_joined now) (set_joined later)
          (rejoined_at later) ms (λ m. refl) (λ m. refl)))
  | inr n ↦
      elim (Bool-cases
        (not (has (is_row user session p.team_id ts) ms) || has (is_receipt p.receipt_id) rs)) [
          | inl b ↦ rw (n, b) (rw b refl)
          | inr f ↦
              let known : has (is_receipt p.receipt_id) (rs ++ ((p.receipt_id, session) ∷ []))
                  ≡ true =
                has-append (is_receipt p.receipt_id) rs (p.receipt_id, session)
                  ((eq_iff p.receipt_id p.receipt_id).1 refl) in
              let stop : (not (
                      has (is_row user session p.team_id ts)
                        (join_rows now user session p.team_id ts ms))
                    || has (is_receipt p.receipt_id) (rs ++ ((p.receipt_id, session) ∷ [])))
                  ≡ true =
                ground (arith, known) in
              rw (n, f) (rw stop refl)
        ]
]

-- What is written depends on the tables only.
abbrev written_rows :
    ℕ
    → ℕ
    → String
    → TeamJoinedPayload
    → List Team × List Member × List (String × String)
    → List Team × List Member × List (String × String)
written_rows now user session p (ts, ms, rs) = (
  ts,
  (joined_tables now user session p ts ms rs).0,
  (joined_tables now user session p ts ms rs).1,
)

abbrev pub rejoined_rows :
    ℕ
    → ℕ
    → String
    → TeamJoinedPayload
    → List Team × List Member × List (String × String)
    → List Team × List Member × List (String × String)
rejoined_rows now user session p (ts, ms, rs) = (ts, rejoined now user session p ts ms, rs)

-- A report of a join that is applied and arrives again leaves the teams, their members and the receipts as
-- they are, whatever becomes of the acknowledgements, but for one column: without a receipt, the time of
-- the session's join is that of the last report.
pub mark_team_joined-once :
    (reads again : Bool) (now later user : ℕ) (session : String) (p : TeamJoinedPayload)
    → (taken taken' : ℕ) (st : Store)
    → let once = mark_team_joined true reads now user session p taken st in
      rows (mark_team_joined true again later user session p taken' once)
      ≡ rejoined_rows later user session p (rows once)
mark_team_joined-once reads again now later user session p taken taken' st =
    let once = mark_team_joined true reads now user session p taken st in
    let first : rows once ≡ written_rows now user session p (rows st) =
      marked reads now user session p taken st in
    let second : written_rows later user session p (written_rows now user session p (rows st))
        ≡ rejoined_rows later user session p (written_rows now user session p (rows st)) =
      ap (λ (t : List Member × List (String × String)). (st.world.teams, t.0, t.1))
        (tables-twice now later user session p st.world.teams st.world.members st.receipts) in
    marked again later user session p taken' once
    ∙ (ap (written_rows later user session p) first
        ∙ (second ∙ ap (rejoined_rows later user session p) (sym first)))
