-- ===== src/ExpGain/Flushing.antt =====
-- What `flushDirty` writes, and a gain that is counted while `persistUser` runs its transaction.
use monitor_backend.Base.{
  ℕ, ◌≡◌, ◌≢◌, refl, sym, subst, ◌∙◌, String, Bool, true, false, some, List, [], ◌∷◌, ◌==◌,
  string_eq, nat_eq, nat_beq_iff, if◌then◌else◌, Map, lookup, insert, lookup-insert, arith,
  Bool-cases, inl, inr, Option-cases, keep, ◌⊎◌, ◌<◌, ◌+◌, ◌-◌, ◌^◌,
}
use monitor_backend.Base.Int.{pos}
use monitor_backend.ExpGain.{UserState, record_reading}
use monitor_backend.ExpGain.Counting.{Stands, record_reading-Stands}
use monitor_backend.ExpGain.Store.{
  SampleRow, Tables, stats_of, write_user, persist_user, clear_dirty, dirty_ids, persist_all,
  flush_dirty, is_recent,
}

-- The user is in the list.
abbrev pub Listed : ℕ → List ℕ → Type 0
Listed user [] = ⊥
Listed user (u ∷ us) = (u ≡ user) ⊎ Listed user us

dirty-Listed :
    (user : ℕ) (states : Map ℕ UserState) (s : UserState)
    → lookup user states ≡ some s
    → s.dirty ≡ true
    → Listed user (dirty_ids states)
unfolding dirty_ids lookup
dirty-Listed user [] s e d = absurd (cc e)
dirty-Listed user ((u, x) ∷ rest) s e d = elim (Bool-cases (u == user)) [
  | inl p ↦ rw (marked (rw p at e)) (inl ((nat_beq_iff u user).0 p))
  | inr n ↦ later (dirty-Listed user rest s (rw n at e) d) (Bool-cases x.dirty)
]
  where
    marked : some x ≡ some s → x.dirty ≡ true
    marked q = ground arith

    later :
        Listed user (dirty_ids rest)
        → (x.dirty ≡ true) ⊎ (x.dirty ≡ false)
        → Listed user (let ids = dirty_ids rest in if x.dirty then u ∷ ids else ids)
    later k (inl q) = rw q (inr k)
    later k (inr q) = rw q k

-- The transaction of the user itself.
own_persist :
    (user now : ℕ) (s : UserState) (states : Map ℕ UserState) (t : Tables) (b : Bool)
    → lookup user states ≡ some (record s { dirty = b })
    → let p = persist_user user true now states t in
      (lookup user p.states ≡ some (record s { dirty = false }))
      × (lookup user p.tables.stats ≡ some (stats_of now s))
unfolding persist_user clear_dirty write_user stats_of
own_persist user now s states t b e =
    rw (e, persist_user)
      (rw (e, clear_dirty)
        (
          rw (lookup-insert user user (record s { dirty = false }) states, self),
          rw (lookup-insert user user (stats_of now s) t.stats, self),
        ))
  where
    self : (user == user) ≡ true
    self = (nat_beq_iff user user).1 refl

-- The transaction of another user.
other_persist :
    (user other now : ℕ) (states : Map ℕ UserState) (t : Tables)
    → other ≢ user
    → let p = persist_user other true now states t in
      (lookup user p.states ≡ lookup user states)
      × (lookup user p.tables.stats ≡ lookup user t.stats)
unfolding persist_user clear_dirty write_user
other_persist user other now states t n = elim (Option-cases (lookup other states)) [
  | inl e ↦ rw (e, persist_user) (refl, refl)
  | inr (x, e) ↦
      rw (e, persist_user)
        (
          rw (e, clear_dirty)
              (rw (lookup-insert other user (record x { dirty = false }) states, differ)),
          rw (lookup-insert other user (stats_of now x) t.stats, differ),
        )
]
  where
    differ : (other == user) ≡ false
    differ = ground (arith, nat_beq_iff other user)

-- The state is clean and the row is its copy.
Written : ℕ → ℕ → UserState → Map ℕ UserState × Tables → Type 0
Written user now s (states, t) =
    (lookup user states ≡ some (record s { dirty = false }))
    × (lookup user t.stats ≡ some (stats_of now s))

persist_all-keeps-Written :
    (user now : ℕ) (s : UserState) (ids : List ℕ) (states : Map ℕ UserState) (t : Tables)
    → Written user now s (states, t)
    → Written user now s (persist_all ids (λ u. true) now states t)
unfolding persist_all Written
persist_all-keeps-Written user now s [] states t w = w
persist_all-keeps-Written user now s (u ∷ ids) states t w =
    persist_all-keeps-Written user now s ids _ _ (elim (Bool-cases (u == user)) [
      | inl p ↦
          subst
            (λ x.
              let q = persist_user x true now states t in
              (lookup user q.states ≡ some (record s { dirty = false }))
              × (lookup user q.tables.stats ≡ some (stats_of now s)))
            (sym ((nat_beq_iff u user).0 p)) (own_persist user now s states t false w.0)
      | inr n ↦
          let (a, b) = other_persist user u now states t (λ e. cc ((nat_beq_iff u user).1 e, n)) in
          (a ∙ w.0, b ∙ w.1)
    ])

persist_all-Written :
    (user now : ℕ) (s : UserState) (b : Bool) (ids : List ℕ) (states : Map ℕ UserState) (t : Tables)
    → Listed user ids
    → lookup user states ≡ some (record s { dirty = b })
    → Written user now s (persist_all ids (λ u. true) now states t)
unfolding persist_all Written
persist_all-Written user now s b [] states t k e = absurd k
persist_all-Written user now s b (u ∷ ids) states t k e = elim (Bool-cases (u == user)) [
  | inl p ↦ persist_all-keeps-Written user now s ids _ _ (
      subst
        (λ x.
          let q = persist_user x true now states t in
          (lookup user q.states ≡ some (record s { dirty = false }))
          × (lookup user q.tables.stats ≡ some (stats_of now s)))
        (sym ((nat_beq_iff u user).0 p)) (own_persist user now s states t b e))
  | inr n ↦
      let m : u ≢ user = λ q. cc ((nat_beq_iff u user).1 q, n) in
      let (a, c) = other_persist user u now states t m in
      persist_all-Written user now s b ids _ _ (elim k [ inl q ↦ absurd (m q) | inr r ↦ r ]) (a ∙ e)
]

-- If every transaction of a flush succeeds, each user whose state was dirty has a clean state and a
-- row that is the copy of the state, whatever the other users' states are.
pub flush_dirty-writes :
    (user now : ℕ) (deletes : Bool) (states : Map ℕ UserState) (t : Tables) (s : UserState)
    → lookup user states ≡ some s
    → s.dirty ≡ true
    → let (states', t') = flush_dirty (λ u. true) deletes now states t in
      (lookup user states' ≡ some (record s { dirty = false }))
      × (lookup user t'.stats ≡ some (stats_of now s))
unfolding flush_dirty Written
flush_dirty-writes user now deletes states t s e d =
    let (a, b) =
      persist_all-Written user now s s.dirty (dirty_ids states) states t
        (dirty-Listed user states s e d) e in
    (
      a,
      kept deletes (persist_all (dirty_ids states) (λ u. true) now states t).1
          (keep (is_recent now) (persist_all (dirty_ids states) (λ u. true) now states t).1.samples)
          b,
    )
  where
    kept :
        (x : Bool) (t' : Tables) (samples : List SampleRow)
        → lookup user t'.stats ≡ some (stats_of now s)
        → lookup user (if x then record t' { samples = samples } else t').stats
          ≡ some (stats_of now s)
    kept true t' samples k = k
    kept false t' samples k = k

-- If a session's reading rises, without overflow, between the copy that `persistUser` takes and
-- its last lines, which clear the dirty flag, then afterwards the state has the gain and is clean,
-- and the row in the table has the total without the gain.
pub persist-gain_race :
    (user : ℕ) (session : String) (previous total daily n now later : ℕ) (s : UserState)
    → (states : Map ℕ UserState) (t : Tables) → previous < n
    → n < 2 ^ 63
    → total + (n - previous) < 2 ^ 63
    → daily + (n - previous) < 2 ^ 63
    → Stands session previous total daily s
    → let s' = record_reading session (some (pos n)) now s in
      let states' = clear_dirty user (insert user s' states) in
      let t' = write_user user s later t in
      (lookup user states' ≡ some (record s' { dirty = false }))
      × (s'.total_gained ≡ pos (total + (n - previous)))
      × (lookup user t'.stats ≡ some (stats_of later s))
      × ((stats_of later s).total_gained ≢ s'.total_gained)
unfolding clear_dirty write_user stats_of
persist-gain_race user session previous total daily n now later s states t up b c d v =
    let s' = record_reading session (some (pos n)) now s in
    let w = record_reading-Stands session previous total daily n now s (omega arith) b c d v in
    (
      rw (stored s' states, clear_dirty)
          (stored (record s' { dirty = false }) (insert user s' states)),
      w.totals,
      stored (stats_of later s) t.stats,
      λ e. absurd (ground (arith, v.totals, w.totals)),
    )
  where
    stored : {V : Type 0} (x : V) (m : Map ℕ V) → lookup user (insert user x m) ≡ some x
    stored x m = rw (lookup-insert user user x m, (nat_beq_iff user user).1 refl)
