-- ===== src/BossCycle/Skips.antt =====
-- Which members stay pending: the loops over sessions as one pass over the rows.
use monitor_backend.Base.{
  ℕ, All, ◌≡◌, refl, sym, ap, ◌∙◌, String, Bool, true, not, ◌&&◌, List, [], ◌∷◌, ◌==◌, string_eq,
  nat_eq, eq_iff, nat_beq_iff, keep, arith, Bool-cases, inl, inr,
}
use monitor_backend.Hub.{Hub}
use monitor_backend.BossCycle.{
  Member, update_where, is_pending, sessions, rope_team_pending_cycle_session_ids,
  is_active_temple_client, active_temple_client_session_ids, contains_session_id,
}
use monitor_backend.BossCycle.Starting.{set_completed}
use monitor_backend.BossCycle.Handlers.{
  skip_inactive, skip_inactive_boss_cycle_participants, is_uncompleted,
}

pub contains-keep :
    (p : String → Bool) (ids : List String) (s : String)
    → contains_session_id (keep p ids) s ≡ (p s && contains_session_id ids s)
unfolding contains_session_id
contains-keep p [] s = ground arith
contains-keep p (id ∷ ids) s = ground (arith, eq_iff id s, contains-keep p ids s)

keep_all : (xs : List String) → keep (λ s. true) xs ≡ xs
keep_all [] = refl
keep_all (x ∷ xs) = cc (keep_all xs)

-- Two filters as one.
keep_fuse :
    (p q r : String → Bool) (xs : List String)
    → ((s : String) → r s ≡ (q s && p s))
    → keep p (keep q xs) ≡ keep r xs
keep_fuse p q r [] e = refl
keep_fuse p q r (x ∷ xs) e = ground (arith, e x, keep_fuse p q r xs e)

pub keep_same :
    (p q : String → Bool) (xs : List String) → All (λ s. p s ≡ q s) xs → keep p xs ≡ keep q xs
keep_same p q [] a = refl
keep_same p q (x ∷ xs) a = ground (arith, a.0, keep_same p q xs a.1)

-- A session is in a list that holds it.
contained_later :
    (id : String) (ids xs : List String)
    → All (λ s. contains_session_id ids s ≡ true) xs
    → All (λ s. contains_session_id (id ∷ ids) s ≡ true) xs
unfolding contains_session_id
contained_later id ids [] a = tt
contained_later id ids (x ∷ xs) a = (ground (arith, a.0), contained_later id ids xs a.1)

pub contained : (ids : List String) → All (λ s. contains_session_id ids s ≡ true) ids
unfolding contains_session_id
contained [] = tt
contained (id ∷ ids) = (ground (arith, eq_iff id id), contained_later id ids ids (contained ids))

skipped_one :
    (team cycle : ℕ) (id : String) (ms : List Member)
    → sessions (
        keep
          (is_pending team cycle)
          (update_where (is_uncompleted team id cycle) (set_completed cycle) ms))
      ≡ keep (λ s. not (id == s)) (sessions (keep (is_pending team cycle) ms))
skipped_one team cycle id [] = refl
skipped_one team cycle id (m ∷ ms) = ground (
  arith,
  eq_iff id m.session_id,
  eq_iff m.session_id id,
  nat_beq_iff cycle cycle,
  skipped_one team cycle id ms,
)

abbrev stays : Hub → List String → String → Bool
stays hub ids s = not (contains_session_id ids s && not (is_active_temple_client hub s))

skip_inactive-pending :
    (hub : Hub) (team cycle : ℕ) (ids : List String) (ms : List Member)
    → sessions (keep (is_pending team cycle) (skip_inactive hub team cycle ids ms))
      ≡ keep (stays hub ids) (sessions (keep (is_pending team cycle) ms))
unfolding skip_inactive contains_session_id
skip_inactive-pending hub team cycle [] ms = sym (keep_all _)
skip_inactive-pending hub team cycle (id ∷ ids) ms =
    elim (Bool-cases (is_active_temple_client hub id)) [
      | inl a ↦ rw a (
          skip_inactive-pending hub team cycle ids ms
          ∙ keep_every (stays hub ids) (stays hub (id ∷ ids)) _ (λ s. ground (arith, eq_iff id s)))
      | inr n ↦ rw n (
          skip_inactive-pending hub team cycle ids _
          ∙ ap (keep (stays hub ids)) (skipped_one team cycle id ms)
          ∙ keep_fuse (stays hub ids) (λ s. not (id == s)) (stays hub (id ∷ ids)) _
              (λ s. ground (arith, eq_iff id s)))
    ]
  where
    keep_every :
        (p q : String → Bool) (xs : List String)
        → ((s : String) → p s ≡ q s)
        → keep p xs ≡ keep q xs
    keep_every p q [] e = refl
    keep_every p q (x ∷ xs) e = ground (arith, e x, keep_every p q xs e)

-- Skipping the inactive participants leaves exactly those pending that were pending and whose client
-- is connected and running in the temple mode, in the order of the rows.
pub skip_inactive_lem :
    (hub : Hub) (team cycle : ℕ) (ms : List Member)
    → rope_team_pending_cycle_session_ids team cycle
        (skip_inactive_boss_cycle_participants hub team cycle ms)
      ≡ active_temple_client_session_ids hub (rope_team_pending_cycle_session_ids team cycle ms)
unfolding skip_inactive_boss_cycle_participants rope_team_pending_cycle_session_ids
    active_temple_client_session_ids
skip_inactive_lem hub team cycle ms =
    let ids = sessions (keep (is_pending team cycle) ms) in
    skip_inactive-pending hub team cycle ids ms
    ∙ keep_same (stays hub ids) (is_active_temple_client hub) ids (every ids ids (contained ids))
  where
    every :
        (ids xs : List String)
        → All (λ s. contains_session_id ids s ≡ true) xs
        → All (λ s. stays hub ids s ≡ is_active_temple_client hub s) xs
    every ids [] a = tt
    every ids (x ∷ xs) a = (ground (arith, a.0), every ids xs a.1)
