-- ===== src/Server/Attempts.antt =====
-- The attempts to give a new client a name.
use monitor_backend.Base.{
  ℕ, zero, suc, ◌<◌, ◌≡◌, refl, sym, ap, subst, ◌∙◌, inl, inr, String, Bool, true, false, not, none,
  some, List, [], ◌∷◌, ◌++◌, arith, leb, Bool-cases,
}
use monitor_backend.Base.Results.{Result, ok, ◌>>=◌, ◌>>◌, refuse_if}
use monitor_backend.BossCycle.{find, has}
use monitor_backend.Server.{User, Session, Store, client_count, is_bound_to}
use monitor_backend.Server.Sessions.{
  Binding, Draw, active_user, new_session, collides, insert_session, attempts, is_full, with_id,
  bind, bind_new, commit_binding, bind_for, ensure_device_session,
}

pub true-ne-false : true ≡ false → ⊥
true-ne-false e = cc

leb_of_lt : (a b : ℕ) → b < a → leb a b ≡ false
leb_of_lt a b l = ground arith

-- A check that a call passes.
skip {ℓ} :
    {A : Type ℓ} (b : Bool) (why : String) (r : Result A) → b ≡ false → refuse_if b why >> r ≡ r
skip true why r e = cc
skip false why r e = refl

insert_session-finds :
    (left k user : ℕ) (client : String) (d : Draw) (ss : List Session)
    → k < left
    → has (collides (new_session user client d (d.names k))) ss ≡ false
    → (r : List Session × String) × (insert_session left user client d ss ≡ ok r)
unfolding insert_session
insert_session-finds zero k user client d ss l f = absurd (omega arith)
insert_session-finds (suc left) k user client d ss l f =
    elim (Bool-cases (has (collides (new_session user client d (d.names left))) ss)) [
      | inl t ↦
          let (r, e) =
            insert_session-finds left k user client d ss (smaller left k l (apart left t)) f in
          (r, rw t e)
      | inr n ↦ ((ss ++ (new_session user client d (d.names left) ∷ []), d.names left), rw n refl)
    ]
  where
    apart : (i : ℕ) → has (collides (new_session user client d (d.names i))) ss ≡ true → (k ≡ i → ⊥)
    apart i t e =
        true-ne-false (
          sym t
          ∙ subst (λ j. has (collides (new_session user client d (d.names j))) ss ≡ false) e f)

    smaller : (a b : ℕ) → b < suc a → (b ≡ a → ⊥) → b < a
    smaller a b l n = ground (arith, n)

-- The statements of the transaction succeed.
abbrev pub Succeeds : Binding → Type 0
Succeeds db =
    (db.begins ≡ true)
    × (db.selects ≡ true)
    × (db.counts ≡ true)
    × (db.writes ≡ true)
    × (db.commits ≡ true)

-- A new client of an active account below its limit is bound if its statements succeed and one of the
-- twenty names is free for it: the attempts before it do not stop the loop.
pub ensure_device_session-attempts :
    (db : Binding) (d : Draw) (user k : ℕ) (client : String) (allow_rebind : Bool) (st : Store)
    → (u : User) → Succeeds db
    → find (active_user user) st.users ≡ some u
    → find (is_bound_to u.id client) st.sessions ≡ none
    → client_count u.id st.sessions < u.max_client_count
    → k < 20
    → has (collides (new_session u.id client d (d.names k))) st.sessions ≡ false
    → (after : Store) × (name : String) × (ensure_device_session db d user client allow_rebind st
        ≡ ok (after, (d.id, name)))
unfolding ensure_device_session
ensure_device_session-attempts db d user k client allow_rebind st u (b, s, c, w, m) f n room l
      free =
    let (r, e) = insert_session-finds attempts k u.id client d st.sessions l free in
    let names : String × String = (d.id, r.1) in
    let full : is_full u st.sessions ≡ false =
      leb_of_lt u.max_client_count (client_count u.id st.sessions) room in
    let inserted : bind_new db d u client st.sessions ≡ ok (r.0, names) =
      skip (not db.counts) "internal_error" _ (ap not c)
      ∙ (skip (is_full u st.sessions) "client_limit_reached" _ full
          ∙ (skip (not db.writes) "internal_error" _ (ap not w) ∙ ap (with_id d.id) e)) in
    let bound : bind db d allow_rebind client st.sessions
          (find (is_bound_to u.id client) st.sessions) u
        ≡ ok (r.0, names) =
      ap (λ o. bind db d allow_rebind client st.sessions o u) n ∙ inserted in
    (
      record st { sessions = r.0 },
      r.1,
      skip (not db.begins) "internal_error" _ (ap not b)
          ∙ (ap (bind_for db d client allow_rebind st) f
              ∙ (skip (not db.selects) "internal_error" _ (ap not s)
                  ∙ (ap (λ x. x >>= commit_binding db.commits st) bound
                      ∙ skip (not db.commits) "internal_error" _ (ap not m)))),
    )
