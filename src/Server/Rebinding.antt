-- ===== src/Server/Rebinding.antt =====
-- A client that is bound is bound to the same session when it connects again.
use monitor_backend.Base.{
  ℕ, ◌≡◌, refl, sym, ap, subst, ◌∙◌, inl, inr, String, Bool, true, false, not, Option, none, some,
  List, string_eq, nat_eq, eq_iff, nat_beq_iff, if◌then◌else◌, arith, Option-cases,
}
use monitor_backend.Base.Results.{Result, ok, err, ◌>>◌, ◌>>=◌, refuse_if, ok_inj}
use monitor_backend.BossCycle.{find}
use monitor_backend.Server.{User, Session, Store, is_bound_to, has_id}
use monitor_backend.Server.Rows.{find-update, find-append}
use monitor_backend.Server.Counts.{inserts}
use monitor_backend.Server.Limits.{passes}
use monitor_backend.Server.Sessions.{
  Binding, Draw, active_user, new_session, insert_session, attempts, rebound, bind_known,
  bind_again, is_full, with_id, bind, commit_binding, bind_for, ensure_device_session,
}

-- The session that the client of an account is bound to.
abbrev pub IsBound : ℕ → String → String × String → List Session → Type 0
IsBound user client names ss =
    (s : Session) × (find (is_bound_to user client) ss ≡ some s)
    × (s.active ≡ true)
    × (s.id ≡ names.0)
    × (s.name ≡ names.1)

abbrev Bound : ℕ → String → Result (List Session × (String × String)) → Type 0
Bound user client (err why) = Unit
Bound user client (ok r) = IsBound user client r.1 r.0

refused-Bound :
    (user : ℕ) (client : String) (b : Bool) (why : String)
    (r : Result (List Session × (String × String)))
    → (b ≡ false → Bound user client r)
    → Bound user client (refuse_if b why >> r)
refused-Bound user client true why r h = tt
refused-Bound user client false why r h = h refl

bind_known-Bound :
    (db : Binding) (allow_rebind : Bool) (u : User) (client : String) (ss : List Session)
    (s : Session)
    → find (is_bound_to u.id client) ss ≡ some s
    → Bound u.id client (bind_known db allow_rebind u ss s)
bind_known-Bound db allow_rebind u client ss s e = go s.active refl
  where
    go :
        (b : Bool)
        → s.active ≡ b
        → Bound u.id client
            (if b then ok (ss, (s.id, s.name)) else bind_again db allow_rebind u ss s)
    go true f = (s, e, f, refl, refl)
    go false f = refused-Bound u.id client (not allow_rebind) "client_unbound" _ λ x.
        refused-Bound u.id client (not db.counts) "internal_error" _ λ y.
          refused-Bound u.id client (is_full u ss) "client_limit_reached" _ λ full.
            refused-Bound u.id client (not db.writes) "internal_error" _ λ z. (
              rebound s,
              find-update (is_bound_to u.id client) (has_id s.id) rebound ss s (λ x. refl) e
                  (ground (arith, eq_iff s.id s.id)),
              refl,
              refl,
              refl,
            )

inserted-Bound :
    (user : ℕ) (client : String) (d : Draw) (ss : List Session) (r : Result (List Session × String))
    → find (is_bound_to user client) ss ≡ none
    → insert_session attempts user client d ss ≡ r
    → Bound user client (with_id d.id r)
inserted-Bound user client d ss (err why) n e = tt
inserted-Bound user client d ss (ok (after, name)) n e =
    let (p, f) = inserts attempts user client d ss after name e in
    let new : Session = new_session user client d name in
    subst (λ (x : List Session). IsBound user client (d.id, name) x) (sym p)
      (
        new,
        find-append (is_bound_to user client) ss new n
            (ground (arith, eq_iff client client, nat_beq_iff user user)),
        refl,
        refl,
        refl,
      )

bind-Bound :
    (db : Binding) (d : Draw) (allow_rebind : Bool) (client : String) (ss : List Session) (u : User)
    → Bound u.id client (bind db d allow_rebind client ss (find (is_bound_to u.id client) ss) u)
bind-Bound db d allow_rebind client ss u = elim (Option-cases (find (is_bound_to u.id client) ss)) [
  | inl e ↦ rw e (
      refused-Bound u.id client (not db.counts) "internal_error" _ λ y.
        refused-Bound u.id client (is_full u ss) "client_limit_reached" _ λ full.
          refused-Bound u.id client (not db.writes) "internal_error" _
            λ z. inserted-Bound u.id client d ss (insert_session attempts u.id client d ss) e refl)
  | inr (s, e) ↦ rw e (bind_known-Bound db allow_rebind u client ss s e)
]

again_for :
    (db' : Binding) (d' : Draw) (client : String) (allow' : Bool) (st : Store)
    (names : String × String)
    → (u : User) → db'.selects ≡ true
    → db'.commits ≡ true
    → IsBound u.id client names st.sessions
    → bind_for db' d' client allow' st (some u) ≡ ok (st, names)
again_for db' d' client allow' st names u a b (s, e, t, i, n) =
    rw (a, e) (go s.active db'.commits t b)
  where
    go :
        (act c : Bool)
        → act ≡ true
        → c ≡ true
        → ((if act then ok (st.sessions, (s.id, s.name)) else bind_again db' allow' u st.sessions s)
            >>= commit_binding c st)
          ≡ ok (st, names)
    go false c x y = cc
    go true false x y = cc
    go true true x y = rw (i, n) refl

bind_for-IsBound :
    (db : Binding) (d : Draw) (client : String) (allow_rebind : Bool) (st after : Store)
    → (names : String × String) (u : User)
    → bind_for db d client allow_rebind st (some u) ≡ ok (after, names)
    → (after.users ≡ st.users) × IsBound u.id client names after.sessions
bind_for-IsBound db d client allow_rebind st after names u e =
    go (bind db d allow_rebind client st.sessions (find (is_bound_to u.id client) st.sessions) u)
      db.commits (bind-Bound db d allow_rebind client st.sessions u)
      (passes (not db.selects) "internal_error" _ (after, names) e)
  where
    go :
        (r : Result (List Session × (String × String))) (commits : Bool)
        → Bound u.id client r
        → (r >>= commit_binding commits st) ≡ ok (after, names)
        → (after.users ≡ st.users) × IsBound u.id client names after.sessions
    go (err why) commits l p = cc
    go (ok r) false l p = cc
    go (ok r) true l p =
        subst
          (λ (x : Store × (String × String)).
            (x.0.users ≡ st.users) × IsBound u.id client x.1 x.0.sessions)
          (ok_inj (record st { sessions = r.0 }, r.1) (after, names) p) (refl, l)

again_from :
    (db db' : Binding) (d d' : Draw) (user : ℕ) (client : String) (allow_rebind allow' : Bool)
    → (st after : Store) (names : String × String) (o : Option User)
    → find (active_user user) st.users ≡ o
    → db'.selects ≡ true
    → db'.commits ≡ true
    → bind_for db d client allow_rebind st o ≡ ok (after, names)
    → bind_for db' d' client allow' after (find (active_user user) after.users) ≡ ok (after, names)
again_from db db' d d' user client allow_rebind allow' st after names none f a b e = cc
again_from db db' d d' user client allow_rebind allow' st after names (some u) f a b e =
    let (users, bound) = bind_for-IsBound db d client allow_rebind st after names u e in
    let same : find (active_user user) after.users ≡ some u =
      ap (λ us. find (active_user user) us) users ∙ f in
    subst (λ o. bind_for db' d' client allow' after o ≡ ok (after, names)) (sym same)
      (again_for db' d' client allow' after names u a b bound)

-- Once a client is bound, binding it again changes nothing and gives the same session id and name, also
-- where binding a revoked client is not allowed, the account is full and other ids are drawn, as long as
-- the transaction begins, queries and commits.
pub ensure_device_session-again :
    (db db' : Binding) (d d' : Draw) (user : ℕ) (client : String) (allow_rebind allow' : Bool)
    → (st after : Store) (names : String × String) → db'.begins ≡ true
    → db'.selects ≡ true
    → db'.commits ≡ true
    → ensure_device_session db d user client allow_rebind st ≡ ok (after, names)
    → ensure_device_session db' d' user client allow' after ≡ ok (after, names)
unfolding ensure_device_session
ensure_device_session-again db db' d d' user client allow_rebind allow' st after names g a b e =
    rw g (
      again_from db db' d d' user client allow_rebind allow' st after names
        (find (active_user user) st.users) refl a b
        (passes (not db.begins) "internal_error" _ (after, names) e))
