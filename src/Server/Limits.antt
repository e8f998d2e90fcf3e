-- ===== src/Server/Limits.antt =====
-- The number of clients bound to an account, and its limit.
use monitor_backend.Base.{
  ℕ, suc, ◌≤◌, ◌≡◌, refl, sym, ap, subst, inl, inr, String, Bool, true, false, not, Option, none,
  some, List, [], ◌∷◌, ◌++◌, ◌==◌, string_eq, nat_eq, nat_beq_iff, if◌then◌else◌, arith, Bool-cases,
  Option-cases, is_some,
}
use monitor_backend.Base.Results.{Result, ok, err, ◌>>◌, ◌>>=◌, refuse_if, ok_inj}
use monitor_backend.BossCycle.{find, update_where}
use monitor_backend.Server.{User, Session, Store, is_bound_to, is_counted, has_id, client_count}
use monitor_backend.Server.Rows.{amount-append}
use monitor_backend.Server.Sessions.{
  Binding, Draw, active_user, new_session, insert_session, attempts, rebound, bind_known,
  bind_again, is_full, with_id, bind_new, bind, commit_binding, bind_for, ensure_device_session,
}
use monitor_backend.Server.Counts.{
  Keyed, Binds, rebound-Keyed, rebound-count, inserts, inserted-Keyed,
}

-- What a binding leaves, with the rows found for the account `u`.
abbrev Left : User → List Session → Result (List Session × (String × String)) → Type 0
Left u before (err why) = Unit
Left u before (ok r) = Keyed r.0 × Binds u before r.0

added-Binds :
    (u : User) (new : Session) (ss : List Session)
    → new.user_id ≡ u.id
    → new.active ≡ true
    → is_some new.client_id ≡ true
    → suc (client_count u.id ss) ≤ u.max_client_count
    → Binds u ss (ss ++ (new ∷ []))
unfolding client_count
added-Binds u new ss e a c room v = elim (Bool-cases (u.id == v)) [
  | inl t ↦ inr (
    ground (arith, nat_beq_iff u.id v),
    ground (arith, amount-append (is_counted v) ss (new ∷ []), nat_beq_iff u.id v),
    ground (arith, amount-append (is_counted v) ss (new ∷ []), nat_beq_iff u.id v),
  )
  | inr f ↦ inl (ground (arith, amount-append (is_counted v) ss (new ∷ []), nat_beq_iff u.id v))
]

inserted-Left :
    (u : User) (client : String) (d : Draw) (ss : List Session) (r : Result (List Session × String))
    → Keyed ss
    → suc (client_count u.id ss) ≤ u.max_client_count
    → insert_session attempts u.id client d ss ≡ r
    → Left u ss (with_id d.id r)
inserted-Left u client d ss (err why) k room e = tt
inserted-Left u client d ss (ok (after, name)) k room e =
    let (p, f) = inserts attempts u.id client d ss after name e in
    let new : Session = new_session u.id client d name in
    subst (λ (x : List Session). Keyed x × Binds u ss x) (sym p)
      (inserted-Keyed new ss f k, added-Binds u new ss refl refl refl room)

refused-Left :
    (u : User) (ss : List Session) (b : Bool) (why : String)
    (r : Result (List Session × (String × String)))
    → (b ≡ false → Left u ss r)
    → Left u ss (refuse_if b why >> r)
refused-Left u ss true why r h = tt
refused-Left u ss false why r h = h refl

rebound-Binds :
    (u : User) (client : String) (ss : List Session) (s : Session)
    → Keyed ss
    → find (is_bound_to u.id client) ss ≡ some s
    → s.active ≡ false
    → suc (client_count u.id ss) ≤ u.max_client_count
    → Binds u ss (update_where (has_id s.id) rebound ss)
unfolding client_count
rebound-Binds u client ss s k e a room v = elim (Bool-cases (u.id == v)) [
  | inl t ↦ inr (
    ground (arith, nat_beq_iff u.id v),
    ground (arith, rebound-count v u.id client ss s e a (k s.id)),
    ground (arith, rebound-count v u.id client ss s e a (k s.id), nat_beq_iff u.id v),
  )
  | inr f ↦ inl (ground (arith, rebound-count v u.id client ss s e a (k s.id)))
]

bind_again-Left :
    (db : Binding) (allow_rebind : Bool) (u : User) (client : String) (ss : List Session)
    (s : Session)
    → Keyed ss
    → find (is_bound_to u.id client) ss ≡ some s
    → s.active ≡ false
    → Left u ss (bind_again db allow_rebind u ss s)
bind_again-Left db allow_rebind u client ss s k e a =
    refused-Left u ss (not allow_rebind) "client_unbound" _ λ x.
      refused-Left u ss (not db.counts) "internal_error" _ λ y.
        refused-Left u ss (is_full u ss) "client_limit_reached" _ λ full.
          refused-Left u ss (not db.writes) "internal_error" _
            λ z. (rebound-Keyed s.id ss k, rebound-Binds u client ss s k e a (ground arith))

bind_known-Left :
    (db : Binding) (allow_rebind : Bool) (u : User) (client : String) (ss : List Session)
    (s : Session)
    → Keyed ss
    → find (is_bound_to u.id client) ss ≡ some s
    → Left u ss (bind_known db allow_rebind u ss s)
bind_known-Left db allow_rebind u client ss s k e = go s.active refl
  where
    go :
        (b : Bool)
        → s.active ≡ b
        → Left u ss (if b then ok (ss, (s.id, s.name)) else bind_again db allow_rebind u ss s)
    go true f = (k, λ v. inl refl)
    go false f = bind_again-Left db allow_rebind u client ss s k e f

bind_new-Left :
    (db : Binding) (d : Draw) (u : User) (client : String) (ss : List Session)
    → Keyed ss
    → Left u ss (bind_new db d u client ss)
bind_new-Left db d u client ss k = refused-Left u ss (not db.counts) "internal_error" _ λ y.
    refused-Left u ss (is_full u ss) "client_limit_reached" _ λ full.
      refused-Left u ss (not db.writes) "internal_error" _ λ z.
        inserted-Left u client d ss (insert_session attempts u.id client d ss) k (ground arith) refl

bind-Left :
    (db : Binding) (d : Draw) (allow_rebind : Bool) (client : String) (ss : List Session) (u : User)
    → Keyed ss
    → Left u ss (bind db d allow_rebind client ss (find (is_bound_to u.id client) ss) u)
bind-Left db d allow_rebind client ss u k =
    elim (Option-cases (find (is_bound_to u.id client) ss)) [
      | inl e ↦ rw e (bind_new-Left db d u client ss k)
      | inr (s, e) ↦ rw e (bind_known-Left db allow_rebind u client ss s k e)
    ]

committed :
    (commits : Bool) (u : User) (st after : Store) (names : String × String)
    → (r : Result (List Session × (String × String))) → Left u st.sessions r
    → (r >>= commit_binding commits st) ≡ ok (after, names)
    → Keyed after.sessions × Binds u st.sessions after.sessions
committed commits u st after names (err why) l e = cc
committed false u st after names (ok r) l e = cc
committed true u st after names (ok r) l e =
    let p : record st { sessions = r.0 } ≡ after =
      ap (λ (x : Store × (String × String)). x.0)
        (ok_inj (record st { sessions = r.0 }, r.1) (after, names) e) in
    subst (λ (x : Store). Keyed x.sessions × Binds u st.sessions x.sessions) p l

-- Where a check lets a call go on.
pub passes {ℓ} :
    {A : Type ℓ} (b : Bool) (why : String) (r : Result A) (x : A)
    → refuse_if b why >> r ≡ ok x
    → r ≡ ok x
passes true why r x e = cc
passes false why r x e = e

bound_for :
    (db : Binding) (d : Draw) (client : String) (allow_rebind : Bool) (st after : Store)
    → (names : String × String) (o : Option User) → Keyed st.sessions
    → bind_for db d client allow_rebind st o ≡ ok (after, names)
    → (u : User) × (o ≡ some u) × (Keyed after.sessions × Binds u st.sessions after.sessions)
bound_for db d client allow_rebind st after names none k e = cc
bound_for db d client allow_rebind st after names (some u) k e = (
  u,
  refl,
  committed db.commits u st after names _ (bind-Left db d allow_rebind client st.sessions u k)
      (passes (not db.selects) "internal_error" _ (after, names) e),
)

-- Binding a client in a table with one row for an id leaves such a table. It finds the active account,
-- and either every account has as many bound clients as before, or only this one has one more, and not
-- more than its limit. This holds for new clients, for known ones and for those that are bound again.
pub ensure_device_session-limit :
    (db : Binding) (d : Draw) (user : ℕ) (client : String) (allow_rebind : Bool) (st after : Store)
    → (id name : String) → Keyed st.sessions
    → ensure_device_session db d user client allow_rebind st ≡ ok (after, (id, name))
    → (u : User) × (find (active_user user) st.users ≡ some u)
      × (Keyed after.sessions × Binds u st.sessions after.sessions)
unfolding ensure_device_session
ensure_device_session-limit db d user client allow_rebind st after id name k e =
    bound_for db d client allow_rebind st after (id, name) (find (active_user user) st.users) k
      (passes (not db.begins) "internal_error" _ (after, (id, name)) e)
