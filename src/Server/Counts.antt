-- ===== src/Server/Counts.antt =====
-- How many client sessions an account has, before and after its table changes.
use monitor_backend.Base.{
  ℕ, zero, suc, ◌≤◌, ◌<◌, ◌≡◌, refl, ap, subst, ◌∙◌, ◌⊎◌, inl, inr, String, true, false, Option,
  none, some, List, [], ◌∷◌, ◌++◌, ◌==◌, string_eq, nat_eq, eq_iff, nat_beq_iff, if◌then◌else◌,
  arith, Bool-cases, is_some,
}
use monitor_backend.Base.Results.{ok, ok_inj}
use monitor_backend.BossCycle.{find, has, update_where}
use monitor_backend.Server.{User, Session, equals, is_bound_to, is_counted, has_id, client_count}
use monitor_backend.Server.Rows.{
  amount, some_inj, amount-append, find-amount, update-none, amount-update,
}
use monitor_backend.Server.Sessions.{Draw, new_session, collides, insert_session, rebound}

-- The primary key of `monitor_sessions`.
abbrev pub Keyed : List Session → Type 0
Keyed ss = (id : String) → amount (has_id id) ss ≤ 1

-- The sessions of an account before and after a binding: as many, or one more and within the limit.
abbrev pub Binds : User → List Session → List Session → Type 0
Binds u before after =
    (v : ℕ)
    → (client_count v after ≡ client_count v before)
      ⊎ ((v ≡ u.id)
          × (client_count v after ≡ suc (client_count v before))
          × (client_count v after ≤ u.max_client_count))

pub rebound-Keyed :
    (id : String) (ss : List Session) → Keyed ss → Keyed (update_where (has_id id) rebound ss)
rebound-Keyed id ss k other =
    rw (amount-update (has_id other) (has_id id) rebound ss (λ s. refl)) (k other)

pub equals-some : (client : String) (o : Option String) → equals client o ≡ true → is_some o ≡ true
equals-some client none e = cc
equals-some client (some c) e = refl

pub bound_has_client :
    (user : ℕ) (client : String) (r : Session)
    → is_bound_to user client r ≡ true
    → is_some r.client_id ≡ true
bound_has_client user client r t = equals-some client r.client_id (ground arith)

pub head-count :
    (v user : ℕ) (client : String) (r : Session) (rs : List Session)
    → is_bound_to user client r ≡ true
    → r.active ≡ false
    → amount (has_id r.id) (r ∷ rs) ≤ 1
    → amount (is_counted v) (update_where (has_id r.id) rebound (r ∷ rs))
      ≡ (if user == v then suc (amount (is_counted v) (r ∷ rs)) else amount (is_counted v) (r ∷ rs))
head-count v user client r rs t a k =
    let none_left : amount (has_id r.id) rs ≡ 0 = ground (arith, eq_iff r.id r.id) in
    let same : update_where (has_id r.id) rebound rs ≡ rs =
      update-none (has_id r.id) rebound rs none_left in
    let c = bound_has_client user client r t in
    ground (arith, same, eq_iff r.id r.id, nat_beq_iff r.user_id user)

-- Binding the revoked session of a client again adds it to the sessions of its account.
pub rebound-count :
    (v user : ℕ) (client : String) (ss : List Session) (s : Session)
    → find (is_bound_to user client) ss ≡ some s
    → s.active ≡ false
    → amount (has_id s.id) ss ≤ 1
    → amount (is_counted v) (update_where (has_id s.id) rebound ss)
      ≡ (if user == v then suc (amount (is_counted v) ss) else amount (is_counted v) ss)
rebound-count v user client [] s e a k = cc
rebound-count v user client (r ∷ rs) s e a k = elim (Bool-cases (is_bound_to user client r)) [
  | inl t ↦
      let same : r ≡ s = some_inj r s ((rw t refl) ∙ e) in
      subst
        (λ (x : Session).
          amount (has_id x.id) (r ∷ rs) ≤ 1
          → amount (is_counted v) (update_where (has_id x.id) rebound (r ∷ rs)) ≡ (
              if user == v
              then suc (amount (is_counted v) (r ∷ rs))
              else amount (is_counted v) (r ∷ rs)))
        same (head-count v user client r rs t ((ap (λ (x : Session). x.active) same) ∙ a)) k
  | inr f ↦
      let found : find (is_bound_to user client) rs ≡ some s = (rw f refl) ∙ e in
      let more : 0 < amount (has_id s.id) rs =
        find-amount (is_bound_to user client) (has_id s.id) rs s found
          (ground (arith, eq_iff s.id s.id)) in
      ground (arith, rebound-count v user client rs s found a)
]

pub inserts :
    (left user : ℕ) (client : String) (d : Draw) (ss after : List Session) (name : String)
    → insert_session left user client d ss ≡ ok (after, name)
    → (after ≡ ss ++ (new_session user client d name ∷ []))
      × (has (collides (new_session user client d name)) ss ≡ false)
unfolding insert_session
inserts zero user client d ss after name e = cc
inserts (suc left) user client d ss after name e =
    elim (Bool-cases (has (collides (new_session user client d (d.names left))) ss)) [
      | inl t ↦ inserts left user client d ss after name ((rw t refl) ∙ e)
      | inr f ↦
          subst
            (λ (x : List Session × String).
              (x.0 ≡ ss ++ (new_session user client d x.1 ∷ []))
              × (has (collides (new_session user client d x.1)) ss ≡ false))
            (ok_inj (ss ++ (new_session user client d (d.names left) ∷ []), d.names left)
              (after, name) ((rw f refl) ∙ e))
            (refl, f)
    ]

pub collides-free :
    (new : Session) (ss : List Session)
    → has (collides new) ss ≡ false
    → amount (has_id new.id) ss ≡ 0
collides-free new [] e = refl
collides-free new (s ∷ ss) e = ground (arith, collides-free new ss)

pub inserted-Keyed :
    (new : Session) (ss : List Session)
    → has (collides new) ss ≡ false
    → Keyed ss
    → Keyed (ss ++ (new ∷ []))
inserted-Keyed new ss f k id =
    ground (
      arith,
      amount-append (has_id id) ss (new ∷ []),
      k id,
      collides-free new ss f,
      eq_iff new.id id,
    )
