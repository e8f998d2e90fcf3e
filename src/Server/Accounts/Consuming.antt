-- ===== src/Server/Accounts/Consuming.antt =====
-- An invite code registers one account.
use Prim.Native.String.{len}
use monitor_backend.Base.{
  ℕ, ◌≤◌, ◌≡◌, ◌≢◌, refl, sym, ap, subst, ◌∙◌, inl, inr, String, Bool, true, false, not, some, List,
  [], ◌∷◌, ◌==◌, string_eq, nat_eq, nat_beq_iff, arith, Bool-cases,
}
use monitor_backend.Base.Results.{Result, ok, passed, succeeded, ok_inj}
use monitor_backend.BossCycle.{find, has, update_where}
use monitor_backend.Server.{User, InviteCode, Store}
use monitor_backend.Server.Rows.{amount, some_inj, find-passes, find-amount}
use monitor_backend.Server.Teams.Ending.{found}
use monitor_backend.Server.Teams.Deleting.{found_some}
use monitor_backend.Base.Texts.{trim_space}
use monitor_backend.Server.Attempts.{true-ne-false}
use monitor_backend.Server.Accounts.{in_length, is_username, valid_nickname, valid_invite_code}
use monitor_backend.Server.Accounts.Registering.{
  Registration, Credentials, is_available, is_unused, used, new_user, consume, check_credentials,
  register_with, handle_register, normalize_invite_code,
}

abbrev pub has_code : String → InviteCode → Bool
has_code code i = i.code == code

-- The unique key of `invite_codes`.
abbrev pub OneCode : List InviteCode → Type 0
OneCode is = (code : String) → amount (has_code code) is ≤ 1

none_available :
    (code : String) (later id user now : ℕ) (xs : List InviteCode)
    → amount (has_code code) xs ≡ 0
    → has (is_available code later) (update_where (is_unused id) (used user now) xs) ≡ false
none_available code later id user now [] e = refl
none_available code later id user now (x ∷ xs) e =
    ground (arith, none_available code later id user now xs)

consumed :
    (code : String) (now later user : ℕ) (xs : List InviteCode) (i : InviteCode)
    → find (is_available code now) xs ≡ some i
    → amount (has_code code) xs ≤ 1
    → has (is_available code later) (update_where (is_unused i.id) (used user now) xs) ≡ false
consumed code now later user [] i e k = cc
consumed code now later user (x ∷ xs) i e k = elim (Bool-cases (is_available code now x)) [
  | inl t ↦
      let same : x ≡ i = some_inj x i ((rw t refl) ∙ e) in
      let id : x.id ≡ i.id = ap (λ (y : InviteCode). y.id) same in
      ground (arith, none_available code later i.id user now xs, nat_beq_iff x.id i.id)
  | inr n ↦
      let rest : find (is_available code now) xs ≡ some i = (rw n refl) ∙ e in
      let valid = find-passes (is_available code now) xs i rest in
      let more = find-amount (is_available code now) (has_code code) xs i rest (ground arith) in
      ground (arith, consumed code now later user xs i rest)
]

checked :
    (allowed : Bool) (c : Credentials) (names : String × (String × String))
    → check_credentials allowed c ≡ ok names
    → normalize_invite_code c.invite_code ≡ names.0
checked allowed c names e =
    let invite = normalize_invite_code c.invite_code in
    let username = trim_space c.username in
    let nickname = trim_space c.nickname in
    let (a1, e1) = passed (not allowed) "registration_closed" _ names e in
    let (a2, e2) = passed (not (valid_invite_code invite)) "invalid_invite_code" _ names e1 in
    let (a3, e3) = passed (not (is_username username)) "invalid_username" _ names e2 in
    let (a4, e4) = passed (not (valid_nickname nickname)) "invalid_nickname" _ names e3 in
    let (a5, e5) = passed (not (in_length 8 72 (len c.password))) "invalid_password" _ names e4 in
    ap (λ (x : String × (String × String)). x.0) (ok_inj (invite, (username, nickname)) names e5)

-- What a registration asks of the code.
asked :
    (db : Registration) (same_name : String → String → Bool) (hash : String → Result String)
    → (fresh before now : ℕ) (password : String) (st : Store)
    → (invite username nickname : String) (done : Store × ℕ)
    → register_with db same_name hash fresh before now password st (invite, (username, nickname))
      ≡ ok done
    → has (is_available invite before) st.invites ≡ true
asked db same_name hash fresh before now password st invite username nickname done e =
    let (b1, e1) = passed (not db.reads) "internal_error" _ done e in
    let (b2, e2) =
      passed (not (has (is_available invite before) st.invites)) "invalid_invite_code" _ done e1 in
    ground (arith, b2)

-- What it leaves of the code.
registered :
    (db : Registration) (same_name : String → String → Bool) (hash : String → Result String)
    → (fresh before now later : ℕ) (password : String) (st : Store)
    → (invite username nickname : String) (done : Store × ℕ) → OneCode st.invites
    → register_with db same_name hash fresh before now password st (invite, (username, nickname))
      ≡ ok done
    → has (is_available invite later) done.0.invites ≡ false
registered db same_name hash fresh before now later password st invite username nickname done one
      e =
    let (b1, e1) = passed (not db.reads) "internal_error" _ done e in
    let (b2, e2) =
      passed (not (has (is_available invite before) st.invites)) "invalid_invite_code" _ done e1 in
    let (hashed, h, e3) = succeeded (hash password) _ done e2 in
    let (b4, e4) = passed (not db.begins) "internal_error" _ done e3 in
    let (b5, e5) = passed (not db.locks) "internal_error" _ done e4 in
    let (i, f, e6) =
      succeeded (found "invalid_invite_code" (find (is_available invite now) st.invites)) _ done
        e5 in
    let (b7, e7) =
      passed (has (λ (u : User). same_name u.username username) st.users) "username_exists" _ done
        e6 in
    let (b8, e8) = passed (not db.inserts) "internal_error" _ done e7 in
    let (b9, e9) = passed (not db.consumes) "internal_error" _ done e8 in
    let (b10, e10) = passed (not db.commits) "internal_error" _ done e9 in
    let free =
      consumed invite now later fresh st.invites i
        (found_some "invalid_invite_code" (find (is_available invite now) st.invites) i f)
        (one invite) in
    subst (λ (x : Store × ℕ). has (is_available invite later) x.0.invites ≡ false)
      (ok_inj (consume fresh now i (new_user fresh username nickname hashed) st, fresh) done e10)
      free

-- Right after a code has registered an account, a request with that code registers none, at any time and
-- with whatever user name and password, where the codes of the table are different.
pub handle_register-once :
    (db db' : Registration) (same_name : String → String → Bool) (hash : String → Result String)
    → (allowed allowed' : Bool) (fresh before now fresh' before' now' : ℕ) (c c' : Credentials)
    → (st : Store) (first second : Store × ℕ) → OneCode st.invites
    → normalize_invite_code c.invite_code ≡ normalize_invite_code c'.invite_code
    → handle_register db same_name hash allowed fresh before now c st ≡ ok first
    → handle_register db' same_name hash allowed' fresh' before' now' c' first.0 ≢ ok second
unfolding handle_register
handle_register-once db db' same_name hash allowed allowed' fresh before now fresh' before' now' c
      c' st first second one same e again =
    let (n, k, r) = succeeded (check_credentials allowed c) _ first e in
    let (n', k', r') = succeeded (check_credentials allowed' c') _ second again in
    let code : n'.0 ≡ n.0 = sym (checked allowed' c' n' k') ∙ (sym same ∙ checked allowed c n k) in
    let gone : has (is_available n.0 before') first.0.invites ≡ false =
      registered db same_name hash fresh before now before' c.password st n.0 n.1.0 n.1.1 first one
        r in
    let there : has (is_available n'.0 before') first.0.invites ≡ true =
      asked db' same_name hash fresh' before' now' c'.password first.0 n'.0 n'.1.0 n'.1.1 second
        r' in
    true-ne-false (sym there ∙ (ap (λ x. has (is_available x before') first.0.invites) code ∙ gone))
