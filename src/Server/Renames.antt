-- ===== src/Server/Renames.antt =====
-- A role name that is saved twice.
use monitor_backend.Base.{
  ℕ, ◌≡◌, refl, subst, String, Bool, true, false, not, ◌||◌, List, string_eq, nat_eq, eq_iff, arith,
}
use monitor_backend.Base.Results.{Result, ok, err, ◌>>◌, refuse_if, passed, ok_inj}
use monitor_backend.Base.Texts.{trim_space}
use monitor_backend.BossCycle.{has, update_where}
use monitor_backend.Server.{Session, Store, valid_role_name, bad_client_id}
use monitor_backend.Server.Rows.{has-update_none}
use monitor_backend.Server.Clients.{is_renamed, renamed, handle_save_client_role_name}

renamed_again :
    (user : ℕ) (client name : String) (ss : List Session)
    → has
        (is_renamed user client name)
        (update_where (is_renamed user client name) (renamed name) ss)
      ≡ false
renamed_again user client name ss =
    has-update_none (is_renamed user client name) (renamed name) ss
      (λ s. ground (arith, eq_iff name name))

refused_third {ℓ} :
    {A : Type ℓ} (a b : Bool) (one two three : String) (r : Result A)
    → a ≡ false
    → b ≡ false
    → refuse_if a one >> (refuse_if false two >> (refuse_if (not b) three >> r)) ≡ err three
refused_third true b one two three r e f = cc
refused_third false true one two three r e f = cc
refused_third false false one two three r e f = refl

-- A role name that was saved for a client is refused when it is saved again: the answer is that the
-- client is not found, because the update changes no row.
pub handle_save_client_role_name-again :
    (user : ℕ) (client name : String) (st after : Store)
    → handle_save_client_role_name true user client name st ≡ ok after
    → handle_save_client_role_name true user client name after ≡ err "client_not_found"
unfolding handle_save_client_role_name
handle_save_client_role_name-again user client name st after e =
    let c = trim_space client in
    let n = trim_space name in
    let (valid, e1) =
      passed (bad_client_id c || not (valid_role_name n)) "invalid_role_name" _ after e in
    let (b, e2) =
      passed (not (has (is_renamed user c n) st.sessions)) "client_not_found" _ after e1 in
    let n1 : has (is_renamed user c n) after.sessions ≡ false =
      subst (λ (x : Store). has (is_renamed user c n) x.sessions ≡ false) (ok_inj _ after e2)
        (renamed_again user c n st.sessions) in
    refused_third _ _ "invalid_role_name" "internal_error" "client_not_found" _ valid n1
