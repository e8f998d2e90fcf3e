-- ===== src/Server.antt =====
-- internal/api: the rows that the handlers of server.go, clients.go, admin.go and invite_codes.go
-- read and write, and the checks and queries that they share. A handler answers with its result or with
-- the error code of its response; a row that a query gives is the first that passes.
pub mod Rows
pub mod Sessions
pub mod Clients
pub mod Counts
pub mod Attempts
pub mod Renames
pub mod Limits
pub mod Rebinding
pub mod Teams
pub mod Accounts
pub mod Joins
pub mod Receipts
pub mod Progress
pub mod Handover
pub mod Versions
pub mod Policies
mod Samples
mod Tests
mod TeamTests
mod AccountTests
mod VersionTests
use Prim.Native.String.{len, count}
use Prim.Native.Char.{Char, code}
use monitor_backend.Base.{
  ℕ, String, Bool, true, false, not, ◌&&◌, ◌||◌, Option, none, some, List, [], ◌∷◌, ◌==◌, string_eq,
  nat_eq, if◌then◌else◌, keep, length, ltb, is_some,
}
use monitor_backend.Base.Results.{Result, ok, err}
use monitor_backend.Base.Texts.{every, is_digit, is_upper, is_lower}
use monitor_backend.Hub.{Hub}
use monitor_backend.BossCycle.{World, find, has, update_where}

-- `users`. The flags are 0 or 1 in the table.
pub record User : Type 0 where
  pub id : ℕ
  pub username : String
  pub nickname : String
  pub password_hash : String
  pub active : Bool
  pub is_super_admin : Bool
  pub max_client_count : ℕ
  pub dead : Bool
  pub live : Bool
  pub temple : Bool
  pub follow_heal : Bool
  pub monitor : Bool

-- `monitor_sessions`: the clients of an account. A revoked one is kept with `active` false.
pub record Session : Type 0 where
  pub id : String
  pub user_id : ℕ
  pub client_id : Option String
  pub name : String
  pub role_name : String
  pub mode : String
  pub running : Bool
  pub active : Bool
  pub created_at : ℕ
  pub last_publish_at : Option ℕ

-- `invite_codes`.
pub record InviteCode : Type 0 where
  pub id : ℕ
  pub code : String
  pub created_by : ℕ
  pub used_by : Option ℕ
  pub expires_at : ℕ
  pub used_at : Option ℕ

-- The tables and the hub. `receipts` are the rows of `rope_join_receipts`.
pub record Store : Type 0 where
  pub users : List User
  pub invites : List InviteCode
  pub sessions : List Session
  pub receipts : List (String × String)
  pub world : World

abbrev pub with_hub : Hub → Store → Store
with_hub h s = record s { world = record s.world { hub = h } }

-- `client_id = ?`, which no NULL passes.
abbrev pub equals : String → Option String → Bool
equals client none = false
equals client (some c) = c == client

abbrev pub is_client : String → Session → Bool
is_client client s = equals client s.client_id

-- `WHERE user_id = ? AND client_id = ?`.
abbrev pub is_bound_to : ℕ → String → Session → Bool
is_bound_to user client s = s.user_id == user && is_client client s

-- `WHERE user_id = ? AND status = 1 AND client_id IS NOT NULL`.
abbrev pub is_counted : ℕ → Session → Bool
is_counted user s = s.user_id == user && (s.active && is_some s.client_id)

-- `WHERE id = ?`.
abbrev pub has_id : String → Session → Bool
has_id id s = s.id == id

-- `WHERE id = ? AND user_id = ? AND status = 1`.
abbrev pub is_active_of : ℕ → String → Session → Bool
is_active_of user id s = s.id == id && (s.user_id == user && s.active)

unfoldable pub client_count : ℕ → List Session → ℕ
client_count user ss = length (keep (is_counted user) ss)

-- A control character below U+0020, or U+007F.
abbrev pub is_plain : Char → Bool
is_plain c = not (ltb (code c) 32) && not (code c == 127)

-- The length is in characters.
unfoldable pub valid_role_name : String → Bool
unfolding every
valid_role_name value = not (count value == 0 || ltb 24 (count value)) && every is_plain value

-- `len(id) < 8 || len(id) > 64`, in bytes.
abbrev pub bad_client_id : String → Bool
bad_client_id id = ltb (len id) 8 || ltb 64 (len id)

-- Ordered rows, by insertion: `before x y` is whether the order puts `x` strictly first.
unfoldable pub insert_ordered {ℓ} : {A : Type ℓ} → (A → A → Bool) → A → List A → List A
insert_ordered before x [] = x ∷ []
insert_ordered before x (y ∷ ys) =
    let rest = insert_ordered before x ys in if before y x then y ∷ rest else x ∷ y ∷ ys

unfoldable pub order_by {ℓ} : {A : Type ℓ} → (A → A → Bool) → List A → List A
unfolding insert_ordered
order_by before [] = []
order_by before (x ∷ xs) = insert_ordered before x (order_by before xs)
