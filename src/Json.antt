-- ===== src/Json.antt =====
-- What the backend uses of Go's encoding/json: a raw message is the value that its bytes encode,
-- and `Unmarshal` writes the members of that value over what the target held before.
use Prim.Native.String.{char_at}
use Prim.Native.Char.{Char, code}
use monitor_backend.Base.{
  ℕ, zero, suc, ◌+◌, ◌*◌, ◌/◌, ◌%◌, ◌-◌, ◌^◌, String, Bool, true, false, not, ◌&&◌, ◌||◌, Option,
  none, some, List, [], ◌∷◌, ◌++◌, leb, ltb, ◌==◌, string_eq, nat_eq, if◌then◌else◌,
}
use monitor_backend.Base.Texts.{is_lower}
use monitor_backend.Base.Int.{ℤ, pos, negsuc}

-- The number literal ± digits / 10 ^ scale. A literal with a fraction or an exponent, which an
-- integer target refuses, has `whole` false.
pub record Number : Type 0 where
  pub negative : Bool
  pub digits : ℕ
  pub scale : ℕ
  pub whole : Bool

mutual
  pub data Json : Type 0 where
    null : Json
    bool : Bool → Json
    num : Number → Json
    str : String → Json
    arr : Items → Json
    obj : Members → Json

  pub data Items : Type 0 where
    nil : Items
    cons : Json → Items → Items

  pub data Members : Type 0 where
    end : Members
    member : String → Json → Members → Members

-- A decoder takes the value and what the target holds, and gives what the target holds afterwards
-- and whether there was no error.
abbrev pub Reader : Type 0 → Type 0
Reader A = Json → A → A × Bool

abbrev pub read_string : Reader String
read_string (str s) old = (s, true)
read_string null old = (old, true)
read_string _ old = (old, false)

abbrev pub read_bool : Reader Bool
read_bool (bool b) old = (b, true)
read_bool null old = (old, true)
read_bool _ old = (old, false)

-- The powers of two that make up a number of up to 11 bits.
abbrev powers : List ℕ
powers = 1024 ∷ 512 ∷ 256 ∷ 128 ∷ 64 ∷ 32 ∷ 16 ∷ 8 ∷ 4 ∷ 2 ∷ 1 ∷ []

-- The integer logarithm to base 2, below the sum of the powers.
unfoldable pub log2 : List ℕ → ℕ → ℕ
log2 [] n = 0
log2 (k ∷ ks) n =
    let rest = log2 ks (if leb (2 ^ k) n then n / 2 ^ k else n) in
    if leb (2 ^ k) n then k + rest else rest

-- The nearest integer of a / b, and the even one of two that are as near.
abbrev pub nearest : ℕ → ℕ → ℕ
nearest a b =
    let q = a / b in let r = 2 * (a % b) in if ltb b r || (b == r && q % 2 == 1) then q + 1 else q

-- The nearest float64: 53 bits times a power of two, of which the smallest is 2 ^ -1074.
unfoldable pub round_float : Number → Number
unfolding log2
round_float n =
    let units = n.digits * 2 ^ 1074 in
    let bits = log2 powers (units / (10 ^ n.scale * 2 ^ 52)) in
    record n {
      digits = nearest units (10 ^ n.scale * 2 ^ bits) * 2 ^ bits * 5 ^ 1074;
      scale = 1074;
    }

-- The literal is a float64: rounding it does not pass the largest one.
unfoldable pub fits_float64 : Number → Bool
fits_float64 n = ltb n.digits ((2 ^ 1024 - 2 ^ 970) * 10 ^ n.scale)

unfoldable pub read_float : Reader Number
unfolding fits_float64 round_float
read_float (num n) old = if fits_float64 n then (round_float n, true) else (old, false)
read_float null old = (old, true)
read_float _ old = (old, false)

abbrev pub to_int : Number → ℤ
to_int n = if n.negative then (elim n.digits [ zero ↦ pos 0 | suc k ↦ negsuc k ]) else pos n.digits

-- The literal is an int64.
abbrev pub fits_int64 : Number → Bool
fits_int64 n = n.whole && (if n.negative then leb n.digits (2 ^ 63) else ltb n.digits (2 ^ 63))

abbrev pub read_int64 : Reader ℤ
read_int64 (num n) old = if fits_int64 n then (to_int n, true) else (old, false)
read_int64 null old = (old, true)
read_int64 _ old = (old, false)

-- A pointer target: null clears it, any other value is decoded into what it points to.
abbrev pub read_pointer : {A : Type 0} → A → Reader A → Reader (Option A)
read_pointer fresh r null old = (none, true)
read_pointer fresh r j none = let (a, fine) = r j fresh in (some a, fine)
read_pointer fresh r j (some old) = let (a, fine) = r j old in (some a, fine)

-- A slice: its elements, and those that its array still holds beyond its length.
pub record Slice (A : Type 0) : Type 0 where
  pub items : List A
  pub beyond : List A

abbrev pub empty_slice : {A : Type 0} → Slice A
empty_slice = record { items = []; beyond = [] }

-- The elements are decoded over what the array holds, and into zero values after its end.
read_items : {A : Type 0} → A → Reader A → Items → List A → Slice A × Bool
read_items fresh r nil old = (record { items = []; beyond = old }, true)
read_items fresh r (cons j js) [] =
    let (a, fine) = r j fresh in
    let (rest, fine') = read_items fresh r js [] in
    (record rest { items = a ∷ rest.items }, fine && fine')
read_items fresh r (cons j js) (held ∷ old) =
    let (a, fine) = r j held in
    let (rest, fine') = read_items fresh r js old in
    (record rest { items = a ∷ rest.items }, fine && fine')

unfoldable pub read_slice : {A : Type 0} → A → Reader A → Reader (Slice A)
unfolding read_items
read_slice fresh r (arr nil) old = (empty_slice, true)
read_slice fresh r (arr (cons j js)) old = read_items fresh r (cons j js) (old.items ++ old.beyond)
read_slice fresh r null old = (empty_slice, true)
read_slice fresh r _ old = (old, false)

-- The name of a field stands for every spelling that folds to the same: letter case does not matter, and
-- U+017F and U+212A are an S and a K.
abbrev fold_char : Char → Char
fold_char c =
    if is_lower c
    then char_at "ABCDEFGHIJKLMNOPQRSTUVWXYZ" (code c - 97)
    else if code c == 383
    then "S"
    else if code c == 8490
    then "K"
    else c

unfoldable pub fold_name : String → String
fold_name String.[] = ""
fold_name (String.◌∷◌ c s) = String.◌∷◌ (fold_char c) (fold_name s)

unfoldable pub names : String → String → Bool
unfolding fold_name
names key field = fold_name key == fold_name field

-- Members are read in order into the target; an error in one does not stop the others.
unfoldable pub read_members : {A : Type 0} → (String → Reader A) → Members → A → A × Bool
read_members field end old = (old, true)
read_members field (member key j ms) old =
    let (a, fine) = field key j old in
    let (b, fine') = read_members field ms a in (b, fine && fine')

-- A struct target, given how each key is read.
unfoldable pub read_struct : {A : Type 0} → (String → Reader A) → Reader A
unfolding read_members
read_struct field (obj ms) old = read_members field ms old
read_struct field null old = (old, true)
read_struct field _ old = (old, false)

-- The literal is a uint64.
abbrev pub read_uint64 : Reader ℕ
read_uint64 (num n) old =
    if n.whole && not n.negative && ltb n.digits (2 ^ 64) then (n.digits, true) else (old, false)
read_uint64 null old = (old, true)
read_uint64 _ old = (old, false)

-- A `json.RawMessage` target keeps the value, null too; `none` is the empty message.
abbrev pub read_raw : Reader (Option Json)
read_raw j old = (some j, true)

-- `json.Unmarshal` of a raw message over what the target holds. The empty message is an error.
abbrev pub unmarshal_into : {A : Type 0} → Reader A → Option Json → A → A × Bool
unmarshal_into r none old = (old, false)
unmarshal_into r (some j) old = r j old

abbrev checked : {A : Type 0} → A × Bool → Option A
checked (a, true) = some a
checked (a, false) = none

-- `json.Unmarshal` into a zero value, where only a success is used.
abbrev pub unmarshal : {A : Type 0} → A → Reader A → Option Json → Option A
unmarshal fresh r raw = checked (unmarshal_into r raw fresh)
