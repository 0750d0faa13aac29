-- ===== src/Json.antt =====
-- serde_json values, as sigmacatch/src/types.rs and the collectors of sigmacatch/src/inputs build
-- and read them. Objects keep the order of insertion (the feature `preserve_order`); the only
-- numbers are integers: `number n`, and `negative n` for `-n` with a positive `n`.
use sigmacatch.Prelude.{
  Bool, List, Option, String, [], arith, eq_iff, if◌then◌else◌, none, refl, some, str_eq, ℕ, ◌∷◌,
  ◌≡◌,
}

mutual
  pub data Json : Type 0 where
    null : Json
    boolean : Bool → Json
    number : ℕ → Json
    negative : ℕ → Json
    string : String → Json
    array : Items → Json
    object : Fields → Json

  pub data Items : Type 0 where
    nil : Items
    cons : Json → Items → Items

  pub data Fields : Type 0 where
    end : Fields
    field : String → Json → Fields → Fields

-- `Map::get`
unfoldable pub get : String → Fields → Option Json
get k end = none
get k (field j v fs) = if str_eq j k then some v else get k fs

-- `Map::insert`: a key that is there keeps its place.
unfoldable pub insert : String → Json → Fields → Fields
insert k v end = field k v end
insert k v (field j w fs) =
    let rest = insert k v fs in if str_eq j k then field j v fs else field j w rest

pub get-insert :
    (k j : String) (v : Json) (fs : Fields)
    → get j (insert k v fs) ≡ (if str_eq k j then some v else get j fs)
unfolding get insert
get-insert k j v end = refl
get-insert k j v (field i w fs) =
    ground (arith, eq_iff k j, eq_iff i k, eq_iff i j, get-insert k j v fs)

-- `Value::get` of a key: `None` but on an object.
unfoldable pub get_key : String → Json → Option Json
unfolding get
get_key k (object fs) = get k fs
get_key k null = none
get_key k _ = none

-- `Value::as_str`
unfoldable pub as_str : Json → Option String
as_str (string s) = some s
as_str null = none
as_str _ = none

infixl 5 ◌>>=◌
abbrev pub ◌>>=◌ {ℓ κ} : {A : Type ℓ} {B : Type κ} → Option A → (A → Option B) → Option B
none >>= k = none
some a >>= k = k a

-- A chain of `get`s.
unfoldable pub get_path : List String → Json → Option Json
unfolding get_key
get_path [] v = some v
get_path (k ∷ ks) v = get_key k v >>= get_path ks
