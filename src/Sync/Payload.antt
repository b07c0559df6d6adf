-- ===== src/Sync/Payload.antt =====
-- src/modules/sync/services/sync.service.ts: `stripServerWinsFields`. A payload is a JSON object, whose
-- fields have distinct names; an array counts as the object of its elements by their indices, as the
-- spread makes it. A text is its key, 0 for the empty one: texts are only compared.
pub mod Stripped
use radha_backend.Prelude.{
  ℕ, String, Bool, true, false, Option, none, some, List, [], ◌∷◌, any, str_eq, if◌then◌else◌,
}

mutual
  pub data Json : Type 0 where
    null : Json
    boolean : Bool → Json
    number : ℕ → Json
    text : ℕ → Json
    object : Fields → Json

  pub data Fields : Type 0 where
    nil : Fields
    field : String → Json → Fields → Fields

-- `SERVER_WINS_FIELDS`
abbrev pub subscription_fields : List String
subscription_fields = "tier" ∷ "status" ∷ []

abbrev pub user_fields : List String
user_fields = "role" ∷ "email_verified" ∷ "emailVerified" ∷ []

-- `delete`, of several names
unfoldable pub delete_fields : List String → Fields → Fields
delete_fields names nil = nil
delete_fields names (field k v rest) =
    let rest' = delete_fields names rest in if any (str_eq k) names then rest' else field k v rest'

-- What becomes of a value where an object is cleaned.
abbrev pub clean_object : List String → Json → Json
clean_object names null = null
clean_object names (boolean b) = boolean b
clean_object names (number n) = number n
clean_object names (text t) = text t
clean_object names (object fs) = object (delete_fields names fs)

-- `cleaned[name] = …`, where the value is an object
unfoldable pub clean_nested : String → List String → Fields → Fields
clean_nested name names nil = nil
clean_nested name names (field k v rest) =
    let rest' = clean_nested name names rest in
    if str_eq k name then field k (clean_object names v) rest' else field k v rest'

-- `stripServerWinsFields`
unfoldable pub strip_server_wins : Fields → Fields
strip_server_wins fs = delete_fields user_fields (
    delete_fields subscription_fields
      (clean_nested "user" user_fields (clean_nested "subscription" subscription_fields fs)))

-- `payload[name]`
unfoldable pub get : String → Fields → Option Json
get name nil = none
get name (field k v rest) = let rest' = get name rest in if str_eq k name then some v else rest'
