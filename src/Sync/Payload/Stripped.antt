-- ===== src/Sync/Payload/Stripped.antt =====
-- src/modules/sync/services/sync.service.ts: what a stripped payload holds.
use radha_backend.Prelude.{
  String, ◌≡◌, refl, ap, ◌∙◌, Bool, true, false, Option, none, some, List, inl, inr, Bool-cases,
  any, str_eq, str_eq_iff, if◌then◌else◌, ◌||◌,
}
use radha_backend.Prelude.Table.Laws.{map_option}
use radha_backend.Sync.Payload.{
  Json, null, boolean, number, text, object, Fields, nil, field, subscription_fields, user_fields,
  delete_fields, clean_object, clean_nested, strip_server_wins, get,
}

-- The name is one of those that the server decides on.
abbrev pub is_protected : String → Bool
is_protected name = any (str_eq name) subscription_fields || any (str_eq name) user_fields

get-delete_fields :
    (name : String) (names : List String) (fs : Fields)
    → get name (delete_fields names fs) ≡ (if any (str_eq name) names then none else get name fs)
unfolding get delete_fields
get-delete_fields name names nil = elim (Bool-cases (any (str_eq name) names)) [
  | inl e ↦ rw e refl
  | inr e ↦ rw e refl
]
get-delete_fields name names (field k v rest) =
    let later = get-delete_fields name names rest in
    elim (Bool-cases (str_eq k name)) [
      | inl here ↦
          let this = (str_eq_iff k name).0 here in
          elim (Bool-cases (any (str_eq name) names)) [
            | inl gone ↦ rw (this, gone) (rw gone at later)
            | inr kept ↦ rw (this, kept) (rw ((str_eq_iff name name).1 refl) refl)
          ]
      | inr there ↦ elim (Bool-cases (any (str_eq k) names)) [
        | inl gone ↦ rw (gone, there) later
        | inr kept ↦ rw (kept, there) later
      ]
    ]

get-clean_nested :
    (name at_name : String) (names : List String) (fs : Fields)
    → get name (clean_nested at_name names fs)
      ≡ (if str_eq name at_name then map_option (clean_object names) (get name fs) else get name fs)
unfolding get clean_nested
get-clean_nested name at_name names nil = elim (Bool-cases (str_eq name at_name)) [
  | inl e ↦ rw e refl
  | inr e ↦ rw e refl
]
get-clean_nested name at_name names (field k v rest) =
    let later = get-clean_nested name at_name names rest in
    elim (Bool-cases (str_eq k name)) [
      | inl here ↦
          let this = (str_eq_iff k name).0 here in
          elim (Bool-cases (str_eq name at_name)) [
            | inl hit ↦ rw (this, hit) (rw ((str_eq_iff name name).1 refl) refl)
            | inr miss ↦ rw (this, miss) (rw ((str_eq_iff name name).1 refl) refl)
          ]
      | inr there ↦ elim (Bool-cases (str_eq k at_name)) [
        | inl hit ↦ rw (hit, there) later
        | inr miss ↦ rw (miss, there) later
      ]
    ]

if_same : (b : Bool) (o : Option Json) → o ≡ (if b then o else o)
if_same true o = refl
if_same false o = refl

-- A field of the object that a value is.
abbrev pub get_inner : String → Option Json → Option Json
get_inner name none = none
get_inner name (some null) = none
get_inner name (some (boolean b)) = none
get_inner name (some (number n)) = none
get_inner name (some (text t)) = none
get_inner name (some (object fs)) = get name fs

get_inner-clean :
    (name : String) (names : List String) (o : Option Json)
    → get_inner name (map_option (clean_object names) o)
      ≡ (if any (str_eq name) names then none else get_inner name o)
get_inner-clean name names none = if_same (any (str_eq name) names) none
get_inner-clean name names (some null) = if_same (any (str_eq name) names) none
get_inner-clean name names (some (boolean b)) = if_same (any (str_eq name) names) none
get_inner-clean name names (some (number n)) = if_same (any (str_eq name) names) none
get_inner-clean name names (some (text t)) = if_same (any (str_eq name) names) none
get_inner-clean name names (some (object fs)) = get-delete_fields name names fs

-- What a stripped payload holds under a name.
abbrev pub stripped : String → Option Json → Option Json
stripped name o =
    if is_protected name
    then none
    else if str_eq name "user"
    then map_option (clean_object user_fields) o
    else if str_eq name "subscription"
    then map_option (clean_object subscription_fields) o
    else o

nested_both :
    (name : String) (o : Option Json)
    → (let inner =
          if str_eq name "subscription"
          then map_option (clean_object subscription_fields) o
          else o in
        if str_eq name "user" then map_option (clean_object user_fields) inner else inner)
      ≡ (if str_eq name "user"
          then map_option (clean_object user_fields) o
          else if str_eq name "subscription"
          then map_option (clean_object subscription_fields) o
          else o)
nested_both name o = elim (Bool-cases (str_eq name "user")) [
  | inl hit ↦ rw ((str_eq_iff name "user").0 hit) refl
  | inr miss ↦ rw miss refl
]

protected_both :
    (s u : Bool) (o : Option Json)
    → (if u then none else if s then none else o) ≡ (if s || u then none else o)
protected_both true true o = refl
protected_both true false o = refl
protected_both false true o = refl
protected_both false false o = refl

strip_server_wins-stripped :
    (fs : Fields) (name : String) → get name (strip_server_wins fs) ≡ stripped name (get name fs)
unfolding strip_server_wins
strip_server_wins-stripped fs name =
    let once = clean_nested "subscription" subscription_fields fs in
    let twice = clean_nested "user" user_fields once in
    let inner =
      get-clean_nested name "user" user_fields once
      ∙ ap (λ o. if str_eq name "user" then map_option (clean_object user_fields) o else o)
          (get-clean_nested name "subscription" subscription_fields fs)
      ∙ nested_both name (get name fs) in
    get-delete_fields name user_fields (delete_fields subscription_fields twice)
    ∙ ap (λ o. if any (str_eq name) user_fields then none else o)
        (get-delete_fields name subscription_fields twice
          ∙ ap (λ o. if any (str_eq name) subscription_fields then none else o) inner)
    ∙ protected_both (any (str_eq name) subscription_fields) (any (str_eq name) user_fields) _

-- A stripped payload holds no field that the server decides on, neither at the top nor in its `user`
-- or its `subscription`, whatever the client sent; it holds every other field at the top as it was
-- sent, and every other field in those two objects.
pub strip_server_wins-keeps_rest :
    (fs : Fields) (name : String)
    → (get name (strip_server_wins fs) ≡ stripped name (get name fs))
      × (get_inner name (get "user" (strip_server_wins fs))
          ≡ (if any (str_eq name) user_fields then none else get_inner name (get "user" fs)))
      × (get_inner name (get "subscription" (strip_server_wins fs)) ≡ (
          if any (str_eq name) subscription_fields
          then none
          else get_inner name (get "subscription" fs)))
strip_server_wins-keeps_rest fs name = (
  strip_server_wins-stripped fs name,
  ap (get_inner name) (strip_server_wins-stripped fs "user")
      ∙ get_inner-clean name user_fields (get "user" fs),
  ap (get_inner name) (strip_server_wins-stripped fs "subscription")
      ∙ get_inner-clean name subscription_fields (get "subscription" fs),
)
