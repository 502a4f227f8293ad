-- ===== src/TokenPolicy/Yaml.antt =====
-- What `yaml.safe_load` gives of a workflow: values, by the classes that
-- .github/scripts/check_runner_token_policy.py tells apart.
use fvdb_core.Prelude.{◌≡◌, Bool, true, false, ◌||◌, if◌then◌else◌, ◌⊎◌}
use fvdb_core.DataRepo.Text.{Text, codes, same, contains_text}

-- `TOKEN_NAME`
abbrev pub token_name : Text
token_name = codes "EC2_RUNNER_TOKEN"

-- A key: a text, the boolean that YAML makes of a bare `on` or the number that equals it, or any other scalar.
pub data Key : Type 0 where
  named : Text → Key
  true_key other_key : Key

-- `null` stands for every scalar that Python takes for false, but the empty text. The tags of YAML that
-- give sets, bytes or lists of pairs, and values that stand in
-- two places by an alias, are left out.
mutual
  pub data Value : Type 0 where
    null other_scalar : Value
    text : Text → Value
    sequence : Values → Value
    mapping : Fields → Value

  pub data Values : Type 0 where
    nil : Values
    cons : Value → Values → Values

  pub data Fields : Type 0 where
    end : Fields
    field : Key → Value → Fields → Fields

abbrev pub has_name : Key → Text → Bool
has_name (named k) name = same k name
has_name true_key name = false
has_name other_key name = false

abbrev pub is_true_key : Key → Bool
is_true_key true_key = true
is_true_key _ = false

-- `d.get(name)`; `null` where there is none.
unfoldable pub get : Text → Fields → Value
get name end = null
get name (field k v fs) = if has_name k name then v else get name fs

unfoldable pub get_true : Fields → Value
get_true end = null
get_true (field k v fs) = if is_true_key k then v else get_true fs

unfoldable pub has_key : Text → Fields → Bool
has_key name end = false
has_key name (field k v fs) = has_name k name || has_key name fs

unfoldable pub without : Text → Fields → Fields
without name end = end
without name (field k v fs) =
    if has_name k name then without name fs else field k v (without name fs)

-- `d[name] = v`, where `d` has the name.
unfoldable pub update : Text → Value → Fields → Fields
update name w end = end
update name w (field k v fs) =
    if has_name k name then field k w fs else field k v (update name w fs)

unfoldable pub update_true : Value → Fields → Fields
update_true w end = end
update_true w (field k v fs) = if is_true_key k then field k w fs else field k v (update_true w fs)

abbrev pub key_mentions : Key → Bool
key_mentions (named k) = contains_text k token_name
key_mentions true_key = false
key_mentions other_key = false

-- The token's name stands in a text or in a key of the value.
abbrev mutual
  pub Occurs : Value → Type 0
  Occurs null = ⊥
  Occurs other_scalar = ⊥
  Occurs (text t) = contains_text t token_name ≡ true
  Occurs (sequence vs) = OccursIn vs
  Occurs (mapping fs) = OccursAmong fs

  pub OccursIn : Values → Type 0
  OccursIn nil = ⊥
  OccursIn (cons v vs) = Occurs v ⊎ OccursIn vs

  pub OccursAmong : Fields → Type 0
  OccursAmong end = ⊥
  OccursAmong (field k v fs) = (key_mentions k ≡ true) ⊎ (Occurs v ⊎ OccursAmong fs)

-- What `yaml.safe_load` gives: the value, as a tree, and what the removal of the token's declaration from it
-- does to the rest of the document. Where an alias of the YAML text stands for the mapping of the
-- declaration, that mapping is one object at both places and is changed at both.
pub record Loaded : Type 0 where
  pub value : Value
  pub alias : Fields → Fields

-- `_mentions_token` tests whether `yaml.safe_dump(value)` holds the token's name. The library writes out
-- every key and every text, and the name has no character that it escapes or breaks a line at.
pub record Dump : Type 0 where
  pub mentions : Value → Bool
  pub mentions_all : (v : Value) → Occurs v → mentions v ≡ true
