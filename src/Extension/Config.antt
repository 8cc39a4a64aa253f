-- ===== src/Extension/Config.antt =====
-- Secrets, settings and `quack_identify` of src/quack_extension.cpp.
use duckdb_quack.Prelude.{
  List, [], ◌∷◌, ◌++◌, Bytes, codes, Option, none, some, Result, ok, err, invalid_input, same,
  insert, if◌then◌else◌, ◌>>=◌,
}
use duckdb_quack.Text.StringUtil.{StringUtil}

-- `CreateSecretInput`, whose options are given by their texts, and `KeyValueSecret`.
pub record CreateSecretInput : Type 0 where
  pub scope : List Bytes
  pub type : Bytes
  pub provider : Bytes
  pub name : Bytes
  pub options : List (Bytes × Bytes)

pub record KeyValueSecret : Type 0 where
  pub scope : List Bytes
  pub type : Bytes
  pub provider : Bytes
  pub name : Bytes
  pub secret_map : List (Bytes × Bytes)
  pub redact_keys : List Bytes

abbrev pub scope_or_default : List Bytes → List Bytes
scope_or_default [] = codes "quack:" ∷ []
scope_or_default (s ∷ scope) = s ∷ scope

module _ (u : StringUtil) where
  -- The loop over the options.
  unfoldable pub set_options :
      List (Bytes × Bytes) → List (Bytes × Bytes) → Result (List (Bytes × Bytes))
  unfolding same insert
  set_options [] secret_map = ok secret_map
  set_options ((name, value) ∷ options) secret_map =
      let rest = set_options options (insert (codes "token") value secret_map) in
      if same (u.lower name) (codes "token")
      then rest
      else err (invalid_input "Unknown named parameter for quack secret: %s" (u.lower name ∷ []))

  abbrev pub secret_of : CreateSecretInput → List (Bytes × Bytes) → KeyValueSecret
  secret_of input secret_map = record {
    scope = scope_or_default input.scope;
    type = input.type;
    provider = input.provider;
    name = input.name;
    secret_map = secret_map;
    redact_keys = codes "token" ∷ [];
  }

  -- `CreateQuackSecretFromConfig`
  unfoldable pub create_quack_secret_from_config : CreateSecretInput → Result KeyValueSecret
  unfolding set_options
  create_quack_secret_from_config input =
      set_options input.options [] >>= λ secret_map. ok (secret_of input secret_map)

-- `DBConfig`: the value of a setting, `SetOptionByName` and `AddExtensionOption`.
pub record Config : Type 1 where
  pub Settings : Type 0
  pub setting : Settings → Bytes → Option Bytes
  pub set_option_by_name : Settings → Bytes → Bytes → Result Settings
  pub add_extension_option : Settings → Bytes → Bytes → Settings

-- The settings that `LoadInternal` adds, with their defaults; `loaded_at` is the time of the load.
unfoldable pub extension_options : Bytes → List (Bytes × Bytes)
extension_options loaded_at =
    (codes "quack_authentication_function", codes "quack_check_token")
    ∷ (codes "quack_authorization_function", codes "quack_nop_authorization")
    ∷ (codes "quack_fetch_batch_chunks", codes "12")
    ∷ (codes "quack_loaded_at_us", loaded_at)
    ∷ (codes "whoami_name", [])
    ∷ (codes "whoami_provider", [])
    ∷ (codes "whoami_hostname", [])
    ∷ (codes "whoami_region", [])
    ∷ (codes "whoami_started_at", [])
    ∷ (codes "whoami_meta", codes "{}")
    ∷ []

module _ (k : Config) where
  -- `QuackIdentifyBind`, by the named parameters, where `none` is NULL.
  unfoldable pub identify_bind :
      List (Bytes × Option Bytes) → k.Settings → Result (Unit {0}) × k.Settings
  identify_bind [] s = (ok tt, s)
  identify_bind ((name, none) ∷ parameters) s = identify_bind parameters s
  identify_bind ((name, some value) ∷ parameters) s =
      elim (k.set_option_by_name s (codes "whoami_" ++ name) value) [
        | err x ↦ (err x, s)
        | ok s1 ↦ identify_bind parameters s1
      ]

  unfoldable pub add_options : List (Bytes × Bytes) → k.Settings → k.Settings
  add_options [] s = s
  add_options ((name, default) ∷ options) s =
      add_options options (k.add_extension_option s name default)

  unfoldable pub load_options : Bytes → k.Settings → k.Settings
  unfolding add_options extension_options
  load_options loaded_at s = add_options (extension_options loaded_at) s
