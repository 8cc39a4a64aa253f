-- ===== src/Extension/SettingsTests.antt =====
-- A secret, and the settings, at concrete values.
use duckdb_quack.Prelude.{
  List, [], ◌∷◌, Bytes, codes, none, some, ok, All, same, same_iff, lookup, insert, lookup-insert,
  if◌then◌else◌, ◌≡◌, ◌≢◌, refl, arith, inl, inr, Bool-cases,
}
use duckdb_quack.Text.Reference.{reference, reference_laws}
use duckdb_quack.Extension.Config.{
  CreateSecretInput, secret_of, create_quack_secret_from_config, set_options, Config, identify_bind,
  load_options,
}
use duckdb_quack.Extension.Secrets.{IsToken, create_quack_secret_lem}
use duckdb_quack.Extension.Settings.{ConfigLaws, given, HasDefaults, identify_bind-load_options}

abbrev secret_input : CreateSecretInput
secret_input = record {
  scope = [];
  type = codes "quack";
  provider = codes "config";
  name = codes "s";
  options = (codes "TOKEN", codes "abcd") ∷ [];
}

create_quack_secret_lem_example :
    let secret = secret_of reference secret_input ((codes "token", codes "abcd") ∷ []) in
    All (IsToken reference) secret_input.options
    × (lookup (codes "token") secret.secret_map ≡ some (codes "abcd"))
    × (secret.redact_keys ≡ codes "token" ∷ [])
    × (secret.scope ≢ [])
unfolding create_quack_secret_from_config set_options insert same lookup reference
create_quack_secret_lem_example =
    create_quack_secret_lem reference secret_input
      (secret_of reference secret_input ((codes "token", codes "abcd") ∷ [])) (codes "token") refl

-- Settings as a list, by their names in lower case.
abbrev settings : Config
settings = record {
  Settings = List (Bytes × Bytes);
  setting = λ s name. lookup (reference.lower name) s;
  set_option_by_name = λ s name value. ok (insert (reference.lower name) value s);
  add_extension_option = λ s name value.
      insert (reference.lower name) (given (lookup (reference.lower name) s) value) s;
}

put_other :
    (s s1 : List (Bytes × Bytes)) (name other value : Bytes)
    → ok (insert name value s) ≡ ok s1
    → name ≢ other
    → lookup other s1 ≡ lookup other s
put_other s s1 name other value done apart =
    ground (arith, lookup-insert name other value s, same_iff name other)

put_given :
    (s : List (Bytes × Bytes)) (name other value : Bytes)
    → lookup other (insert name (given (lookup name s) value) s)
      ≡ (if same name other then some (given (lookup other s) value) else lookup other s)
put_given s name other value =
    rw (lookup-insert name other (given (lookup name s) value) s)
      (elim (Bool-cases (same name other)) [
        | inl e ↦ rw (e, (same_iff name other).0 e) refl
        | inr e ↦ rw e refl
      ])

settings_laws : ConfigLaws reference settings
settings_laws = record {
  set_other =
      λ s s1 name value other. put_other s s1 (reference.lower name) (reference.lower other) value;
  setting_added =
      λ s name value other. put_given s (reference.lower name) (reference.lower other) value;
}

identify_bind-load_options_example :
    HasDefaults reference reference_laws settings settings_laws
      (identify_bind settings
        ((codes "name", some (codes "n")) ∷ (codes "region", none) ∷ [])
        (load_options settings (codes "5") [])).1
unfolding lookup
identify_bind-load_options_example =
    identify_bind-load_options reference reference_laws settings settings_laws (codes "5") []
      ((codes "name", some (codes "n")) ∷ (codes "region", none) ∷ []) (refl, refl, refl)
