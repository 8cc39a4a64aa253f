-- ===== src/Extension/Secrets.antt =====
-- What a secret holds.
use duckdb_quack.Prelude.{
  Bool, true, false, List, [], ◌∷◌, Bytes, codes, Option, none, some, ok, err, invalid_input, same,
  lookup, insert, lookup-insert, if◌then◌else◌, >>=-eq-ok, All, ◌≡◌, ◌≢◌, refl, sym, ap, ◌∙◌, subst,
  inl, inr, Bool-cases,
}
use duckdb_quack.Text.StringUtil.{StringUtil}
use duckdb_quack.Extension.Config.{
  CreateSecretInput, KeyValueSecret, set_options, secret_of, create_quack_secret_from_config,
  scope_or_default,
}

ok-injective : {A : Type 0} {a b : A} → ok a ≡ ok b → a ≡ b
ok-injective h = cc

module _ (u : StringUtil) where
  abbrev pub IsToken : Bytes × Bytes → Type 0
  IsToken option = same (u.lower option.0) (codes "token") ≡ true

  -- The value of the last option, or the one from before.
  abbrev pub last_value : List (Bytes × Bytes) → Option Bytes → Option Bytes
  last_value [] before = before
  last_value ((name, value) ∷ options) before = last_value options (some value)

  abbrev token_key : Bytes
  token_key = codes "token"

  -- A lookup after a token has been put in.
  looked_up :
      (options m : List (Bytes × Bytes)) (value key : Bytes)
      → (if same token_key key
          then last_value options (lookup key (insert token_key value m))
          else lookup key (insert token_key value m))
        ≡ (if same token_key key then last_value options (some value) else lookup key m)
  looked_up options m value key =
      rw (lookup-insert token_key key value m) (tested (same token_key key))
    where
      tested :
          (b : Bool)
          → (if b
              then last_value options (if b then some value else lookup key m)
              else (if b then some value else lookup key m))
            ≡ (if b then last_value options (some value) else lookup key m)
      tested true = refl
      tested false = refl

  set_options_lem :
      (options m m1 : List (Bytes × Bytes)) (key : Bytes)
      → set_options u options m ≡ ok m1
      → All IsToken options
        × (lookup key m1
            ≡ (if same token_key key then last_value options (lookup key m) else lookup key m))
  unfolding set_options
  set_options_lem [] m m1 key done = (
    tt,
    elim (Bool-cases (same token_key key)) [
      | inl e ↦ rw e (ap (lookup key) (ok-injective (sym done)))
      | inr e ↦ rw e (ap (lookup key) (ok-injective (sym done)))
    ],
  )
  set_options_lem ((name, value) ∷ options) m m1 key done =
      go (same (u.lower name) token_key) refl
        (set_options_lem options (insert token_key value m) m1 key) done
    where
      go :
          (b : Bool)
          → same (u.lower name) token_key ≡ b
          → (set_options u options (insert token_key value m) ≡ ok m1
              → All IsToken options
                × (lookup key m1 ≡ (
                    if same token_key key
                    then last_value options (lookup key (insert token_key value m))
                    else lookup key (insert token_key value m))))
          → (if b
              then set_options u options (insert token_key value m)
              else err (
                  invalid_input "Unknown named parameter for quack secret: %s" (u.lower name ∷ [])))
            ≡ ok m1
          → (IsToken (name, value) × All IsToken options)
            × (lookup key m1
                ≡ (if same token_key key then last_value options (some value) else lookup key m))
      go false e again h = cc
      go true e again h =
          let (tokens, at) = again h in ((e, tokens), at ∙ looked_up options m value key)

  scope-ne-nil : (scope : List Bytes) → scope_or_default scope ≢ []
  scope-ne-nil [] h = cc
  scope-ne-nil (s ∷ scope) h = cc

  -- If a secret is created, then each of its options is called token in lower case, the map of
  -- the secret holds the last value of an option under the key token and nothing under any other
  -- key, token is the one key that is redacted, and the scope is not empty.
  pub create_quack_secret_lem :
      (input : CreateSecretInput) (secret : KeyValueSecret) (key : Bytes)
      → create_quack_secret_from_config u input ≡ ok secret
      → All IsToken input.options
        × (lookup key secret.secret_map
            ≡ (if same token_key key then last_value input.options none else none))
        × (secret.redact_keys ≡ token_key ∷ [])
        × (secret.scope ≢ [])
  unfolding create_quack_secret_from_config lookup
  create_quack_secret_lem input secret key done =
      let (m, made, is_secret) =
        >>=-eq-ok (set_options u input.options []) (λ m. ok (secret_of u input m)) done in
      let e : secret_of u input m ≡ secret = ok-injective is_secret in
      let (tokens, at) = set_options_lem input.options [] m key made in
      (
        tokens,
        ap (λ (s : KeyValueSecret). lookup key s.secret_map) (sym e) ∙ at,
        ap (λ (s : KeyValueSecret). s.redact_keys) (sym e),
        subst (λ (s : KeyValueSecret). s.scope ≢ []) e (scope-ne-nil input.scope),
      )
