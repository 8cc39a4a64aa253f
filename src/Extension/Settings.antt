-- ===== src/Extension/Settings.antt =====
-- What the settings are after loading and after `quack_identify`.
use duckdb_quack.Prelude.{
  ℕ, false, List, [], ◌∷◌, ◌++◌, Bytes, codes, Option, none, some, Result, ok, err, same,
  if◌then◌else◌, All, ◌≡◌, ◌≢◌, refl, sym, ap, ◌∙◌, arith,
}
use duckdb_quack.Text.StringUtil.{StringUtil, StringUtilLaws, is_upper}
use duckdb_quack.Extension.Config.{
  Config, identify_bind, extension_options, add_options, load_options,
}

abbrev pub given : Option Bytes → Bytes → Bytes
given none default = default
given (some value) default = value

-- A new option has its default, unless a value was given to it before it was known.
-- Settings are found without regard to case, and setting one leaves those of another name.
pub record ConfigLaws (u : StringUtil) (k : Config) : Type 0 where
  pub set_other :
      (s s1 : k.Settings) (name value other : Bytes)
      → k.set_option_by_name s name value ≡ ok s1
      → u.lower name ≢ u.lower other
      → k.setting s1 other ≡ k.setting s other
  pub setting_added :
      (s : k.Settings) (name value other : Bytes)
      → k.setting (k.add_extension_option s name value) other ≡ (
          if same (u.lower name) (u.lower other)
          then some (given (k.setting s other) value)
          else k.setting s other)

module _ (u : StringUtil) (k : Config) (laws : ConfigLaws u k) where
  abbrev identified :
      List (Bytes × Option Bytes) → k.Settings → Result k.Settings → Result (Unit {0}) × k.Settings
  identified parameters s a = elim a [ err x ↦ (err x, s) | ok s1 ↦ identify_bind k parameters s1 ]

  -- `quack_identify` keeps a setting whose name is not one of its own in lower case.
  identify_keeps :
      (parameters : List (Bytes × Option Bytes)) (s : k.Settings) (other : Bytes)
      → ((name : Bytes) → u.lower (codes "whoami_" ++ name) ≢ u.lower other)
      → k.setting (identify_bind k parameters s).1 other ≡ k.setting s other
  unfolding identify_bind
  identify_keeps [] s other apart = refl
  identify_keeps ((name, none) ∷ parameters) s other apart = identify_keeps parameters s other apart
  identify_keeps ((name, some value) ∷ parameters) s other apart =
      go (k.set_option_by_name s (codes "whoami_" ++ name) value) refl
        (λ s1. identify_keeps parameters s1 other apart)
    where
      go :
          (a : Result k.Settings)
          → k.set_option_by_name s (codes "whoami_" ++ name) value ≡ a
          → ((s1 : k.Settings)
              → k.setting (identify_bind k parameters s1).1 other ≡ k.setting s1 other)
          → k.setting (identified parameters s a).1 other ≡ k.setting s other
      go (err x) e again = refl
      go (ok s1) e again = again s1 ∙ laws.set_other s s1 _ value other e (apart name)

-- No capitals.
abbrev pub IsPlain : Bytes → Type 0
IsPlain = All (λ c. is_upper c ≡ false)

module _ (u : StringUtil) (ulaws : StringUtilLaws u) (k : Config) (laws : ConfigLaws u k) where
  -- The value of a setting after the options have been added.
  abbrev added : List (Bytes × Bytes) → Bytes → Option Bytes → Option Bytes
  added [] key before = before
  added ((name, default) ∷ options) key before =
      added options key (if same name key then some (given before default) else before)

  add_options_lem :
      (options : List (Bytes × Bytes)) (s : k.Settings) (key : Bytes)
      → All (λ o. IsPlain o.0) options
      → IsPlain key
      → k.setting (add_options k options s) key ≡ added options key (k.setting s key)
  unfolding add_options
  add_options_lem [] s key plains plain = refl
  add_options_lem ((name, default) ∷ options) s key (named, plains) plain =
      add_options_lem options (k.add_extension_option s name default) key plains plain
      ∙ ap (added options key) (
          laws.setting_added s name default key
          ∙ rw (ulaws.lower_plain name named, ulaws.lower_plain key plain) refl)

  extension_options-IsPlain :
      (loaded_at : Bytes) → All (λ o. IsPlain o.0) (extension_options loaded_at)
  unfolding extension_options
  extension_options-IsPlain loaded_at = search

  abbrev first_char : Bytes → ℕ
  first_char [] = 0
  first_char (c ∷ s) = c

  -- `quack_identify` sets only what begins with `whoami_`.
  apart :
      (rest name : Bytes)
      → IsPlain (codes "quack_" ++ rest)
      → u.lower (codes "whoami_" ++ name) ≢ u.lower (codes "quack_" ++ rest)
  apart rest name plain h =
      let heads : codes "whoami_" ++ u.lower name ≡ codes "quack_" ++ rest =
        ap (λ w. w ++ u.lower name) (sym (ulaws.lower_plain (codes "whoami_") search))
        ∙ (sym (ulaws.lower-append (codes "whoami_") name)
            ∙ (h ∙ ulaws.lower_plain (codes "quack_" ++ rest) plain)) in
      omega (arith, ap first_char heads)

  -- The settings of a server, as `LoadInternal` gives them.
  abbrev pub HasDefaults : k.Settings → Type 0
  HasDefaults s =
      (k.setting s (codes "quack_authentication_function") ≡ some (codes "quack_check_token"))
      × (k.setting s (codes "quack_authorization_function")
          ≡ some (codes "quack_nop_authorization"))
      × (k.setting s (codes "quack_fetch_batch_chunks") ≡ some (codes "12"))

  -- No value has been given to them.
  abbrev pub IsUnset : k.Settings → Type 0
  IsUnset s =
      (k.setting s (codes "quack_authentication_function") ≡ none)
      × (k.setting s (codes "quack_authorization_function") ≡ none)
      × (k.setting s (codes "quack_fetch_batch_chunks") ≡ none)

  load_options-HasDefaults :
      (loaded_at : Bytes) (s : k.Settings) → IsUnset s → HasDefaults (load_options k loaded_at s)
  unfolding load_options extension_options same
  load_options-HasDefaults loaded_at s (authentication, authorization, batch) =
      let at = λ (key : Bytes) (plain : IsPlain key) (unset : k.setting s key ≡ none).
        add_options_lem (extension_options loaded_at) s key (extension_options-IsPlain loaded_at)
          plain
        ∙ ap (added (extension_options loaded_at) key) unset in
      (
        at (codes "quack_authentication_function") (search) authentication,
        at (codes "quack_authorization_function") (search) authorization,
        at (codes "quack_fetch_batch_chunks") (search) batch,
      )

  -- If no value was given to the settings for the authentication function, the authorization
  -- function and the size of a batch before the extension is loaded, they have their defaults
  -- after it is loaded and quack_identify is called with any parameters, whether the call throws
  -- or not: a caller of quack_identify cannot change them.
  pub identify_bind-load_options :
      (loaded_at : Bytes) (s : k.Settings) (parameters : List (Bytes × Option Bytes))
      → IsUnset s
      → HasDefaults (identify_bind k parameters (load_options k loaded_at s)).1
  identify_bind-load_options loaded_at s parameters unset =
      let (authentication, authorization, batch) = load_options-HasDefaults loaded_at s unset in
      let of_authentication = kept (codes "authentication_function") search in
      let of_authorization = kept (codes "authorization_function") search in
      let of_batch = kept (codes "fetch_batch_chunks") search in
      (of_authentication ∙ authentication, of_authorization ∙ authorization, of_batch ∙ batch)
    where
      kept :
          (rest : Bytes)
          → IsPlain (codes "quack_" ++ rest)
          → let s1 = load_options k loaded_at s in
            k.setting (identify_bind k parameters s1).1 (codes "quack_" ++ rest)
            ≡ k.setting s1 (codes "quack_" ++ rest)
      kept rest plain =
          identify_keeps u k laws parameters (load_options k loaded_at s) _
            (λ name. apart rest name plain)
