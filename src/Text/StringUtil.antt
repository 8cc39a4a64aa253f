-- ===== src/Text/StringUtil.antt =====
-- DuckDB's `StringUtil`: its operations as a record, and what the extension relies on.
use duckdb_quack.Prelude.{
  ℕ, Bool, true, false, List, [], ◌∷◌, ◌++◌, Bytes, ◌≡◌, ◌≢◌, ◌↔◌, All, leb, ◌&&◌,
}
use duckdb_quack.Text.Std.{is_space}
use duckdb_quack.Text.Decimal.{to_string}

pub data FormatArg : Type 0 where
  str : Bytes → FormatArg
  int : ℕ → FormatArg

pub record StringUtil : Type 0 where
  pub trim : Bytes → Bytes
  pub starts_with : Bytes → Bytes → Bool
  pub contains : Bytes → ℕ → Bool
  pub replace : Bytes → Bytes → Bytes → Bytes
  pub lower : Bytes → Bytes
  pub format : Bytes → List FormatArg → Bytes

abbrev pub Lacks : ℕ → Bytes → Type 0
Lacks c = All (λ d. d ≢ c)

abbrev pub StartsWith : Bytes → Bytes → Type 0
StartsWith s p = (r : Bytes) × (s ≡ p ++ r)

-- No place of the text at which `p` begins.
abbrev pub Avoids : Bytes → Bytes → Type 0
Avoids p [] = Unit {0}
Avoids p (c ∷ s) = (¬ StartsWith (c ∷ s) p) × Avoids p s

abbrev pub is_upper : ℕ → Bool
is_upper c = leb b'A' c && leb c b'Z'

-- The documented behaviour of the functions, as far as the proofs need it.
pub record StringUtilLaws (u : StringUtil) : Type 0 where
  pub trim_inner :
      (c d : ℕ) (s : Bytes)
      → is_space c ≡ false
      → is_space d ≡ false
      → u.trim (c ∷ (s ++ d ∷ [])) ≡ c ∷ (s ++ d ∷ [])
  pub starts_with_iff : (s p : Bytes) → (u.starts_with s p ≡ true) ↔ StartsWith s p
  pub contains_iff : (s : Bytes) (c : ℕ) → (u.contains s c ≡ false) ↔ Lacks c s
  pub replace-nil : (p t : Bytes) → p ≢ [] → u.replace [] p t ≡ []
  pub replace_match : (p t r : Bytes) → p ≢ [] → u.replace (p ++ r) p t ≡ t ++ u.replace r p t
  pub replace_skip :
      (c : ℕ) (s p t : Bytes) → ¬ StartsWith (c ∷ s) p → u.replace (c ∷ s) p t ≡ c ∷ u.replace s p t
  pub lower_plain : (s : Bytes) → All (λ c. is_upper c ≡ false) s → u.lower s ≡ s
  pub lower-append : (s t : Bytes) → u.lower (s ++ t) ≡ u.lower s ++ u.lower t
  pub format-nil : u.format [] [] ≡ []
  pub format_str :
      (f t : Bytes) (rest : List FormatArg)
      → u.format (b'%' ∷ b's' ∷ f) (str t ∷ rest) ≡ t ++ u.format f rest
  pub format_int :
      (f : Bytes) (n : ℕ) (rest : List FormatArg)
      → u.format (b'%' ∷ b'd' ∷ f) (int n ∷ rest) ≡ to_string n ++ u.format f rest
  pub format_char :
      (c : ℕ) (f : Bytes) (args : List FormatArg)
      → c ≢ b'%'
      → u.format (c ∷ f) args ≡ c ∷ u.format f args
