-- ===== src/Uri/Shapes.antt =====
-- Hosts, addresses and ports as a URI carries them, and how the texts around them begin.
use mathlib.Core.List.{cons-ne-nil}
use duckdb_quack.Prelude.{
  ℕ, ◌<◌, ◌≤◌, [], ◌∷◌, ◌++◌, Bytes, codes, ◌≢◌, ap, ◌∙◌, length, length-append, arith,
  append_assoc, All-append,
}
use duckdb_quack.Text.Std.{npos}
use duckdb_quack.Text.Decimal.{to_string, AllDigits}
use duckdb_quack.Text.StringUtil.{Lacks, StartsWith, Avoids}
use duckdb_quack.Uri.Parse.{quack_prefix, slashed_prefix}
use duckdb_quack.Uri.Split.{Lacks-unique}

-- A host name that a URI can carry without brackets in front of port `n`.
pub record IsHostName (h : Bytes) (n : ℕ) : Type 0 where
  pub no_colon : Lacks b':' h
  pub no_bracket : ¬ StartsWith h (codes "[")
  pub no_slashes : ¬ StartsWith h (codes "//")
  pub no_prefix : Avoids quack_prefix (h ++ b':' ∷ to_string n)
  pub short : length (h ++ b':' ∷ to_string n) < npos

-- An IPv6 address between brackets.
pub record IsAddress (h : Bytes) (n : ℕ) : Type 0 where
  pub full : h ≢ []
  pub closed : Lacks b']' h
  pub no_prefix : Avoids quack_prefix (b'[' ∷ (h ++ b']' ∷ b':' ∷ to_string n))
  pub short : length (b'[' ∷ (h ++ b']' ∷ b':' ∷ to_string n)) < npos

abbrev pub IsPort : ℕ → Type 0
IsPort n = (1 ≤ n) × (n ≤ 65535)

pub append-ne-nil : (h : Bytes) (c : ℕ) (t : Bytes) → h ++ c ∷ t ≢ []
append-ne-nil [] c t = cons-ne-nil c t
append-ne-nil (d ∷ h) c t = cons-ne-nil d (h ++ c ∷ t)

pub bracket_first :
    (h t : Bytes) → ¬ StartsWith h (codes "[") → ¬ StartsWith (h ++ b':' ∷ t) (codes "[")
bracket_first [] t k (r, e) = ground arith
bracket_first (c ∷ h) t k (r, e) = k (h, ground arith)

pub slashes_first :
    (h t : Bytes)
    → ¬ StartsWith h (codes "//")
    → ¬ StartsWith (quack_prefix ++ (h ++ b':' ∷ t)) slashed_prefix
slashes_first [] t k (r, e) = ground arith
slashes_first (c ∷ []) t k (r, e) = ground arith
slashes_first (c ∷ d ∷ h) t k (r, e) = k (h, ground arith)

pub slashes_first_prefix :
    (h t : Bytes)
    → ¬ StartsWith h (codes "//")
    → ¬ StartsWith (quack_prefix ++ (h ++ (quack_prefix ++ t))) slashed_prefix
slashes_first_prefix [] t k (r, e) = ground arith
slashes_first_prefix (c ∷ []) t k (r, e) = ground arith
slashes_first_prefix (c ∷ d ∷ h) t k (r, e) = k (h, ground arith)

pub AllDigits-Lacks : (t : Bytes) → AllDigits t → Lacks b':' t
AllDigits-Lacks [] h = tt
AllDigits-Lacks (c ∷ t) (hc, ht) = (ground arith, AllDigits-Lacks t ht)

pub AllDigits-Avoids : (t : Bytes) → AllDigits t → Avoids quack_prefix t
AllDigits-Avoids [] h = tt
AllDigits-Avoids (c ∷ t) (hc, ht) = (λ (r, e). ground arith, AllDigits-Avoids t ht)

pub digits_first :
    (h t : Bytes) → AllDigits t → ¬ StartsWith h (codes "[") → ¬ StartsWith (h ++ t) (codes "[")
digits_first [] [] d k (r, e) = ground arith
digits_first [] (c ∷ t) d k (r, e) = ground arith
digits_first (c ∷ h) t d k (r, e) = k (h, ground arith)

pub append-ne-nil_right : (h t : Bytes) → t ≢ [] → h ++ t ≢ []
append-ne-nil_right [] t k = k
append-ne-nil_right (c ∷ h) t k = cons-ne-nil c (h ++ t)

-- In front of `quack:`, a text with no colon holds no place where `quack:` begins.
pub late_prefix :
    (c : ℕ) (h t : Bytes)
    → Lacks b':' (c ∷ h)
    → ¬ StartsWith (c ∷ (h ++ (quack_prefix ++ t))) quack_prefix
late_prefix c h t lacks (r, e) =
    let front =
      Lacks-unique b':' ((c ∷ h) ++ codes "quack") (codes "quack") t r
        (All-append _ (c ∷ h) (codes "quack") lacks (omega arith)) (omega arith)
        (append_assoc (c ∷ h) (codes "quack") (b':' ∷ t) ∙ e) in
    omega (arith, ap length front, length-append (c ∷ h) (codes "quack"))
