-- ===== src/Text/Reference.antt =====
-- A `StringUtil` that runs and meets its laws: the parameter at which the theorems are tried out.
use mathlib.Core.List.{reverse, reverse-append, reverse-reverse}
use duckdb_quack.Prelude.{
  ℕ, zero, suc, ◌+◌, Bool, true, false, ◌&&◌, ◌||◌, List, [], ◌∷◌, ◌++◌, map, Bytes, ◌==◌,
  if◌then◌else◌, ◌≡◌, refl, ◌≢◌, ◌↔◌, ◌∙◌, ap, arith, All, length, Bool-cases, inl, inr,
}
use duckdb_quack.Text.Std.{is_space}
use duckdb_quack.Text.Decimal.{to_string}
use duckdb_quack.Text.StringUtil.{
  StringUtil, StringUtilLaws, FormatArg, str, int, Lacks, StartsWith, is_upper,
}

skip_spaces : Bytes → Bytes
skip_spaces [] = []
skip_spaces (c ∷ s) = if is_space c then skip_spaces s else c ∷ s

trim : Bytes → Bytes
trim s = reverse (skip_spaces (reverse (skip_spaces s)))

starts_with : Bytes → Bytes → Bool
starts_with s [] = true
starts_with [] (d ∷ p) = false
starts_with (c ∷ s) (d ∷ p) = (c == d) && starts_with s p

contains : Bytes → ℕ → Bool
contains [] c = false
contains (d ∷ s) c = (d == c) || contains s c

tail_of : Bytes → Bytes
tail_of [] = []
tail_of (c ∷ s) = s

module _ (p t : Bytes) where
  -- The first argument counts the bytes of a match that are still to be passed over.
  replace_from : ℕ → Bytes → Bytes
  replace_from k [] = []
  replace_from (suc k) (c ∷ s) = replace_from k s
  replace_from zero (c ∷ s) = elim (starts_with (c ∷ s) p) [
    | true ↦ t ++ replace_from (length (tail_of p)) s
    | false ↦ c ∷ replace_from zero s
  ]

to_lower : ℕ → ℕ
to_lower c = if is_upper c then c + 32 else c

format : Bytes → List FormatArg → Bytes
format [] args = []
format (c ∷ []) args = c ∷ []
format (c ∷ d ∷ f) [] = c ∷ format (d ∷ f) []
format (c ∷ d ∷ f) (str t ∷ args) =
    let here = t ++ format f args in
    let next = c ∷ format (d ∷ f) (str t ∷ args) in
    if (c == b'%') && (d == b's') then here else next
format (c ∷ d ∷ f) (int n ∷ args) =
    let here = to_string n ++ format f args in
    let next = c ∷ format (d ∷ f) (int n ∷ args) in
    if (c == b'%') && (d == b'd') then here else next

trim_inner :
    (c d : ℕ) (s : Bytes)
    → is_space c ≡ false
    → is_space d ≡ false
    → trim (c ∷ (s ++ d ∷ [])) ≡ c ∷ (s ++ d ∷ [])
unfolding trim skip_spaces
trim_inner c d s hc hd =
    rw (hc, reverse-append (c ∷ s) (d ∷ []), hd)
      (reverse-append (d ∷ []) (reverse (c ∷ s)) ∙ ap (λ l. l ++ d ∷ []) (reverse-reverse (c ∷ s)))

starts_with_sound : (s p : Bytes) → starts_with s p ≡ true → StartsWith s p
unfolding starts_with
starts_with_sound s [] e = (s, refl)
starts_with_sound [] (d ∷ p) e = cc
starts_with_sound (c ∷ s) (d ∷ p) e =
    let rest = starts_with_sound s p (ground arith) in (rest.0, ground arith)

starts_with_complete : (s p : Bytes) → StartsWith s p → starts_with s p ≡ true
unfolding starts_with
starts_with_complete s [] h = refl
starts_with_complete [] (d ∷ p) (r, e) = cc
starts_with_complete (c ∷ s) (d ∷ p) (r, e) =
    ground (arith, starts_with_complete s p (r, ground arith))

starts_with_iff : (s p : Bytes) → (starts_with s p ≡ true) ↔ StartsWith s p
starts_with_iff s p = (starts_with_sound s p, starts_with_complete s p)

contains_iff : (s : Bytes) (c : ℕ) → (contains s c ≡ false) ↔ Lacks c s
unfolding contains
contains_iff [] c = (λ _. tt, λ _. refl)
contains_iff (d ∷ s) c =
    (λ e. ground (arith, (contains_iff s c).0), λ h. ground (arith, (contains_iff s c).1 h.1))

replace_passes : (p t q r : Bytes) → replace_from p t (length q) (q ++ r) ≡ replace_from p t 0 r
unfolding replace_from
replace_passes p t [] r = refl
replace_passes p t (c ∷ q) r = replace_passes p t q r

replace_match : (p t r : Bytes) → p ≢ [] → replace_from p t 0 (p ++ r) ≡ t ++ replace_from p t 0 r
unfolding replace_from tail_of
replace_match [] t r h = absurd (h refl)
replace_match (c ∷ p) t r h =
    rw (starts_with_complete (c ∷ (p ++ r)) (c ∷ p) (r, refl), replace_from)
      (ap (◌++◌ t) (replace_passes (c ∷ p) t p r))

replace_skip :
    (c : ℕ) (s p t : Bytes)
    → ¬ StartsWith (c ∷ s) p
    → replace_from p t 0 (c ∷ s) ≡ c ∷ replace_from p t 0 s
unfolding replace_from
replace_skip c s p t h = elim (Bool-cases (starts_with (c ∷ s) p)) [
  | inl e ↦ absurd (h ((starts_with_iff (c ∷ s) p).0 e))
  | inr e ↦ rw (e, replace_from)
]

map-append : (f : ℕ → ℕ) (s t : Bytes) → map f (s ++ t) ≡ map f s ++ map f t
map-append f [] t = refl
map-append f (c ∷ s) t = ap (λ r. f c ∷ r) (map-append f s t)

lower_plain : (s : Bytes) → All (λ c. is_upper c ≡ false) s → map to_lower s ≡ s
unfolding to_lower
lower_plain [] h = refl
lower_plain (c ∷ s) (hc, hs) = rw (hc, lower_plain s hs)

format_char :
    (c : ℕ) (f : Bytes) (args : List FormatArg) → c ≢ b'%' → format (c ∷ f) args ≡ c ∷ format f args
unfolding format
format_char c [] args h = refl
format_char c (d ∷ f) [] h = refl
format_char c (d ∷ f) (str t ∷ args) h = ground arith
format_char c (d ∷ f) (int n ∷ args) h = ground arith

format_str :
    (f t : Bytes) (rest : List FormatArg)
    → format (b'%' ∷ b's' ∷ f) (str t ∷ rest) ≡ t ++ format f rest
unfolding format
format_str f t rest = refl

format_int :
    (f : Bytes) (n : ℕ) (rest : List FormatArg)
    → format (b'%' ∷ b'd' ∷ f) (int n ∷ rest) ≡ to_string n ++ format f rest
unfolding format
format_int f n rest = refl

unfoldable pub reference : StringUtil
unfolding trim skip_spaces starts_with contains replace_from tail_of to_lower format to_string
reference = record {
  trim = trim;
  starts_with = starts_with;
  contains = contains;
  replace = λ s p t. replace_from p t 0 s;
  lower = map to_lower;
  format = format;
}

pub reference_laws : StringUtilLaws reference
unfolding reference
reference_laws = record {
  trim_inner = trim_inner;
  starts_with_iff = starts_with_iff;
  contains_iff = contains_iff;
  replace-nil = λ p t h. refl;
  replace_match = replace_match;
  replace_skip = replace_skip;
  lower_plain = lower_plain;
  lower-append = map-append to_lower;
  format-nil = refl;
  format_str = format_str;
  format_int = format_int;
  format_char = format_char;
}
