-- ===== src/Uri/Steps.antt =====
-- What each step of the `QuackUri` constructor does to a remainder of a known form.
use mathlib.Core.List.{cons-ne-nil}
use duckdb_quack.Prelude.{
  ℕ, suc, ◌<◌, ◌≤◌, List, [], ◌∷◌, ◌++◌, Bytes, codes, ok, ◌≡◌, refl, ◌≢◌, ap, ◌∙◌, length,
  length-append, arith, append-nil, Bool, true, false, Bool-cases, inl, inr, if◌then◌else◌, ◌>>=◌,
  All-append_right,
}
use duckdb_quack.Text.Std.{npos, is_space, positive}
use duckdb_quack.Text.Decimal.{to_string, stoi-to_string, to_string-ne-nil}
use duckdb_quack.Text.StringUtil.{StringUtil, StringUtilLaws, Lacks, StartsWith, Avoids, FormatArg}
use duckdb_quack.Uri.Parse.{
  Parts, quack_uri, quack_prefix, slashed_prefix, normalise, parse_ipv6, parse_port, port_in_range,
  http_url, finish, prev_pos, is_empty, default_port,
}
use duckdb_quack.Uri.Split.{find-append, substr_before, substr_after, substr_inner}

pub not_empty : (s : Bytes) → s ≢ [] → is_empty s ≡ false
not_empty [] h = absurd (h refl)
not_empty (c ∷ s) h = refl

module _ (u : StringUtil) (laws : StringUtilLaws u) where
  starts_with_false : (s p : Bytes) → ¬ StartsWith s p → u.starts_with s p ≡ false
  starts_with_false s p h = elim (Bool-cases (u.starts_with s p)) [
    | inl e ↦ absurd (h ((laws.starts_with_iff s p).0 e))
    | inr e ↦ e
  ]

  pub starts_with-append : (p r : Bytes) → u.starts_with (p ++ r) p ≡ true
  starts_with-append p r = (laws.starts_with_iff (p ++ r) p).1 (r, refl)

  contains-append : (c : ℕ) (s t : Bytes) → u.contains (s ++ c ∷ t) c ≡ true
  contains-append c s t = elim (Bool-cases (u.contains (s ++ c ∷ t) c)) [
    | inl e ↦ e
    | inr e ↦
        absurd ((All-append_right _ s (c ∷ t) ((laws.contains_iff (s ++ c ∷ t) c).0 e)).0 refl)
  ]

  -- `Replace` leaves a text alone in which its pattern does not occur.
  pub replace_Avoids : (s p t : Bytes) → p ≢ [] → Avoids p s → u.replace s p t ≡ s
  replace_Avoids [] p t h a = laws.replace-nil p t h
  replace_Avoids (c ∷ s) p t h (here, later) =
      laws.replace_skip c s p t here ∙ ap (◌∷◌ c) (replace_Avoids s p t h later)

  pub parse_port_none : (p : Parts) → Lacks b':' p.remainder → parse_port u p ≡ ok p
  unfolding parse_port
  parse_port_none p h = rw ((laws.contains_iff p.remainder b':').1 h)

  pub port_in_range_ok : (n : ℕ) → 1 ≤ n → n ≤ 65535 → port_in_range (ok (positive n)) ≡ ok n
  unfolding port_in_range
  port_in_range_ok n l h = ground arith

  pub parse_ipv6_none : (p : Parts) → ¬ StartsWith p.remainder (codes "[") → parse_ipv6 u p ≡ ok p
  unfolding parse_ipv6
  parse_ipv6_none p h = rw (starts_with_false p.remainder (codes "[") h)

  pub parse_port_some :
      (p : Parts) (s : Bytes) (n : ℕ)
      → p.remainder ≡ s ++ b':' ∷ to_string n
      → length p.remainder < npos
      → Lacks b':' s
      → 1 ≤ n
      → n ≤ 65535
      → parse_port u p ≡ ok (record p { port = n; remainder = s })
  unfolding parse_port
  parse_port_some p s n e small lacks l h = rw (
    e,
    contains-append b':' s (to_string n),
    find-append b':' s (to_string n) lacks
        (omega (arith, ap length e, length-append s (b':' ∷ to_string n))),
    substr_after b':' s (to_string n) (rw e at small),
    not_empty (to_string n) (to_string-ne-nil n),
    stoi-to_string n (omega arith),
    port_in_range_ok n l h,
    substr_before b':' s (to_string n),
  )

  pub parse_ipv6_some :
      (p : Parts) (s t : Bytes)
      → p.remainder ≡ b'[' ∷ (s ++ b']' ∷ t)
      → length p.remainder < npos
      → Lacks b']' s
      → s ≢ []
      → parse_ipv6 u p ≡ ok (record p { ipv6 = true; host = s; remainder = t })
  unfolding parse_ipv6
  parse_ipv6_some p s t e small lacks full = rw (
    e,
    starts_with-append (codes "[") (s ++ b']' ∷ t),
    contains-append b']' (b'[' ∷ s) t,
    find-append b']' (b'[' ∷ s) t (omega arith, lacks)
        (omega (arith, ap length e, length-append s (b']' ∷ t))),
    substr_inner b']' b'[' s t (prev_pos (suc (length s)))
        (omega (arith, ap length e, length-append s (b']' ∷ t))),
    not_empty s full,
    substr_after b']' (b'[' ∷ s) t (rw e at small),
  )

  pub format_plain :
      (s f : Bytes) (args : List FormatArg)
      → Lacks b'%' s
      → u.format (s ++ f) args ≡ s ++ u.format f args
  format_plain [] f args h = refl
  format_plain (c ∷ s) f args (hc, hs) =
      laws.format_char c (s ++ f) args hc ∙ ap (◌∷◌ c) (format_plain s f args hs)

  -- The HTTP URL is put together from the scheme, the host and the port.
  pub http_url_lem :
      (ssl ipv6 : Bool) (host : Bytes) (port : ℕ)
      → http_url u ssl ipv6 host port
        ≡ codes "http"
          ++ ((if ssl then codes "s" else [])
              ++ (codes "://"
                  ++ ((if ipv6 then codes "[" ++ host ++ codes "]" else host)
                      ++ (codes ":" ++ to_string port))))
  unfolding http_url
  http_url_lem ssl ipv6 host port = rw (
    format_plain (codes "http") (codes "%s://%s:%d") _ (omega arith),
    laws.format_str,
    format_plain (codes "://") (codes "%s:%d") _ (omega arith),
    laws.format_str,
    format_plain (codes ":") (codes "%d") _ (omega arith),
    laws.format_int,
    laws.format-nil,
    append-nil,
  )

  -- A trimmed URI with one prefix is taken as it is.
  pub normalise_plain :
      (s : Bytes) (c : ℕ)
      → is_space c ≡ false
      → ¬ StartsWith (quack_prefix ++ s ++ c ∷ []) slashed_prefix
      → normalise u (quack_prefix ++ s ++ c ∷ []) ≡ quack_prefix ++ s ++ c ∷ []
  unfolding normalise
  normalise_plain s c hc single = rw (
    laws.trim_inner b'q' c (codes "uack:" ++ s) refl hc,
    starts_with_false (quack_prefix ++ s ++ c ∷ []) slashed_prefix single,
  )

  pub normalise_slashed :
      (s : Bytes) (c : ℕ)
      → is_space c ≡ false
      → Avoids slashed_prefix (quack_prefix ++ s ++ c ∷ [])
      → normalise u (slashed_prefix ++ s ++ c ∷ []) ≡ quack_prefix ++ s ++ c ∷ []
  unfolding normalise
  normalise_slashed s c hc single = rw (
    laws.trim_inner b'q' c (codes "uack://" ++ s) refl hc,
    starts_with-append slashed_prefix (s ++ c ∷ []),
    laws.replace_match slashed_prefix quack_prefix (s ++ c ∷ []) (cons-ne-nil _ _),
    replace_Avoids (s ++ c ∷ []) slashed_prefix quack_prefix (cons-ne-nil _ _) single.1.1.1.1.1.1,
  )

  -- From here on the remainder decides.
  pub quack_uri_remainder :
      (s : Bytes) (c : ℕ) (r : Bytes) (ssl : Bool)
      → r ≢ []
      → is_space c ≡ false
      → ¬ StartsWith (quack_prefix ++ s ++ c ∷ []) slashed_prefix
      → u.replace (s ++ c ∷ []) quack_prefix [] ≡ r
      → quack_uri u (quack_prefix ++ s ++ c ∷ []) ssl ≡ (do
        p ← parse_ipv6 u (record { ipv6 = false; host = []; port = default_port; remainder = r })
        q ← parse_port u p
        ok (finish u (quack_prefix ++ s ++ c ∷ []) ssl q))
  unfolding quack_uri
  quack_uri_remainder s c r ssl full hc single e = rw (
    normalise_plain s c hc single,
    starts_with-append quack_prefix (s ++ c ∷ []),
    laws.replace_match quack_prefix [] (s ++ c ∷ []) (cons-ne-nil _ _),
    e,
    not_empty r full,
  )
