-- ===== src/Uri/RoundTrip.antt =====
-- Which host and port a URI stands for.
use mathlib.Core.List.{cons-ne-nil}
use duckdb_quack.Prelude.{
  ℕ, [], ◌∷◌, ◌++◌, Bytes, codes, ok, ◌≡◌, refl, ◌≢◌, ap, sym, ◌∙◌, length-append, arith,
  append_assoc, Bool, true, false, if◌then◌else◌, ◌>>=◌, All-append, same_iff, ◌↔◌,
}
use duckdb_quack.Text.Std.{is_space}
use duckdb_quack.Text.Decimal.{to_string, to_string-AllDigits, to_string_last, to_string-ne-nil}
use duckdb_quack.Text.StringUtil.{StringUtil, StringUtilLaws, Lacks, StartsWith, Avoids}
use duckdb_quack.Uri.Parse.{
  QuackUri, Parts, quack_uri, quack_prefix, slashed_prefix, canonical_uri, parse_ipv6, parse_port,
  http_url, finish, default_port, uri_eq,
}
use duckdb_quack.Uri.Steps.{
  quack_uri_remainder, replace_Avoids, parse_ipv6_none, parse_ipv6_some, parse_port_none,
  parse_port_some, http_url_lem, normalise_plain, normalise_slashed,
}
use duckdb_quack.Uri.Shapes.{
  IsHostName, IsAddress, IsPort, append-ne-nil, bracket_first, slashes_first, slashes_first_prefix,
  AllDigits-Lacks, AllDigits-Avoids, digits_first, append-ne-nil_right, late_prefix,
}

module _ (u : StringUtil) (laws : StringUtilLaws u) where
  -- A URI that ends in a number is split behind its prefix.
  quack_uri_number :
      (x w : Bytes) (n : ℕ) (r : Bytes) (ssl : Bool)
      → x ≡ w ++ to_string n
      → r ≢ []
      → ¬ StartsWith (quack_prefix ++ x) slashed_prefix
      → u.replace x quack_prefix [] ≡ r
      → quack_uri u (quack_prefix ++ x) ssl ≡ (do
        p ← parse_ipv6 u (record { ipv6 = false; host = []; port = default_port; remainder = r })
        q ← parse_port u p
        ok (finish u (quack_prefix ++ x) ssl q))
  quack_uri_number x w n r ssl form full single e =
      let (t, d, last, digit) = to_string_last n in
      let split : x ≡ (w ++ t) ++ d ∷ [] =
        form ∙ (ap (◌++◌ w) last ∙ sym (append_assoc w t (d ∷ []))) in
      rw split (
        quack_uri_remainder u laws (w ++ t) d r ssl full (ground arith) (rw split at single)
          (rw split at e))

  -- The canonical URI of a plain host name and a port from 1 to 65535 is parsed back to this host
  -- and port, without the IPv6 flag and with itself as the stored URI.
  pub quack_uri-canonical_uri :
      (q : QuackUri) (ssl : Bool)
      → q.ipv6 ≡ false
      → IsHostName q.host q.port
      → IsPort q.port
      → quack_uri u (canonical_uri q) ssl
        ≡ ok (record {
          ssl = ssl;
          ipv6 = false;
          host = q.host;
          port = q.port;
          http = http_url u ssl false q.host q.port;
          uri = canonical_uri q;
        })
  unfolding canonical_uri finish
  quack_uri-canonical_uri q ssl v h (l, b) =
      let x = q.host ++ b':' ∷ to_string q.port in
      let host_first = bracket_first q.host (to_string q.port) h.no_bracket in
      rw (
        quack_uri_number x (q.host ++ b':' ∷ []) q.port x ssl
            (sym (append_assoc q.host (b':' ∷ []) (to_string q.port)))
            (append-ne-nil q.host b':' (to_string q.port))
            (slashes_first q.host (to_string q.port) h.no_slashes)
            (replace_Avoids u laws x quack_prefix [] (cons-ne-nil _ _) h.no_prefix),
        parse_ipv6_none u laws
            (record { ipv6 = false; host = []; port = default_port; remainder = x }) host_first,
        parse_port_some u laws
            (record { ipv6 = false; host = []; port = default_port; remainder = x }) q.host q.port
            refl h.short h.no_colon l b,
      )

  -- A URI with a non-empty address in brackets and a port from 1 to 65535 is parsed to this
  -- address and port with the IPv6 flag, and its HTTP URL keeps the brackets.
  pub quack_uri_bracketed :
      (h : Bytes) (n : ℕ) (ssl : Bool)
      → IsAddress h n
      → IsPort n
      → quack_uri u (quack_prefix ++ (b'[' ∷ (h ++ b']' ∷ b':' ∷ to_string n))) ssl
        ≡ ok (record {
          ssl = ssl;
          ipv6 = true;
          host = h;
          port = n;
          http =
              codes "http"
              ++ ((if ssl then codes "s" else [])
                  ++ (codes "://[" ++ (h ++ (codes "]:" ++ to_string n))));
          uri = quack_prefix ++ (b'[' ∷ (h ++ b']' ∷ b':' ∷ to_string n));
        })
  unfolding finish
  quack_uri_bracketed h n ssl a (l, b) =
      let x = b'[' ∷ (h ++ b']' ∷ b':' ∷ to_string n) in
      let init : Parts = record { ipv6 = false; host = []; port = default_port; remainder = x } in
      let rest : Parts = record {
        ipv6 = true;
        host = h;
        port = default_port;
        remainder = b':' ∷ to_string n;
      } in
      rw (
        quack_uri_number x (b'[' ∷ (h ++ codes "]:")) n x ssl
            (ap (◌∷◌ b'[') (sym (append_assoc h (codes "]:") (to_string n)))) (cons-ne-nil _ _)
            (λ s. ground arith)
            (replace_Avoids u laws x quack_prefix [] (cons-ne-nil _ _) a.no_prefix),
        parse_ipv6_some u laws init h (b':' ∷ to_string n) refl a.short a.closed a.full,
        parse_port_some u laws rest [] n refl
            (omega (arith, a.short, length-append h (b']' ∷ b':' ∷ to_string n))) tt l b,
        http_url_lem u laws ssl true h n,
        append_assoc h (codes "]") (b':' ∷ to_string n),
      )

  -- A URI with the prefix quack:// is parsed as the one with quack: in its place, errors
  -- included, if it does not end in a space and the latter does not hold quack://.
  pub quack_uri_slashed :
      (s : Bytes) (c : ℕ) (ssl : Bool)
      → is_space c ≡ false
      → Avoids slashed_prefix (quack_prefix ++ s ++ c ∷ [])
      → quack_uri u (slashed_prefix ++ s ++ c ∷ []) ssl
        ≡ quack_uri u (quack_prefix ++ s ++ c ∷ []) ssl
  unfolding quack_uri
  quack_uri_slashed s c ssl hc single =
      rw (normalise_plain u laws s c hc single.0, normalise_slashed u laws s c hc single)

  -- Every URI that is accepted has a port from 1 to 65535.
  pub quack_uri_port :
      (s : Bytes) (ssl : Bool) {q : QuackUri} → quack_uri u s ssl ≡ ok q → IsPort q.port
  unfolding quack_uri parse_ipv6 parse_port
  quack_uri_port s ssl h = ground arith

  -- The prefix is also cut out of the middle of a URI.
  replace_inner :
      (h t : Bytes)
      → Lacks b':' h
      → u.replace (h ++ (quack_prefix ++ t)) quack_prefix [] ≡ h ++ u.replace t quack_prefix []
  replace_inner [] t lacks = laws.replace_match quack_prefix [] t (cons-ne-nil _ _)
  replace_inner (c ∷ h) t (hc, lacks) =
      laws.replace_skip c (h ++ (quack_prefix ++ t)) quack_prefix [] (late_prefix c h t (hc, lacks))
      ∙ ap (◌∷◌ c) (replace_inner h t lacks)

  -- The canonical URI of a host name that ends in quack, with a port from 1 to 65535, is accepted
  -- with the digits of the port glued to the rest of the name as the host and with the default
  -- port.
  pub quack_uri_quack_host :
      (h : Bytes) (q : QuackUri) (ssl : Bool)
      → q.host ≡ h ++ codes "quack"
      → IsPort q.port
      → Lacks b':' h
      → ¬ StartsWith h (codes "[")
      → ¬ StartsWith h (codes "//")
      → quack_uri u (canonical_uri q) ssl
        ≡ ok (record {
          ssl = ssl;
          ipv6 = false;
          host = h ++ to_string q.port;
          port = default_port;
          http = http_url u ssl false (h ++ to_string q.port) default_port;
          uri = canonical_uri q;
        })
  unfolding canonical_uri finish
  quack_uri_quack_host h q ssl named p lacks bracket slashes =
      let n = q.port in
      let r = h ++ to_string n in
      let digits = to_string-AllDigits n in
      let init : Parts = record { ipv6 = false; host = []; port = default_port; remainder = r } in
      rw (
        named,
        append_assoc h (codes "quack") (b':' ∷ to_string n),
        quack_uri_number (h ++ (quack_prefix ++ to_string n)) (h ++ quack_prefix) n r ssl
            (sym (append_assoc h quack_prefix (to_string n)))
            (append-ne-nil_right h (to_string n) (to_string-ne-nil n))
            (slashes_first_prefix h (to_string n) slashes)
            (replace_inner h (to_string n) lacks
              ∙ ap (◌++◌ h) (
                  replace_Avoids u laws (to_string n) quack_prefix [] (cons-ne-nil _ _)
                    (AllDigits-Avoids (to_string n) digits))),
        parse_ipv6_none u laws init (digits_first h (to_string n) digits bracket),
        parse_port_none u laws init
            (All-append _ h (to_string n) lacks (AllDigits-Lacks (to_string n) digits)),
      )

-- Two URIs are equal by operator== exactly if all their fields are.
pub uri_eq_iff : (a b : QuackUri) → (uri_eq a b ≡ true) ↔ (a ≡ b)
unfolding uri_eq
uri_eq_iff a b =
    ground (arith, same_iff b.host a.host, same_iff b.http a.http, same_iff b.uri a.uri)
