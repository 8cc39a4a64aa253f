-- ===== src/Uri/Parse.antt =====
-- The class `QuackUri`: the constructor that parses a URI, and its accessors.
use duckdb_quack.Prelude.{
  ℕ, ◌+◌, ◌%◌, ◌^◌, Bool, true, false, not, ◌&&◌, ◌||◌, [], ◌∷◌, ◌++◌, Bytes, codes, same, ltb,
  ◌==◌, if◌then◌else◌, Result, ok, err, throw_if, Exception, invalid_input, ◌>>=◌, ◌>>◌,
}
use duckdb_quack.Text.Std.{npos, find, substr, stoi, Signed, positive, negative}
use duckdb_quack.Text.Decimal.{to_string}
use duckdb_quack.Text.StringUtil.{StringUtil, str, int}

pub record QuackUri : Type 0 where
  pub ssl : Bool
  pub ipv6 : Bool
  pub host : Bytes
  pub port : ℕ
  pub http : Bytes
  pub uri : Bytes

-- The members that the constructor fills step by step, and its local `remainder`.
pub record Parts : Type 0 where
  pub ipv6 : Bool
  pub host : Bytes
  pub port : ℕ
  pub remainder : Bytes

abbrev pub quack_prefix : Bytes
quack_prefix = codes "quack:"

abbrev pub slashed_prefix : Bytes
slashed_prefix = codes "quack://"

abbrev pub default_port : ℕ
default_port = 9494

-- A `size_t` sum and difference.
abbrev pub next_pos : ℕ → ℕ
next_pos pos = (pos + 1) % 2 ^ 64

abbrev pub prev_pos : ℕ → ℕ
prev_pos pos = (pos + npos) % 2 ^ 64

abbrev pub is_empty : Bytes → Bool
is_empty [] = true
is_empty (c ∷ s) = false

abbrev pub invalid_port : Exception
invalid_port = invalid_input "Invalid Port" []

-- `try { raw_port = stoi(...) } catch { throw "Invalid Port" }` and the range test.
unfoldable pub port_in_range : Result Signed → Result ℕ
port_in_range (err e) = err invalid_port
port_in_range (ok (negative n)) = err invalid_port
port_in_range (ok (positive n)) = do throw_if (ltb n 1 || ltb 65535 n) invalid_port; ok n

module _ (u : StringUtil) where
  -- Spaces are cut off, and `quack://` is read as `quack:`.
  unfoldable pub normalise : Bytes → Bytes
  normalise uri_p =
      let uri = u.trim uri_p in
      if u.starts_with uri slashed_prefix then u.replace uri slashed_prefix quack_prefix else uri

  -- A host in brackets, if the remainder begins with one.
  unfoldable pub parse_ipv6 : Parts → Result Parts
  parse_ipv6 p =
      if u.starts_with p.remainder (codes "[")
      then (do
        throw_if (not (u.contains p.remainder b']'))
            (invalid_input "Invalid IPv6 URL, missing ']'" [])
        let pos = find p.remainder b']'
        host ← substr p.remainder 1 (prev_pos pos)
        throw_if (is_empty host) (invalid_input "Missing IPv6 Address" [])
        rest ← substr p.remainder (next_pos pos) npos
        ok (record p { ipv6 = true; host = host; remainder = rest }))
      else ok p

  -- A port, if the remainder holds a colon.
  unfoldable pub parse_port : Parts → Result Parts
  unfolding port_in_range
  parse_port p =
      if u.contains p.remainder b':'
      then (do
        let pos = find p.remainder b':'
        port_str ← substr p.remainder (next_pos pos) npos
        throw_if (is_empty port_str) invalid_port
        port ← port_in_range (stoi port_str)
        rest ← substr p.remainder 0 pos
        ok (record p { port = port; remainder = rest }))
      else ok p

  unfoldable pub http_url : Bool → Bool → Bytes → ℕ → Bytes
  http_url ssl ipv6 host port = u.format (codes "http%s://%s:%d") (
      str (if ssl then codes "s" else [])
      ∷ str (if ipv6 then codes "[" ++ host ++ codes "]" else host)
      ∷ int port
      ∷ [])

  -- `if (!ipv6) host = remainder;` and the HTTP URL.
  unfoldable pub finish : Bytes → Bool → Parts → QuackUri
  unfolding http_url
  finish uri ssl p =
      let host = if p.ipv6 then p.host else p.remainder in
      record {
        ssl = ssl;
        ipv6 = p.ipv6;
        host = host;
        port = p.port;
        http = http_url ssl p.ipv6 host p.port;
        uri = uri;
      }

  -- `QuackUri::QuackUri(string uri_p, bool ssl_p)`
  unfoldable pub quack_uri : Bytes → Bool → Result QuackUri
  unfolding normalise finish
  quack_uri uri_p ssl = do
    let uri = normalise uri_p
    throw_if (not (u.starts_with uri quack_prefix))
        (invalid_input "Invalid DuckDB Quack RPC URI, needs to start with 'quack:'" [])
    let remainder = u.replace uri quack_prefix []
    throw_if (is_empty remainder) (invalid_input "Missing hostname" [])
    p ← parse_ipv6 (record { ipv6 = false; host = []; port = default_port; remainder = remainder })
    q ← parse_port p
    ok (finish uri ssl q)

  -- `QuackUri::QuackUri()`
  pub quack_uri_default : Result QuackUri
  quack_uri_default = quack_uri (codes "quack:localhost") true

  unfoldable pub is_local : QuackUri → Bool
  is_local q =
      same (u.lower q.host) (codes "localhost")
      || same q.host (codes "127.0.0.1")
      || same q.host (codes "::1")

unfoldable pub canonical_uri : QuackUri → Bytes
canonical_uri q = quack_prefix ++ (q.host ++ (codes ":" ++ to_string q.port))

abbrev bool_eq : Bool → Bool → Bool
bool_eq true b = b
bool_eq false b = not b

-- `operator==`
unfoldable pub uri_eq : QuackUri → QuackUri → Bool
uri_eq a b =
    bool_eq b.ssl a.ssl
    && bool_eq b.ipv6 a.ipv6
    && same b.host a.host
    && (b.port == a.port)
    && same b.http a.http
    && same b.uri a.uri
