-- ===== src/Uri/Tests.antt =====
-- The cases of test/sql/uri.test, run through the model.
use duckdb_quack.Prelude.{
  ◌∷◌, ◌++◌, arith, true, false, [], codes, ◌≡◌, refl, ok, err, invalid_input,
}
use duckdb_quack.Text.Std.{stoi, find, substr}
use duckdb_quack.Text.Reference.{reference, reference_laws}
use duckdb_quack.Text.Decimal.{to_string}
use duckdb_quack.Uri.Parse.{
  QuackUri, quack_uri, parse_ipv6, parse_port, invalid_port, canonical_uri, http_url, quack_prefix,
  slashed_prefix,
}
use duckdb_quack.Uri.Shapes.{IsHostName, IsAddress, IsPort}
use duckdb_quack.Uri.RoundTrip.{
  quack_uri-canonical_uri, quack_uri_bracketed, quack_uri_slashed, quack_uri_port,
  quack_uri_quack_host,
}

abbrev pub local_1234 : QuackUri
local_1234 = record {
  ssl = true;
  ipv6 = false;
  host = codes "localhost";
  port = 1234;
  http = codes "https://localhost:1234";
  uri = codes "quack:localhost:1234";
}

parse_local : quack_uri reference (codes "quack:localhost:1234") true ≡ ok local_1234
unfolding quack_uri parse_ipv6 parse_port reference stoi find substr
parse_local = refl

parse_slashed : quack_uri reference (codes " quack://localhost:1234") true ≡ ok local_1234
unfolding quack_uri parse_ipv6 parse_port reference stoi find substr
parse_slashed = refl

parse_ipv6_port :
    quack_uri reference (codes "quack:[::1]:1234") false
    ≡ ok (record {
      ssl = false;
      ipv6 = true;
      host = codes "::1";
      port = 1234;
      http = codes "http://[::1]:1234";
      uri = codes "quack:[::1]:1234";
    })
unfolding quack_uri parse_ipv6 parse_port reference stoi find substr
parse_ipv6_port = refl

no_host : quack_uri reference (codes "quack:") true ≡ err (invalid_input "Missing hostname" [])
unfolding quack_uri parse_ipv6 parse_port reference stoi find substr
no_host = refl

no_port : quack_uri reference (codes "quack:localhost:") true ≡ err invalid_port
unfolding quack_uri parse_ipv6 parse_port reference stoi find substr
no_port = refl

bad_port : quack_uri reference (codes "quack:localhost:asdf") true ≡ err invalid_port
unfolding quack_uri parse_ipv6 parse_port reference stoi find substr
bad_port = refl

no_bracket :
    quack_uri reference (codes "quack:[::1") true
    ≡ err (invalid_input "Invalid IPv6 URL, missing ']'" [])
unfolding quack_uri parse_ipv6 parse_port reference stoi find substr
no_bracket = refl

quack_uri_port_example : IsPort 1234
quack_uri_port_example =
    quack_uri_port reference reference_laws (codes "quack:localhost:1234") true parse_local

abbrev pub small : QuackUri
small = record local_1234 { host = codes "h"; port = 80 }

pub small-IsHostName : IsHostName (codes "h") 80
unfolding to_string
small-IsHostName = record {
  no_colon = (λ h. omega arith, tt);
  no_bracket = λ (r, e). ground arith;
  no_slashes = λ (r, e). ground arith;
  no_prefix = (
    λ (r, e). ground arith,
    (λ (r, e). ground arith, (λ (r, e). ground arith, (λ (r, e). ground arith, tt))),
  );
  short = omega arith;
}

quack_uri-canonical_uri_example :
    quack_uri reference (canonical_uri small) true
    ≡ ok (record {
      ssl = true;
      ipv6 = false;
      host = codes "h";
      port = 80;
      http = http_url reference true false (codes "h") 80;
      uri = canonical_uri small;
    })
quack_uri-canonical_uri_example =
    quack_uri-canonical_uri reference reference_laws small true refl small-IsHostName
      (omega arith, omega arith)

small-IsAddress : IsAddress (codes "::1") 80
unfolding to_string
small-IsAddress = record {
  full = λ h. cc;
  closed = (λ h. omega arith, (λ h. omega arith, (λ h. omega arith, tt)));
  no_prefix = (
    λ (r, e). ground arith,
    (
      λ (r, e). ground arith,
      (
        λ (r, e). ground arith,
        (
          λ (r, e). ground arith,
          (
            λ (r, e). ground arith,
            (λ (r, e). ground arith, (λ (r, e). ground arith, (λ (r, e). ground arith, tt))),
          ),
        ),
      ),
    ),
  );
  short = omega arith;
}

quack_uri_bracketed_example :
    quack_uri reference (quack_prefix ++ (b'[' ∷ (codes "::1" ++ b']' ∷ b':' ∷ to_string 80))) false
    ≡ ok (record {
      ssl = false;
      ipv6 = true;
      host = codes "::1";
      port = 80;
      http =
          codes "http" ++ ([] ++ (codes "://[" ++ (codes "::1" ++ (codes "]:" ++ to_string 80))));
      uri = quack_prefix ++ (b'[' ∷ (codes "::1" ++ b']' ∷ b':' ∷ to_string 80));
    })
quack_uri_bracketed_example =
    quack_uri_bracketed reference reference_laws (codes "::1") 80 false small-IsAddress
      (omega arith, omega arith)

quack_uri_slashed_example :
    quack_uri reference (slashed_prefix ++ codes "h" ++ b'1' ∷ []) true
    ≡ quack_uri reference (quack_prefix ++ codes "h" ++ b'1' ∷ []) true
quack_uri_slashed_example = quack_uri_slashed reference reference_laws (codes "h") b'1' true refl (
  λ (r, e). ground arith,
  (
    λ (r, e). ground arith,
    (
      λ (r, e). ground arith,
      (
        λ (r, e). ground arith,
        (
          λ (r, e). ground arith,
          (λ (r, e). ground arith, (λ (r, e). ground arith, (λ (r, e). ground arith, tt))),
        ),
      ),
    ),
  ),
)

abbrev quack_host : QuackUri
quack_host = record local_1234 { host = codes "myquack"; port = 80 }

quack_uri_quack_host_example :
    quack_uri reference (canonical_uri quack_host) true
    ≡ ok (record {
      ssl = true;
      ipv6 = false;
      host = codes "my" ++ to_string 80;
      port = 9494;
      http = http_url reference true false (codes "my" ++ to_string 80) 9494;
      uri = canonical_uri quack_host;
    })
quack_uri_quack_host_example =
    quack_uri_quack_host reference reference_laws (codes "my") quack_host true refl
      (omega arith, omega arith) (λ h. omega arith, (λ h. omega arith, tt)) (λ (r, e). ground arith)
      (λ (r, e). ground arith)
