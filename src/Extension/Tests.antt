-- ===== src/Extension/Tests.antt =====
-- The comparison of tokens at concrete texts.
use duckdb_quack.Prelude.{codes, true, ◌≡◌, ◌↔◌, arith}
use duckdb_quack.Extension.{quack_auth_token}
use duckdb_quack.Extension.Laws.{IsByteText, quack_auth_token_iff}

abc_bytes : IsByteText (codes "abc")
abc_bytes = (omega arith, (omega arith, (omega arith, tt)))

abd_bytes : IsByteText (codes "abd")
abd_bytes = (omega arith, (omega arith, (omega arith, tt)))

quack_auth_token_iff_example :
    (quack_auth_token (codes "s") (codes "abc") (codes "abd") ≡ true) ↔ (codes "abc" ≡ codes "abd")
quack_auth_token_iff_example =
    quack_auth_token_iff (codes "s") (codes "abc") (codes "abd") abc_bytes abd_bytes
