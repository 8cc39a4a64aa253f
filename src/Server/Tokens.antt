-- ===== src/Server/Tokens.antt =====
-- The tokens of a server and the texts that are made of random bytes.
use duckdb_quack.Prelude.{
  ℕ, ◌*◌, ◌/◌, ◌%◌, ◌<◌, ◌≤◌, List, [], ◌∷◌, Bytes, ◌≡◌, refl, ◌↔◌, All, arith, length, ok, ltb,
  Bool-cases, inl, inr,
}
use duckdb_quack.Uri.Parse.{QuackUri}
use duckdb_quack.Server.Engine.{Engine}
use duckdb_quack.Server.State.{QuackServer}
use duckdb_quack.Server.Sessions.{
  hex_encode, validate_token, new_server, generate_random_token, token_bytes,
}

hex_encode-length :
    (table : ℕ → ℕ) (bytes : List ℕ) → length (hex_encode table bytes) ≡ 2 * length bytes
unfolding hex_encode
hex_encode-length table [] = refl
hex_encode-length table (b ∷ bytes) = omega (arith, hex_encode-length table bytes)

abbrev pub IsByte : ℕ → Type 0
IsByte b = b < 256

digits : (a b : ℕ) → a / 16 ≡ b / 16 → a % 16 ≡ b % 16 → a ≡ b
digits a b h1 h2 = omega arith

-- With a table of sixteen different digits, lists of bytes that HexEncode makes the same text of
-- are the same.
pub hex_encode_injective :
    (table : ℕ → ℕ)
    → ((i j : ℕ) → i < 16 → j < 16 → table i ≡ table j → i ≡ j)
    → (xs ys : List ℕ) → All IsByte xs
    → All IsByte ys
    → hex_encode table xs ≡ hex_encode table ys
    → xs ≡ ys
unfolding hex_encode
hex_encode_injective table differ [] [] hx hy h = refl
hex_encode_injective table differ [] (y ∷ ys) hx hy h = cc
hex_encode_injective table differ (x ∷ xs) [] hx hy h = cc
hex_encode_injective table differ (x ∷ xs) (y ∷ ys) (bx, hx) (by, hy) h =
    let (h1, h2, h3) : (table (x / 16) ≡ table (y / 16))
        × (table (x % 16) ≡ table (y % 16))
        × (hex_encode table xs ≡ hex_encode table ys) =
      (cc, cc, cc) in
    let same_byte =
      digits x y (differ (x / 16) (y / 16) (omega arith) (omega arith) h1)
        (differ (x % 16) (y % 16) (omega arith) (omega arith) h2) in
    let same_rest = hex_encode_injective table differ xs ys hx hy h3 in cc

module _ (e : Engine) where
  -- If the generator gives as many bytes as it is asked for, a generated token has 32 characters
  -- and is accepted as a token.
  pub generated_token_valid :
      (db : e.Db)
      → length (e.random_bytes (e.create_rng db) token_bytes).0 ≡ token_bytes
      → (length (generate_random_token e db) ≡ 32)
        × (validate_token (generate_random_token e db) ≡ ok tt)
  unfolding generate_random_token validate_token
  generated_token_valid db h =
      let long = hex_encode-length e.hex_table (e.random_bytes (e.create_rng db) token_bytes).0 in
      let whole : length (generate_random_token e db) ≡ 32 = omega (arith, long, h) in
      (whole, rw whole refl)

  -- The constructor gives a server exactly if the token has at least four bytes.
  pub new_server_iff :
      (db : e.Db) (uri : QuackUri) (token : Bytes)
      → ((s : QuackServer e) × (new_server e db uri token ≡ ok s)) ↔ (4 ≤ length token)
  unfolding new_server validate_token
  new_server_iff db uri token = elim (Bool-cases (ltb (length token) 4)) [
    | inl short ↦ (λ made. ground (arith, made.1), λ long. absurd (ground arith))
    | inr long ↦ (λ made. ground arith, λ _. rw (long, new_server) (_, refl))
  ]
