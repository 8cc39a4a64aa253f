-- ===== src/Extension.antt =====
-- src/quack_extension.cpp: the comparison of tokens behind the default authentication function.
pub mod Bits
pub mod Laws
pub mod Config
pub mod Secrets
pub mod Settings
mod SettingsTests
mod Tests
use duckdb_quack.Prelude.{
  ℕ, ◌%◌, ◌^◌, Bool, true, false, not, List, [], ◌∷◌, Bytes, bit_xor, bit_or, ◌==◌, length,
  if◌then◌else◌,
}

-- The loop of `TimingSafeEqual`, over two texts of the same length, with its result so far.
unfoldable pub differences : Bytes → Bytes → ℕ → ℕ
differences [] s result = result
differences (a ∷ r) [] result = result
differences (a ∷ r) (b ∷ s) result =
    differences r s (bit_or result (bit_xor (a % 2 ^ 8) (b % 2 ^ 8)) % 2 ^ 8)

unfoldable pub timing_safe_equal : Bytes → Bytes → Bool
unfolding differences
timing_safe_equal a b = if not (length a == length b) then false else differences a b 0 == 0

-- `QuackAuthToken`: the token of the client and the one of the server; the session id is not read.
unfoldable pub quack_auth_token : Bytes → Bytes → Bytes → Bool
unfolding timing_safe_equal
quack_auth_token session_id client_token server_token = timing_safe_equal client_token server_token
