-- ===== src/Text/Std.antt =====
-- `std::string` and `std::stoi`, as far as the extension uses them.
use duckdb_quack.Prelude.{
  ℕ, suc, ◌+◌, ◌-◌, ◌*◌, ◌^◌, Bool, true, false, ◌||◌, ◌&&◌, [], ◌∷◌, Bytes, ltb, leb, ◌==◌,
  if◌then◌else◌, length, take, drop, Result, ok, err, out_of_range, invalid_argument,
}

-- `std::string::npos`, the largest `size_t`.
abbrev pub npos : ℕ
npos = 2 ^ 64 - 1

-- `s.find(c)`
unfoldable pub find : Bytes → ℕ → ℕ
find [] c = npos
find (d ∷ s) c =
    let rest = find s c in if d == c then 0 else if rest == npos then npos else suc rest

-- `s.substr(pos, n)`
unfoldable pub substr : Bytes → ℕ → ℕ → Result Bytes
substr s pos n = if ltb (length s) pos then err out_of_range else ok (take n (drop pos s))

abbrev pub is_digit : ℕ → Bool
is_digit c = leb b'0' c && leb c b'9'

-- `isspace`
abbrev pub is_space : ℕ → Bool
is_space c = c == 32 || leb 9 c && leb c 13

-- An `int`, by its sign and magnitude.
pub data Signed : Type 0 where
  positive negative : ℕ → Signed

-- The number that the leading digits of a text spell behind `n`.
unfoldable pub read_digits : ℕ → Bytes → ℕ
read_digits n [] = n
read_digits n (c ∷ s) =
    let more = read_digits (n * 10 + (c - b'0')) s in if is_digit c then more else n

unfoldable pub digits_of : Bytes → Result ℕ
unfolding read_digits
digits_of [] = err invalid_argument
digits_of (c ∷ s) = if is_digit c then ok (read_digits 0 (c ∷ s)) else err invalid_argument

abbrev in_range : Signed → Result Signed
in_range (positive n) = if ltb n (2 ^ 31) then ok (positive n) else err out_of_range
in_range (negative n) = if leb n (2 ^ 31) then ok (negative n) else err out_of_range

abbrev signed : Bool → Result ℕ → Result Signed
signed b (err e) = err e
signed true (ok n) = in_range (negative n)
signed false (ok n) = in_range (positive n)

unfoldable pub read_sign : Bytes → Result Signed
unfolding digits_of
read_sign [] = err invalid_argument
read_sign (c ∷ s) =
    if c == b'-'
    then signed true (digits_of s)
    else signed false (digits_of (if c == b'+' then s else c ∷ s))

-- `std::stoi(s)`: spaces, a sign, digits; what follows the digits is ignored.
unfoldable pub stoi : Bytes → Result Signed
unfolding read_sign
stoi [] = err invalid_argument
stoi (c ∷ s) = let rest = stoi s in if is_space c then rest else read_sign (c ∷ s)
