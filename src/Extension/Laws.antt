-- ===== src/Extension/Laws.antt =====
-- The comparison of tokens is equality, on texts of bytes.
use duckdb_quack.Prelude.{
  ℕ, ◌%◌, ◌^◌, ◌<◌, true, false, [], ◌∷◌, Bytes, bit_xor, bit_or, ◌≡◌, ◌↔◌, refl, sym, ap, ◌∙◌, inl,
  inr, Bool-cases, arith, All, length, ◌==◌, ==_iff,
}
use duckdb_quack.Extension.{differences, timing_safe_equal, quack_auth_token}
use duckdb_quack.Extension.Bits.{bit_xor_zero, bit_or_zero}

abbrev pub IsByteText : Bytes → Type 0
IsByteText = All (λ b. b < 256)

abbrev head_or : ℕ → Bytes → ℕ
head_or d [] = d
head_or d (b ∷ s) = b

abbrev tail : Bytes → Bytes
tail [] = []
tail (b ∷ s) = s

true-ne : ¬ (true ≡ false)
true-ne h = cc

length_apart : (a b : Bytes) → (length a == length b) ≡ false → ¬ (a ≡ b)
length_apart a b apart e = true-ne (sym ((==_iff (length a) (length b)).1 (ap length e)) ∙ apart)

-- One round: the result stays zero exactly if it was zero and the two bytes are the same.
round_zero :
    (a b result : ℕ)
    → a < 256
    → b < 256
    → result < 256
    → let next = bit_or result (bit_xor (a % 2 ^ 8) (b % 2 ^ 8)) % 2 ^ 8 in
      ((next ≡ 0) ↔ ((result ≡ 0) × (a ≡ b))) × (next < 256)
round_zero a b result small_a small_b small =
    let ea : a % 2 ^ 8 ≡ a = omega (arith, small_a) in
    let eb : b % 2 ^ 8 ≡ b = omega (arith, small_b) in
    let (xor, xor_small) = bit_xor_zero a b small_a small_b in
    let (or_zero, or_small) = bit_or_zero result (bit_xor a b) small xor_small in
    let en : bit_or result (bit_xor a b) % 2 ^ 8 ≡ bit_or result (bit_xor a b) =
      omega (arith, or_small) in
    rw (ea, eb, en)
      (
        ((λ z. let (r, x) = or_zero.0 z in (r, xor.0 x)), λ (r, same). or_zero.1 (r, xor.1 same)),
        or_small,
      )

differences_iff :
    (r s : Bytes) (result : ℕ)
    → IsByteText r
    → IsByteText s
    → length r ≡ length s
    → result < 256
    → (differences r s result ≡ 0) ↔ ((result ≡ 0) × (r ≡ s))
unfolding differences
differences_iff [] [] result hr hs same small = ((λ z. (z, refl)), λ (z, _). z)
differences_iff [] (b ∷ s) result hr hs same small = absurd (omega arith)
differences_iff (a ∷ r) [] result hr hs same small = absurd (omega arith)
differences_iff (a ∷ r) (b ∷ s) result (ha, hr) (hb, hs) same small =
    let (zero_iff, next_small) = round_zero a b result ha hb small in
    let (to, from) = differences_iff r s _ hr hs (omega (arith, same)) next_small in
    (
      (λ z. let (n, rest) = to z in let (z0, here) = zero_iff.0 n in (z0, rw (here, rest) refl)),
      λ (z0, whole). from (zero_iff.1 (z0, ap (head_or 0) whole), ap tail whole),
    )

-- Of texts of bytes, the authentication function of the extension accepts exactly the token of
-- the server, whatever the session is.
pub quack_auth_token_iff :
    (session_id client_token server_token : Bytes)
    → IsByteText client_token
    → IsByteText server_token
    → (quack_auth_token session_id client_token server_token ≡ true) ↔ (client_token ≡ server_token)
unfolding quack_auth_token timing_safe_equal
quack_auth_token_iff session_id a b ha hb = elim (Bool-cases (length a == length b)) [
  | inl same ↦
      let (to, from) =
        differences_iff a b 0 ha hb ((==_iff (length a) (length b)).0 same) (omega arith) in
      rw (same, quack_auth_token, timing_safe_equal)
        (
          (λ h. (to ((==_iff (differences a b 0) 0).0 h)).1),
          λ e. (==_iff (differences a b 0) 0).1 (from (refl, e)),
        )
  | inr apart ↦
      rw (apart, quack_auth_token, timing_safe_equal)
        ((λ h. absurd (true-ne (sym h))), λ e. absurd (length_apart a b apart e))
]
