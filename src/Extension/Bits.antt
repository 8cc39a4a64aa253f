-- ===== src/Extension/Bits.antt =====
-- Exclusive and inclusive or on bytes, by trying all of them.
use duckdb_quack.Prelude.{
  ℕ, zero, suc, ◌<◌, Bool, true, false, ◌&&◌, bit_xor, bit_or, ◌≡◌, ◌↔◌, refl, sym, subst, arith,
  ◌==◌, ==_iff, ltb, ltb→lt, Bool-cases, inl, inr,
}

-- A test holds of all numbers below n.
all_below : ℕ → (ℕ → Bool) → Bool
all_below zero test = true
all_below (suc n) test = test n && all_below n test

same_test : Bool → Bool → Bool
same_test true b = b
same_test false true = false
same_test false false = true

abbrev xor_agrees : ℕ → ℕ → Bool
xor_agrees a b = same_test (bit_xor a b == 0) (a == b) && ltb (bit_xor a b) 256

abbrev or_agrees : ℕ → ℕ → Bool
or_agrees a b = same_test (bit_or a b == 0) ((a == 0) && (b == 0)) && ltb (bit_or a b) 256

xor_all : all_below 256 (λ a. all_below 256 (xor_agrees a)) ≡ true
unfolding all_below same_test
xor_all = refl

or_all : all_below 256 (λ a. all_below 256 (or_agrees a)) ≡ true
unfolding all_below same_test
or_all = refl

and_true : (a b : Bool) → (a && b) ≡ true → (a ≡ true) × (b ≡ true)
and_true true b h = (refl, h)
and_true false b h = cc

all_below-at : (n k : ℕ) (test : ℕ → Bool) → all_below n test ≡ true → k < n → test k ≡ true
unfolding all_below
all_below-at zero k test h below = absurd (omega arith)
all_below-at (suc n) k test h below =
    let (here, rest) = and_true (test n) (all_below n test) h in
    elim (Bool-cases (k == n)) [
      | inl last ↦ subst (λ m. test m ≡ true) (sym ((==_iff k n).0 last)) here
      | inr other ↦ all_below-at n k test rest (ground arith)
    ]

same_test_iff : (a b : Bool) → same_test a b ≡ true → (a ≡ true) ↔ (b ≡ true)
unfolding same_test
same_test_iff true b h = (λ _. h, λ _. refl)
same_test_iff false true h = cc
same_test_iff false false h = (λ e. e, λ e. e)

pub bit_xor_zero :
    (a b : ℕ) → a < 256 → b < 256 → ((bit_xor a b ≡ 0) ↔ (a ≡ b)) × (bit_xor a b < 256)
bit_xor_zero a b small_a small_b =
    let at_a = all_below-at 256 a (λ c. all_below 256 (xor_agrees c)) xor_all small_a in
    let (agree, small) = and_true _ _ (all_below-at 256 b (xor_agrees a) at_a small_b) in
    let (to, from) = same_test_iff (bit_xor a b == 0) (a == b) agree in
    (
      (
        (λ z. (==_iff a b).0 (to ((==_iff (bit_xor a b) 0).1 z))),
        λ e. (==_iff (bit_xor a b) 0).0 (from ((==_iff a b).1 e)),
      ),
      ltb→lt (bit_xor a b) 256 small,
    )

pub bit_or_zero :
    (a b : ℕ) → a < 256 → b < 256 → ((bit_or a b ≡ 0) ↔ ((a ≡ 0) × (b ≡ 0))) × (bit_or a b < 256)
bit_or_zero a b small_a small_b =
    let at_a = all_below-at 256 a (λ c. all_below 256 (or_agrees c)) or_all small_a in
    let (agree, small) = and_true _ _ (all_below-at 256 b (or_agrees a) at_a small_b) in
    let (to, from) = same_test_iff (bit_or a b == 0) ((a == 0) && (b == 0)) agree in
    (
      (
        (λ z.
            let (za, zb) = and_true (a == 0) (b == 0) (to ((==_iff (bit_or a b) 0).1 z)) in
            ((==_iff a 0).0 za, (==_iff b 0).0 zb)),
        λ (za, zb). (==_iff (bit_or a b) 0).0 (from (rw (za, zb) refl)),
      ),
      ltb→lt (bit_or a b) 256 small,
    )
