-- ===== src/Text/Decimal.antt =====
-- `std::to_string` of an unsigned number, and that reading it back gives the number.
use duckdb_quack.Prelude.{
  ℕ, zero, suc, ◌+◌, ◌-◌, ◌*◌, ◌%◌, ◌^◌, ◌/◌, ◌<◌, true, [], ◌∷◌, ◌++◌, Bytes, ltb, if◌then◌else◌,
  ◌≡◌, refl, ◌≢◌, arith, All, All-append, Bool-cases, inl, inr, ok,
}
use mathlib.Core.List.{concat-ne-nil, cons-ne-nil}
use duckdb_quack.Text.Std.{is_digit, read_digits, digits_of, stoi, positive}

-- Each round splits off the last digit; `n + 1` rounds are enough for `n`.
decimal : ℕ → ℕ → Bytes
decimal zero n = []
decimal (suc fuel) n =
    let more = decimal fuel (n / 10) ++ (b'0' + n % 10) ∷ [] in
    if ltb n 10 then (b'0' + n) ∷ [] else more

unfoldable pub to_string : ℕ → Bytes
unfolding decimal
to_string n = decimal (suc n) n

abbrev pub AllDigits : Bytes → Type 0
AllDigits = All (λ c. is_digit c ≡ true)

decimal-AllDigits : (fuel n : ℕ) → AllDigits (decimal fuel n)
unfolding decimal
decimal-AllDigits zero n = tt
decimal-AllDigits (suc fuel) n = elim (Bool-cases (ltb n 10)) [
  | inl e ↦ rw e (ground arith, tt)
  | inr e ↦
      rw e (
        All-append _ (decimal fuel (n / 10)) _ (decimal-AllDigits fuel (n / 10)) (ground arith, tt))
]

pub to_string-AllDigits : (n : ℕ) → AllDigits (to_string n)
unfolding to_string
to_string-AllDigits n = decimal-AllDigits (suc n) n

-- Digits are read one after the other, up to the end.
pub read_digits-append :
    (s t : Bytes) (n : ℕ) → AllDigits s → read_digits n (s ++ t) ≡ read_digits (read_digits n s) t
unfolding read_digits
read_digits-append [] t n h = refl
read_digits-append (c ∷ s) t n (hc, hs) = rw hc (read_digits-append s t (n * 10 + (c - b'0')) hs)

read_digits_last : (n d : ℕ) → d < 10 → read_digits n ((b'0' + d) ∷ []) ≡ n * 10 + d
unfolding read_digits
read_digits_last n d h = ground arith

read_digits-decimal : (fuel n : ℕ) → n < fuel → read_digits 0 (decimal fuel n) ≡ n
unfolding decimal
read_digits-decimal zero n h = absurd (omega arith)
read_digits-decimal (suc fuel) n h = elim (Bool-cases (ltb n 10)) [
  | inl e ↦ rw e (ground (arith, read_digits_last 0 n))
  | inr e ↦
      rw
        (
          e,
          read_digits-append (decimal fuel (n / 10)) ((b'0' + n % 10) ∷ []) 0
              (decimal-AllDigits fuel (n / 10)),
        )
        (ground (arith, read_digits-decimal fuel (n / 10), read_digits_last (n / 10) (n % 10)))
]

pub read_digits-to_string : (n : ℕ) → read_digits 0 (to_string n) ≡ n
unfolding to_string
read_digits-to_string n = read_digits-decimal (suc n) n (omega arith)

decimal-ne-nil : (fuel n : ℕ) → decimal (suc fuel) n ≢ []
unfolding decimal
decimal-ne-nil fuel n =
    ground (arith, concat-ne-nil (b'0' + n % 10) (decimal fuel (n / 10)), cons-ne-nil (b'0' + n) [])

pub to_string-ne-nil : (n : ℕ) → to_string n ≢ []
unfolding to_string
to_string-ne-nil n = decimal-ne-nil n n

-- A printed number ends in a digit.
pub to_string_last :
    (n : ℕ) → (s : Bytes) × (c : ℕ) × (to_string n ≡ s ++ c ∷ []) × (is_digit c ≡ true)
unfolding to_string decimal
to_string_last n = elim (Bool-cases (ltb n 10)) [
  | inl e ↦ ([], b'0' + n, rw e, ground arith)
  | inr e ↦ (decimal n (n / 10), b'0' + n % 10, rw e, ground arith)
]

digits_of_all : (s : Bytes) → s ≢ [] → AllDigits s → digits_of s ≡ ok (read_digits 0 s)
unfolding digits_of
digits_of_all [] h d = absurd (h refl)
digits_of_all (c ∷ s) h (hc, _) = rw hc

-- `stoi` reads a printed number back, if it fits an `int`.
stoi_all :
    (s : Bytes)
    → s ≢ []
    → AllDigits s
    → read_digits 0 s < 2 ^ 31
    → stoi s ≡ ok (positive (read_digits 0 s))
unfolding stoi digits_of
stoi_all [] h d b = absurd (h refl)
stoi_all (c ∷ s) h (hc, hs) b = ground arith

pub stoi-to_string : (n : ℕ) → n < 2 ^ 31 → stoi (to_string n) ≡ ok (positive n)
unfolding to_string
stoi-to_string n h = rw (
  stoi_all (to_string n) (decimal-ne-nil n n) (to_string-AllDigits n) (rw read_digits-to_string h),
  read_digits-to_string,
)

to_string_9494 : to_string 9494 ≡ b'9' ∷ b'4' ∷ b'9' ∷ b'4' ∷ []
unfolding to_string
to_string_9494 = refl
