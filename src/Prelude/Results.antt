-- ===== src/Prelude/Results.antt =====
-- Exceptions as values. A constructor is one of DuckDB's exception classes or of the standard
-- library's; its arguments are the format string of the throw and the texts put into it.
use Prim.Native.String.{String}
use mathlib.Core.Path.{◌≡◌, refl}
use mathlib.Core.Bool.{Bool, true, false}
use mathlib.Core.List.{List}
use duckdb_quack.Prelude.Texts.{Bytes}

pub data Exception : Type 0 where
  invalid_input binder internal not_implemented io_error : String → List Bytes → Exception
  missing_extension : String → List Bytes → Exception
  out_of_range invalid_argument : Exception
  foreign : Bytes → Exception

pub data Result {ℓ} (A : Type ℓ) : Type ℓ where
  ok : A → Result A
  err : Exception → Result A

infixl 5 ◌>>◌
module _ {ℓ κ} {A : Type ℓ} {B : Type κ} where
  infixl 5 ◌>>=◌
  -- What follows in a `try` block, unless an exception is on its way.
  abbrev pub ◌>>=◌ : Result A → (A → Result B) → Result B
  ◌>>=◌ (err x) next = err x
  ◌>>=◌ (ok a) next = next a

  -- Where a block returns, its first step has returned, and so has the rest of it.
  pub >>=-eq-ok :
      (m : Result A) (next : A → Result B) {b : B}
      → m >>= next ≡ ok b
      → (a : A) × (m ≡ ok a) × (next a ≡ ok b)
  >>=-eq-ok (err x) next h = cc
  >>=-eq-ok (ok a) next h = (a, refl, h)

-- `if (test) { throw x; }`
abbrev pub throw_if : Bool → Exception → Result (Unit {0})
throw_if false x = ok tt
throw_if true x = err x

abbrev pub ◌>>◌ {ℓ} : {B : Type ℓ} → Result (Unit {0}) → Result B → Result B
◌>>◌ (err x) after = err x
◌>>◌ (ok _) after = after
