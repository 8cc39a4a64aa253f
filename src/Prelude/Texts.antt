-- ===== src/Prelude/Texts.antt =====
-- Texts as their bytes, and dictionaries from texts (`std::unordered_map<string, ...>`).
use Prim.Native.Char.{code}
use Prim.Native.Nat.{ℕ}
use Prim.Native.String.{String}
use mathlib.Core.Path.{◌≡◌, refl}
use mathlib.Core.Bool.{Bool, true, false, ◌&&◌}
use mathlib.Core.List.{List, [], ◌∷◌}
use mathlib.Core.Logic.{◌↔◌}
use mathlib.Core.Option.{Option, none, some}
use native.Mathlib.Omega.{arith}
use duckdb_quack.Prelude.Tests.{◌==◌, if◌then◌else◌}

abbrev pub Bytes : Type 0
Bytes = List ℕ

-- The bytes of an ASCII literal.
abbrev pub codes : String → Bytes
codes String.[] = []
codes (String.◌∷◌ c s) = code c ∷ codes s

-- `==` of two strings.
unfoldable pub same : Bytes → Bytes → Bool
same [] [] = true
same [] (d ∷ t) = false
same (c ∷ s) [] = false
same (c ∷ s) (d ∷ t) = (c == d) && same s t

same_sound : (s t : Bytes) → same s t ≡ true → s ≡ t
unfolding same
same_sound [] [] h = refl
same_sound [] (d ∷ t) h = cc
same_sound (c ∷ s) [] h = cc
same_sound (c ∷ s) (d ∷ t) h = ground (arith, same_sound s t)

pub same_refl : (s : Bytes) → same s s ≡ true
unfolding same
same_refl [] = refl
same_refl (c ∷ s) = ground (arith, same_refl s)

same_complete : (s t : Bytes) → s ≡ t → same s t ≡ true
same_complete s t e = rw e (same_refl t)

pub same_iff : (s t : Bytes) → (same s t ≡ true) ↔ (s ≡ t)
same_iff s t = (same_sound s t, same_complete s t)

module _ {ℓ} {V : Type ℓ} where
  unfoldable pub lookup : Bytes → List (Bytes × V) → Option V
  lookup k [] = none
  lookup k ((j, v) ∷ m) = if same j k then some v else lookup k m

  unfoldable pub insert : Bytes → V → List (Bytes × V) → List (Bytes × V)
  insert k v [] = (k, v) ∷ []
  insert k v ((j, w) ∷ m) = if same j k then (k, v) ∷ m else (j, w) ∷ insert k v m

  unfoldable pub remove : Bytes → List (Bytes × V) → List (Bytes × V)
  remove k [] = []
  remove k ((j, w) ∷ m) = let rest = remove k m in if same j k then rest else (j, w) ∷ rest

  pub lookup-insert :
      (k j : Bytes) (v : V) (m : List (Bytes × V))
      → lookup j (insert k v m) ≡ (if same k j then some v else lookup j m)
  unfolding lookup insert
  lookup-insert k j v [] = refl
  lookup-insert k j v ((i, w) ∷ m) =
      ground (arith, same_iff k j, same_iff i k, same_iff i j, lookup-insert k j v m)

  pub lookup-remove :
      (k j : Bytes) (m : List (Bytes × V))
      → lookup j (remove k m) ≡ (if same k j then none else lookup j m)
  unfolding lookup remove
  lookup-remove k j [] = ground arith
  lookup-remove k j ((i, w) ∷ m) =
      ground (arith, same_iff k j, same_iff i k, same_iff i j, lookup-remove k j m)
