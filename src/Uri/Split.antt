-- ===== src/Uri/Split.antt =====
-- Cutting a text at the first place of a byte, by `find` and `substr`.
use duckdb_quack.Prelude.{
  ℕ, zero, suc, ◌<◌, ◌≤◌, List, [], ◌∷◌, ◌++◌, Bytes, ok, ◌≡◌, refl, ap, length, length-append,
  take, drop, arith,
}
use duckdb_quack.Text.Std.{npos, find, substr}
use duckdb_quack.Text.StringUtil.{Lacks}
use duckdb_quack.Uri.Parse.{next_pos}

pub take_all {ℓ} : {A : Type ℓ} (n : ℕ) (s : List A) → length s ≤ n → take n s ≡ s
take_all zero [] h = refl
take_all (suc n) [] h = refl
take_all zero (c ∷ s) h = absurd (omega arith)
take_all (suc n) (c ∷ s) h = ap (◌∷◌ c) (take_all n s (omega arith))

pub take-append {ℓ} : {A : Type ℓ} (s t : List A) → take (length s) (s ++ t) ≡ s
take-append [] t = refl
take-append (c ∷ s) t = ap (◌∷◌ c) (take-append s t)

pub drop-append {ℓ} : {A : Type ℓ} (c : A) (s t : List A) → drop (suc (length s)) (s ++ c ∷ t) ≡ t
drop-append c [] t = refl
drop-append c (d ∷ s) t = drop-append c s t

module _ (c : ℕ) where
  pub find-append : (s t : Bytes) → Lacks c s → length s < npos → find (s ++ c ∷ t) c ≡ length s
  unfolding find
  find-append [] t h b = ground arith
  find-append (d ∷ s) t (hd, hs) b = ground (arith, find-append s t hs (omega arith))

  pub substr_before : (s t : Bytes) → substr (s ++ c ∷ t) 0 (length s) ≡ ok s
  unfolding substr
  substr_before s t = ground (arith, take-append s (c ∷ t))

  substr_rest :
      (s t : Bytes) (pos n : ℕ)
      → pos ≡ suc (length s)
      → length t ≤ n
      → substr (s ++ c ∷ t) pos n ≡ ok t
  unfolding substr
  substr_rest s t pos n e b =
      rw (e, drop-append c s t, take_all n t b) (ground (arith, length-append s (c ∷ t)))

  pub substr_after :
      (s t : Bytes)
      → length (s ++ c ∷ t) < npos
      → substr (s ++ c ∷ t) (next_pos (length s)) npos ≡ ok t
  substr_after s t b =
      let total = length-append s (c ∷ t) in
      substr_rest s t (next_pos (length s)) npos (omega arith) (omega arith)

  -- What stands between the first byte and the first `c`.
  pub substr_inner :
      (d : ℕ) (s t : Bytes) (n : ℕ) → n ≡ length s → substr (d ∷ (s ++ c ∷ t)) 1 n ≡ ok s
  unfolding substr
  substr_inner d s t n e = rw (e, take-append s (c ∷ t)) (ground arith)

  -- The part in front of the first `c` is determined.
  pub Lacks-unique : (s t x y : Bytes) → Lacks c s → Lacks c t → s ++ c ∷ x ≡ t ++ c ∷ y → s ≡ t
  Lacks-unique [] [] x y hs ht e = refl
  Lacks-unique [] (d ∷ t) x y hs ht e = absurd (ht.0 (ground arith))
  Lacks-unique (d ∷ s) [] x y hs ht e = absurd (hs.0 (ground arith))
  Lacks-unique (d ∷ s) (f ∷ t) x y hs ht e =
      ground (arith, Lacks-unique s t x y hs.1 ht.1 (ground arith))
