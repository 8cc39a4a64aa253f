-- ===== src/Scan/Ledger.antt =====
-- Threads that take numbered batches from one queue: what their outputs are by batch.
pub mod Moves
use duckdb_quack.Prelude.{
  ne→==false, ==false→ne, ℕ, zero, suc, ◌≤◌, ◌<◌, Bool, true, false, List, [], ◌∷◌, ◌++◌, ◌≡◌, ◌≢◌,
  subst, refl, sym, ap, ◌∙◌, ◌⊎◌, inl, inr, Bool-cases, arith, append_assoc, append-nil, ◌==◌,
  ==_refl, ==_iff, if◌then◌else◌,
}

abbrev pub update : {A : Type 0} → (ℕ → A) → ℕ → A → ℕ → A
update f i a j = if j == i then a else f j

-- What holds of the new value and of all others holds of the updated function.
pub update_all :
    {A : Type 0} (P : ℕ → A → Type 0) (f : ℕ → A) (i : ℕ) (a : A)
    → ((j : ℕ) → (j == i) ≡ false → P j (f j))
    → P i a
    → (j : ℕ) → P j (update f i a j)
update_all P f i a others here j = elim (Bool-cases (j == i)) [
  | inl mine ↦ rw mine (subst (λ m. P m a) (sym ((==_iff j i).0 mine)) here)
  | inr other ↦ rw other (others j other)
]

pub record Ledger (O : Type 0) : Type 0 where
  pub index : ℕ → ℕ
  pub buffer : ℕ → List O
  pub log : List (ℕ × O)
  pub next : ℕ
  pub rest : List O

module _ {O : Type 0} where
  -- The outputs of one batch in a log of outputs with their batch index.
  abbrev pub of_batch : ℕ → List (ℕ × O) → List O
  of_batch j [] = []
  of_batch j ((i, o) ∷ log) = let rest = of_batch j log in if i == j then o ∷ rest else rest

  pub of_batch-append :
      (j : ℕ) (xs ys : List (ℕ × O)) → of_batch j (xs ++ ys) ≡ of_batch j xs ++ of_batch j ys
  of_batch-append j [] ys = refl
  of_batch-append j ((i, o) ∷ xs) ys = elim (Bool-cases (i == j)) [
    | inl same ↦ rw (same, of_batch-append j xs ys) refl
    | inr other ↦ rw (other, of_batch-append j xs ys) refl
  ]

  -- The lists with the numbers below n, one after the other.
  abbrev pub gather : ℕ → (ℕ → List O) → List O
  gather zero f = []
  gather (suc n) f = gather n f ++ f n

  pub gather_ext :
      (n : ℕ) (f g : ℕ → List O) → ((j : ℕ) → j < n → f j ≡ g j) → gather n f ≡ gather n g
  gather_ext zero f g h = refl
  gather_ext (suc n) f g h =
      rw (gather_ext n f g (λ j below. h j (omega arith)), h n (omega arith)) refl

  -- A thread gives out what it has buffered, or takes a batch and gives out its first output.
  pub data Move (l : Ledger O) : Ledger O → Type 0 where
    stay : Move l l
    give :
        (i : ℕ) (o : O) (os : List O)
        → l.buffer i ≡ o ∷ os
        → Move l (record l { buffer = update l.buffer i os; log = l.log ++ (l.index i, o) ∷ [] })
    load :
        (i : ℕ) (o : O) (front back : List O)
        → l.buffer i ≡ []
        → l.rest ≡ o ∷ (front ++ back)
        → Move l (record {
          index = update l.index i l.next;
          buffer = update l.buffer i front;
          log = l.log ++ (l.next, o) ∷ [];
          next = suc l.next;
          rest = back;
        })

  -- What is still buffered of a batch, by the thread that took it.
  abbrev pub pending : Ledger O → (ℕ → ℕ) → ℕ → List O
  pending l owner j = if l.index (owner j) == j then l.buffer (owner j) else []

  abbrev pub batch : Ledger O → (ℕ → ℕ) → ℕ → List O
  batch l owner j = of_batch j l.log ++ pending l owner j

  -- All batches, logged or buffered, and the rest make up the whole.
  pub record IsOrdered (whole : List O) (l : Ledger O) : Type 0 where
    pub owner : ℕ → ℕ
    pub made_up : gather l.next (batch l owner) ++ l.rest ≡ whole
    pub below : (i : ℕ) → l.index i < l.next
    pub owned : (i : ℕ) → (l.buffer i ≡ []) ⊎ (owner (l.index i) ≡ i)
    pub fresh : (j : ℕ) → l.next ≤ j → of_batch j l.log ≡ []
