-- ===== src/Prelude/Assoc.antt =====
-- A keyed store: the entries of a tree or a hash table, one for each key.
use Prim.Native.Nat.{ℕ}
use mathlib.Core.Path.{◌≡◌, refl, sym, ap, ◌∙◌}
use mathlib.Core.List.{List, [], ◌∷◌}
use mathlib.Core.Option.{Option, none, some}
use mathlib.Core.Logic.{inl, inr}
use mathlib.Core.Bool.{false}
use native.Mathlib.Omega.{arith}
use olsrd_hybrid_plc.Prelude.Tests.{◌==◌, if◌then◌else◌, Bool-cases}

module _ {ℓ} {V : Type ℓ} where
  unfoldable pub find : ℕ → List (ℕ × V) → Option V
  find k [] = none
  find k ((j, v) ∷ m) = if j == k then some v else find k m

  -- A write through the pointer that `find` returns, or the insertion of a new entry.
  unfoldable pub put : ℕ → V → List (ℕ × V) → List (ℕ × V)
  put k v [] = (k, v) ∷ []
  put k v ((j, w) ∷ m) = if j == k then (k, v) ∷ m else (j, w) ∷ put k v m

  unfoldable pub delete : ℕ → List (ℕ × V) → List (ℕ × V)
  delete k [] = []
  delete k ((j, w) ∷ m) = if j == k then delete k m else (j, w) ∷ delete k m

  pub find-put :
      (k j : ℕ) (v : V) (m : List (ℕ × V))
      → find j (put k v m) ≡ (if k == j then some v else find j m)
  unfolding find put
  find-put k j v [] = refl
  find-put k j v ((i, w) ∷ m) = ground (arith, find-put k j v m)

  pub find-delete :
      (k j : ℕ) (m : List (ℕ × V)) → find j (delete k m) ≡ (if k == j then none else find j m)
  unfolding find delete
  find-delete k j [] = ground arith
  find-delete k j ((i, w) ∷ m) = ground (arith, find-delete k j m)

-- Each key once.
abbrev pub Apart : {A : Type 0} → List (ℕ × A) → Type 0
Apart [] = Unit {0}
Apart ((k, x) ∷ m) = (find k m ≡ none) × Apart m

pub put-Apart : {A : Type 0} (k : ℕ) (x : A) (m : List (ℕ × A)) → Apart m → Apart (put k x m)
unfolding put find
put-Apart k x [] a = (refl, tt)
put-Apart k x ((j, y) ∷ m) (new, a) = elim (Bool-cases (j == k)) [
  | inl t ↦ let here : j ≡ k = ground (arith, t) in rw t (ap (λ i. find i m) (sym here) ∙ new, a)
  | inr t ↦
      let t' : (k == j) ≡ false = ground (arith, t) in
      rw t (find-put k j x m ∙ (rw t' new), put-Apart k x m a)
]
