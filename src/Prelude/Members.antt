-- ===== src/Prelude/Members.antt =====
-- The members of a list.
use Prim.Native.Nat.{ℕ}
use mathlib.Core.Path.{◌≡◌}
use mathlib.Core.Logic.{inl, inr}
use mathlib.Core.Bool.{Bool, true, false}
use mathlib.Core.List.{List, [], ◌∷◌, ◌++◌}
use olsrd_hybrid_plc.Prelude.Tests.{◌==◌, if◌then◌else◌, Bool-cases}

abbrev pub mem : ℕ → List ℕ → Bool
mem v [] = false
mem v (a ∷ list) = if a == v then true else mem v list

pub mem-snoc :
    (w u : ℕ) (list : List ℕ) → mem w (list ++ (u ∷ [])) ≡ (if mem w list then true else u == w)
mem-snoc w u [] = elim (Bool-cases (u == w)) [ inl t ↦ rw t | inr t ↦ rw t ]
mem-snoc w u (a ∷ list) = elim (Bool-cases (a == w)) [
  | inl t ↦ rw t
  | inr t ↦ rw t (mem-snoc w u list)
]

abbrev pub All {ℓ} : {A : Type ℓ} → (A → Type 0) → List A → Type 0
All P [] = Unit {0}
All P (x ∷ xs) = P x × All P xs

pub All-map {ℓ} :
    {A : Type ℓ} (P Q : A → Type 0) (xs : List A) → ((x : A) → P x → Q x) → All P xs → All Q xs
All-map P Q [] f a = tt
All-map P Q (x ∷ xs) f (h, a) = (f x h, All-map P Q xs f a)
