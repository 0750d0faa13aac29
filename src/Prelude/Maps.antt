-- ===== src/Prelude/Maps.antt =====
-- Hash maps with numbers as keys, as lists of their entries, under the names of `HashMap`.
use Prim.Native.Nat.{ℕ}
use mathlib.Core.Path.{◌≡◌, refl}
use mathlib.Core.List.{List, [], ◌∷◌}
use mathlib.Core.Option.{Option, none, some}
use native.Mathlib.Omega.{arith}
use sigmacatch.Prelude.Tests.{◌==◌, if◌then◌else◌}

module _ {ℓ} {A : Type ℓ} where
  abbrev pub find_entry : ℕ → List (ℕ × A) → Option A
  find_entry k [] = none
  find_entry k ((j, a) ∷ m) = if j == k then some a else find_entry k m

  abbrev pub insert_entry : ℕ → A → List (ℕ × A) → List (ℕ × A)
  insert_entry k a [] = (k, a) ∷ []
  insert_entry k a ((j, b) ∷ m) =
      let rest = insert_entry k a m in if j == k then (j, a) ∷ m else (j, b) ∷ rest

  abbrev pub remove_entry : ℕ → List (ℕ × A) → List (ℕ × A)
  remove_entry k [] = []
  remove_entry k ((j, b) ∷ m) =
      let rest = remove_entry k m in if j == k then rest else (j, b) ∷ rest

  pub find-insert :
      (k i : ℕ) (a : A) (m : List (ℕ × A))
      → find_entry i (insert_entry k a m) ≡ (if k == i then some a else find_entry i m)
  find-insert k i a [] = refl
  find-insert k i a ((j, b) ∷ m) = ground (arith, find-insert k i a m)

  pub find-remove :
      (k i : ℕ) (m : List (ℕ × A))
      → find_entry i (remove_entry k m) ≡ (if k == i then none else find_entry i m)
  find-remove k i [] = ground arith
  find-remove k i ((j, b) ∷ m) = ground (arith, find-remove k i m)
