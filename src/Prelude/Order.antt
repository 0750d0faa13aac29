-- ===== src/Prelude/Order.antt =====
-- The order of byte slices, and insertion into a sorted list.
use Prim.Native.Nat.{ℕ}
use mathlib.Core.Path.{◌≡◌, refl, ap₂}
use mathlib.Core.Bool.{Bool, true, false, ◌&&◌, ◌||◌}
use mathlib.Core.List.{List, [], ◌∷◌}
use native.Mathlib.Omega.{arith}
use sigmacatch.Prelude.Tests.{◌==◌, if◌then◌else◌, ltb}

abbrev pub bytes_leb : List ℕ → List ℕ → Bool
bytes_leb [] ys = true
bytes_leb (x ∷ xs) [] = false
bytes_leb (x ∷ xs) (y ∷ ys) = ltb x y || ((x == y) && bytes_leb xs ys)

pub bytes_leb_total : (xs ys : List ℕ) → bytes_leb xs ys ≡ false → bytes_leb ys xs ≡ true
bytes_leb_total [] ys h = cc
bytes_leb_total (x ∷ xs) [] h = refl
bytes_leb_total (x ∷ xs) (y ∷ ys) h = ground (arith, bytes_leb_total xs ys)

pub bytes_leb_trans :
    (xs ys zs : List ℕ) → bytes_leb xs ys ≡ true → bytes_leb ys zs ≡ true → bytes_leb xs zs ≡ true
bytes_leb_trans [] ys zs h k = refl
bytes_leb_trans (x ∷ xs) [] zs h k = absurd (cc)
bytes_leb_trans (x ∷ xs) (y ∷ ys) [] h k = absurd (cc)
bytes_leb_trans (x ∷ xs) (y ∷ ys) (z ∷ zs) h k = ground (arith, bytes_leb_trans xs ys zs)

pub bytes_leb_antisym : (xs ys : List ℕ) → bytes_leb xs ys ≡ true → bytes_leb ys xs ≡ true → xs ≡ ys
bytes_leb_antisym [] [] h k = refl
bytes_leb_antisym [] (y ∷ ys) h k = absurd (cc)
bytes_leb_antisym (x ∷ xs) [] h k = absurd (cc)
bytes_leb_antisym (x ∷ xs) (y ∷ ys) h k =
    let heads : x ≡ y = ground arith in
    let tails : xs ≡ ys = bytes_leb_antisym xs ys (ground arith) (ground arith) in
    ap₂ (λ a b. a ∷ b) heads tails

-- Insertion into a sorted list of byte slices.
abbrev pub insert_bytes : List ℕ → List (List ℕ) → List (List ℕ)
insert_bytes a [] = a ∷ []
insert_bytes a (b ∷ bs) =
    let rest = insert_bytes a bs in if bytes_leb a b then a ∷ b ∷ bs else b ∷ rest

pub insert_bytes_comm :
    (a b : List ℕ) (l : List (List ℕ))
    → insert_bytes a (insert_bytes b l) ≡ insert_bytes b (insert_bytes a l)
insert_bytes_comm a b [] = ground (arith, bytes_leb_total a b, bytes_leb_antisym a b)
insert_bytes_comm a b (c ∷ l) = ground (
  arith,
  bytes_leb_total a b,
  bytes_leb_total b a,
  bytes_leb_antisym a b,
  bytes_leb_trans a b c,
  bytes_leb_trans b a c,
  insert_bytes_comm a b l,
)
