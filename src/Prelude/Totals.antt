-- ===== src/Prelude/Totals.antt =====
-- The sum of a map of numbers, where no key stands twice.

use seckill_go.Prelude.Maps.{Assoc, lookup, insert, delete, lookup-insert, lookup-delete}
use Prim.Native.Nat.{ℕ, ◌+◌}
use Prim.Native.String.{String}
use mathlib.Core.Path.{◌≡◌, refl}
use mathlib.Core.Option.{none, some}
use mathlib.Core.List.{[], ◌∷◌}
use native.Mathlib.Omega.{arith}
use text.Mathlib.TextEquality.{eq_iff}

unfoldable pub sum : Assoc ℕ → ℕ
sum [] = 0
sum ((k, v) ∷ m) = v + sum m

abbrev pub IsUnique : Assoc ℕ → Type 0
IsUnique [] = Unit
IsUnique ((k, v) ∷ m) = (lookup k m ≡ none) × IsUnique m

pub sum-empty : sum [] ≡ 0
unfolding sum
sum-empty = refl

pub sum-insert :
    (k : String) (v : ℕ) (m : Assoc ℕ) → lookup k m ≡ none → sum (insert k v m) ≡ sum m + v
unfolding sum lookup insert
sum-insert k v [] h = omega arith
sum-insert k v ((j, w) ∷ m) h = ground (arith, sum-insert k v m)

pub sum-delete_absent : (k : String) (m : Assoc ℕ) → lookup k m ≡ none → sum (delete k m) ≡ sum m
unfolding sum lookup delete
sum-delete_absent k [] h = refl
sum-delete_absent k ((j, w) ∷ m) h = ground (arith, sum-delete_absent k m)

pub sum-delete :
    (k : String) (v : ℕ) (m : Assoc ℕ)
    → IsUnique m
    → lookup k m ≡ some v
    → sum (delete k m) + v ≡ sum m
unfolding sum lookup delete
sum-delete k v [] u h = absurd (ground arith)
sum-delete k v ((j, w) ∷ m) u h =
    ground (arith, eq_iff j k, sum-delete_absent k m, sum-delete k v m)

pub insert-IsUnique : (k : String) (v : ℕ) (m : Assoc ℕ) → IsUnique m → IsUnique (insert k v m)
unfolding lookup insert
insert-IsUnique k v [] u = ground arith
insert-IsUnique k v ((j, w) ∷ m) u =
    ground (arith, eq_iff j k, eq_iff k j, insert-IsUnique k v m, lookup-insert k j v m)

pub delete-IsUnique : (k : String) (m : Assoc ℕ) → IsUnique m → IsUnique (delete k m)
unfolding delete
delete-IsUnique k [] u = tt
delete-IsUnique k ((j, w) ∷ m) u =
    ground (arith, eq_iff k j, delete-IsUnique k m, lookup-delete k j m)
