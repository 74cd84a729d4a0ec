-- ===== src/Prelude/Maps.antt =====
-- Go's maps with text keys, as association lists: `m[k]`, `m[k] = v` and `delete(m, k)`.
use Prim.Native.String.{String}
use mathlib.Core.Path.{◌≡◌, refl}
use mathlib.Core.Option.{Option, none, some}
use mathlib.Core.List.{List, [], ◌∷◌}
use text.Mathlib.Text.{◌==◌ as str_eq}
use text.Mathlib.TextEquality.{eq_iff}
use native.Mathlib.Omega.{arith}
use seckill_go.Prelude.Tests.{if◌then◌else◌}

abbrev pub Assoc {ℓ} : Type ℓ → Type ℓ
Assoc V = List (String × V)

module _ {ℓ} {V : Type ℓ} where
  -- `delete(m, key)`
  unfoldable pub delete : String → Assoc V → Assoc V
  delete key [] = []
  delete key ((at, x) ∷ rest) =
      let others = delete key rest in if str_eq at key then others else (at, x) ∷ others

  -- `m[key] = x`
  unfoldable pub insert : String → V → Assoc V → Assoc V
  insert key x [] = (key, x) ∷ []
  insert key x ((at, y) ∷ rest) =
      let others = insert key x rest in if str_eq at key then (key, x) ∷ rest else (at, y) ∷ others

  -- `m[key]`
  unfoldable pub lookup : String → Assoc V → Option V
  lookup key [] = none
  lookup key ((at, x) ∷ rest) =
      let other = lookup key rest in if str_eq at key then some x else other

  pub lookup-empty : (key : String) → lookup key [] ≡ none
  unfolding lookup
  lookup-empty key = refl

  pub lookup-delete :
      (key read : String) (m : Assoc V)
      → lookup read (delete key m) ≡ (if str_eq key read then none else lookup read m)
  unfolding lookup delete
  lookup-delete key read [] = ground arith
  lookup-delete key read ((at, x) ∷ rest) =
      ground (arith, lookup-delete key read rest, eq_iff at read, eq_iff at key, eq_iff key read)

  pub lookup-insert :
      (key read : String) (x : V) (m : Assoc V)
      → lookup read (insert key x m) ≡ (if str_eq key read then some x else lookup read m)
  unfolding lookup insert
  lookup-insert key read x [] = refl
  lookup-insert key read x ((at, y) ∷ rest) =
      ground (arith, lookup-insert key read x rest, eq_iff at read, eq_iff at key, eq_iff key read)

pub ruleset map_laws = (lookup-empty, lookup-insert, lookup-delete)
