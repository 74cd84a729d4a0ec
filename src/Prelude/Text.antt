-- ===== src/Prelude/Text.antt =====
-- What the sources use of Go's `strings` and `fmt` on texts.
use Prim.Native.Nat.{ℕ, zero, suc, ◌/◌, ◌%◌}
use Prim.Native.Char.{code}
use Prim.Native.String.{String, ◌++◌ as append}
use mathlib.Core.Path.{◌≡◌, refl}
use mathlib.Core.Bool.{Bool, true, ◌||◌, ◌&&◌}
use text.Mathlib.Text.{◌==◌ as str_eq, starts_with}
use seckill_go.Prelude.Tests.{leb, ltb, ◌==◌, if◌then◌else◌}
use seckill_go.Prelude.Int.{ℤ, pos, negsuc}

-- `unicode.IsSpace`
is_space : ℕ → Bool
is_space c =
    leb 9 c && leb c 13
    || c == 32
    || c == 133
    || c == 160
    || c == 5760
    || leb 8192 c && leb c 8202
    || c == 8232
    || c == 8233
    || c == 8239
    || c == 8287
    || c == 12288

trim_left : String → String
unfolding is_space
trim_left String.[] = ""
trim_left (String.◌∷◌ c s) =
    let rest = trim_left s in if is_space (code c) then rest else String.◌∷◌ c s

trim_right : String → String
unfolding is_space
trim_right String.[] = ""
trim_right (String.◌∷◌ c s) =
    let rest = trim_right s in if str_eq rest "" && is_space (code c) then "" else String.◌∷◌ c rest

-- `strings.TrimSpace`
unfoldable pub trim_space : String → String
unfolding trim_left trim_right
trim_space s = trim_right (trim_left s)

-- `strings.Contains(s, part)`
unfoldable pub contains : String → String → Bool
contains String.[] part = str_eq part ""
contains (String.◌∷◌ c s) part = starts_with (String.◌∷◌ c s) part || contains s part

digit : ℕ → String
digit zero = "0"
digit (suc zero) = "1"
digit (suc (suc zero)) = "2"
digit (suc (suc (suc zero))) = "3"
digit (suc (suc (suc (suc zero)))) = "4"
digit (suc (suc (suc (suc (suc zero))))) = "5"
digit (suc (suc (suc (suc (suc (suc zero)))))) = "6"
digit (suc (suc (suc (suc (suc (suc (suc zero))))))) = "7"
digit (suc (suc (suc (suc (suc (suc (suc (suc zero)))))))) = "8"
digit _ = "9"

-- The decimal digits of a number; a number has fewer digits than the fuel that `decimal` gives.
decimal_from : ℕ → ℕ → String
unfolding digit
decimal_from zero n = ""
decimal_from (suc fuel) n =
    let rest = append (decimal_from fuel (n / 10)) (digit (n % 10)) in
    if ltb n 10 then digit n else rest

-- `%d`; an `int64` has at most nineteen digits.
unfoldable pub decimal : ℤ → String
unfolding decimal_from
decimal (pos n) = decimal_from 20 n
decimal (negsuc n) = append "-" (decimal_from 20 (suc n))

trim_space_test : trim_space "  a b " ≡ "a b"
unfolding trim_space
trim_space_test = refl

decimal_test : append (decimal (pos 1208)) (decimal (negsuc 41)) ≡ "1208-42"
unfolding decimal
decimal_test = refl

contains_test : contains "activity closed" "clos" ≡ true
unfolding contains
contains_test = refl
