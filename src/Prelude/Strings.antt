-- ===== src/Prelude/Strings.antt =====
-- Python's order of strings, by code points, and decimal numerals.
use Prim.Native.Nat.{ℕ, zero, suc, ◌+◌, ◌/◌, ◌%◌, Ordering}
use Prim.Native.String.compare
use Prim.Native.String.{String, [], ◌∷◌, ◌++◌, compare as compare_text}
use mathlib.Core.Path.{◌≡◌, refl}
use mathlib.Core.Bool.{Bool, true, false}
use native.Mathlib.Omega.{arith}
use multi_agent_based_intell.Prelude.Tests.{nat_beq, ltb, if◌then◌else◌}

-- `a <= b`
abbrev pub str_le : String → String → Bool
str_le a b = elim (compare_text a b) [ Ordering.gt ↦ false | _ ↦ true ]

pub str_le_total : (a b : String) → str_le a b ≡ false → str_le b a ≡ true
str_le_total [] [] h = refl
str_le_total [] (d ∷ t) h = ground (arith, compare.nil-cons d t)
str_le_total (c ∷ s) [] h = ground (arith, compare.nil-cons c s)
str_le_total (c ∷ s) (d ∷ t) h =
    ground (arith, str_le_total s t, compare.cons-cons c d s t, compare.cons-cons d c t s)

pub str_le_trans : (a b c : String) → str_le a b ≡ true → str_le b c ≡ true → str_le a c ≡ true
str_le_trans [] b [] h k = refl
str_le_trans [] b (z ∷ u) h k = ground (arith, compare.nil-cons z u)
str_le_trans (x ∷ s) [] c h k = ground (arith, compare.cons-nil x s)
str_le_trans (x ∷ s) (y ∷ t) [] h k = ground (arith, compare.cons-nil y t)
str_le_trans (x ∷ s) (y ∷ t) (z ∷ u) h k = ground (
  arith,
  str_le_trans s t u,
  compare.cons-cons x y s t,
  compare.cons-cons y z t u,
  compare.cons-cons x z s u,
)

abbrev digit_text : ℕ → String
digit_text d =
    if nat_beq d 0
    then "0"
    else if nat_beq d 1
    then "1"
    else if nat_beq d 2
    then "2"
    else if nat_beq d 3
    then "3"
    else if nat_beq d 4
    then "4"
    else if nat_beq d 5
    then "5"
    else if nat_beq d 6
    then "6"
    else if nat_beq d 7
    then "7"
    else if nat_beq d 8
    then "8"
    else "9"

-- The decimal digits of a number; `fuel` bounds their number.
show_digits : ℕ → ℕ → String
show_digits zero n = ""
show_digits (suc fuel) n =
    let front = show_digits fuel (n / 10) in
    if ltb n 10 then digit_text n else front ++ digit_text (n % 10)

-- `str(n)`: a number has no more digits than its successor counts.
unfoldable pub show_nat : ℕ → String
unfolding show_digits
show_nat n = show_digits (n + 1) n

show_nat_runs : show_nat 1207 ≡ "1207"
unfolding show_nat
show_nat_runs = refl
