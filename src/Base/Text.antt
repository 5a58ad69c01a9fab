-- ===== src/Base/Text.antt =====
-- Rust strings: their length in bytes of UTF-8, byte slices, and `Display` of numbers.
pub mod Slices
pub mod Parsing
use Prim.Native.Nat.{ℕ, zero, suc, ◌+◌, ◌-◌, ◌/◌, ◌%◌, ◌<◌}
use Prim.Native.Char.{code}
use Prim.Native.String.{String}
use mathlib.Core.Option
use mathlib.Core.Option.{Option, none, some}
use xola.Base.Tests.{ltb, ◌==◌, if◌then◌else◌}
use mathlib.Core.Path.{◌≡◌, refl, ap}
use native.Mathlib.Omega.{arith}

-- The bytes that a code point takes in UTF-8.
abbrev pub len_utf8 : ℕ → ℕ
len_utf8 c = if ltb c 0x80 then 1 else if ltb c 0x800 then 2 else if ltb c 0x10000 then 3 else 4

-- s.len()
unfoldable pub len : String → ℕ
len String.[] = 0
len (String.◌∷◌ c s) = len_utf8 (code c) + len s

-- a followed by b
infixr 60 ◌<>◌
unfoldable pub ◌<>◌ : String → String → String
String.[] <> t = t
(String.◌∷◌ c s) <> t = String.◌∷◌ c (s <> t)

pub concat_assoc : (a b c : String) → (a <> b) <> c ≡ a <> (b <> c)
unfolding ◌<>◌
concat_assoc String.[] b c = refl
concat_assoc (String.◌∷◌ d a) b c = ap (String.◌∷◌ d) (concat_assoc a b c)

pub concat_empty : (a : String) → a <> String.[] ≡ a
unfolding ◌<>◌
concat_empty String.[] = refl
concat_empty (String.◌∷◌ d a) = ap (String.◌∷◌ d) (concat_empty a)

-- &s[..n], which panics past the end and inside a character.
unfoldable pub slice_to : ℕ → String → Option String
slice_to zero s = some String.[]
slice_to (suc n) String.[] = none
slice_to (suc n) (String.◌∷◌ c s) =
    let rest = slice_to (suc n - len_utf8 (code c)) s in
    if ltb (suc n) (len_utf8 (code c)) then none else Option.map (String.◌∷◌ c) rest

-- The decimal digit of a number below ten.
abbrev digit : ℕ → String
digit d =
    if d == 0
    then "0"
    else if d == 1
    then "1"
    else if d == 2
    then "2"
    else if d == 3
    then "3"
    else if d == 4
    then "4"
    else if d == 5
    then "5"
    else if d == 6
    then "6"
    else if d == 7
    then "7"
    else if d == 8
    then "8"
    else "9"

decimal : ℕ → ℕ → String → String
decimal zero n acc = acc
decimal (suc fuel) n acc =
    let text = digit (n % 10) <> acc in
    let rest = decimal fuel (n / 10) text in if ltb n 10 then text else rest

-- n.to_string() of an unsigned number; the fuel exceeds the number of digits.
unfoldable pub to_decimal : ℕ → String
unfolding decimal ◌<>◌
to_decimal n = decimal (suc n) n ""

-- Any two fuels above the number give the same digits.
decimal_fuel : (f g n : ℕ) (acc : String) → n < f → n < g → decimal f n acc ≡ decimal g n acc
unfolding decimal
decimal_fuel zero g n acc h k = absurd (omega arith)
decimal_fuel (suc f) zero n acc h k = absurd (omega arith)
decimal_fuel (suc f) (suc g) n acc h k =
    ground (arith, decimal_fuel f g (n / 10) (digit (n % 10) <> acc))

to_decimal_4096 : to_decimal 4096 ≡ "4096"
unfolding to_decimal
to_decimal_4096 = refl
