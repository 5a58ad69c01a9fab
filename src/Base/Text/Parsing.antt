-- ===== src/Base/Text/Parsing.antt =====
-- Reading an unsigned number of 64 bits, as `str::parse` does.
use Prim.Native.Nat.{ℕ, zero, suc, ◌+◌, ◌-◌, ◌*◌, ◌/◌, ◌%◌, ◌<◌}
use Prim.Native.Char.{Char, code}
use Prim.Native.String.{String}
use mathlib.Core.Option.{Option, none, some}
use mathlib.Core.Path.{◌≡◌, refl, ◌∙◌, ap}
use mathlib.Core.Logic.{inl, inr}
use mathlib.Core.Bool.{Bool, true, false, ◌&&◌}
use xola.Base.Tests.{
  ltb, leb, ◌==◌, if◌then◌else◌, Bool-cases, ==_iff, lt→ltb, ltb→lt, ltb_false→le,
}
use xola.Base.Time.{word_count}
use xola.Base.Text.{◌<>◌, to_decimal, decimal, digit}
use native.Mathlib.Omega.{arith}

-- The digits that are left, after those of a number; a number that does not fit is an error.
unfoldable pub parse_digits : String → ℕ → Option ℕ
parse_digits String.[] n = some n
parse_digits (String.◌∷◌ c s) n =
    let m = n * 10 + (code c - 48) in
    let rest = parse_digits s m in
    if leb 48 (code c) && leb (code c) 57 && ltb m word_count then rest else none

-- s.parse::<u64>().ok()
unfoldable pub parse_u64 : String → Option ℕ
unfolding parse_digits
parse_u64 String.[] = none
parse_u64 (String.◌∷◌ c String.[]) = parse_digits (String.◌∷◌ c String.[]) 0
parse_u64 (String.◌∷◌ c (String.◌∷◌ d s)) =
    if code c == 43
    then parse_digits (String.◌∷◌ d s) 0
    else parse_digits (String.◌∷◌ c (String.◌∷◌ d s)) 0

parse-digit :
    (d n : ℕ) (s : String)
    → d < 10
    → n * 10 + d < word_count
    → parse_digits (digit d <> s) n ≡ parse_digits s (n * 10 + d)
unfolding parse_digits ◌<>◌
parse-digit zero n s h fits = rw (lt→ltb (n * 10 + 0) word_count fits) refl
parse-digit (suc zero) n s h fits = rw (lt→ltb (n * 10 + 1) word_count fits) refl
parse-digit (suc (suc zero)) n s h fits = rw (lt→ltb (n * 10 + 2) word_count fits) refl
parse-digit (suc (suc (suc zero))) n s h fits = rw (lt→ltb (n * 10 + 3) word_count fits) refl
parse-digit (suc (suc (suc (suc zero)))) n s h fits = rw (lt→ltb (n * 10 + 4) word_count fits) refl
parse-digit (suc (suc (suc (suc (suc zero))))) n s h fits =
    rw (lt→ltb (n * 10 + 5) word_count fits) refl
parse-digit (suc (suc (suc (suc (suc (suc zero)))))) n s h fits =
    rw (lt→ltb (n * 10 + 6) word_count fits) refl
parse-digit (suc (suc (suc (suc (suc (suc (suc zero))))))) n s h fits =
    rw (lt→ltb (n * 10 + 7) word_count fits) refl
parse-digit (suc (suc (suc (suc (suc (suc (suc (suc zero)))))))) n s h fits =
    rw (lt→ltb (n * 10 + 8) word_count fits) refl
parse-digit (suc (suc (suc (suc (suc (suc (suc (suc (suc zero))))))))) n s h fits =
    rw (lt→ltb (n * 10 + 9) word_count fits) refl
parse-digit (suc (suc (suc (suc (suc (suc (suc (suc (suc (suc d)))))))))) n s h fits =
    absurd (omega arith)

-- The digits before an accumulator, read after no others, are those of the number.
parse_digits-decimal :
    (f n : ℕ) (acc : String)
    → n < f
    → n < word_count
    → parse_digits (decimal f n acc) 0 ≡ parse_digits acc n
unfolding decimal
parse_digits-decimal zero n acc h fits = absurd (omega arith)
parse_digits-decimal (suc f) n acc h fits = elim (Bool-cases (ltb n 10)) [
  | inl last ↦
      let small = ltb→lt n 10 last in
      rw last (
        parse-digit (n % 10) 0 acc (omega arith) (omega arith)
        ∙ ap (parse_digits acc) (omega arith))
  | inr more ↦
      let big = ltb_false→le n 10 more in
      rw more (
        parse_digits-decimal f (n / 10) (digit (n % 10) <> acc) (omega arith) (omega arith)
        ∙ parse-digit (n % 10) (n / 10) acc (omega arith) (omega arith)
        ∙ ap (parse_digits acc) (omega arith))
]

abbrev is_empty : String → Bool
is_empty String.[] = true
is_empty (String.◌∷◌ c s) = false

is_empty-digit : (d : ℕ) (acc : String) → d < 10 → is_empty (digit d <> acc) ≡ false
unfolding ◌<>◌
is_empty-digit zero acc h = refl
is_empty-digit (suc zero) acc h = refl
is_empty-digit (suc (suc zero)) acc h = refl
is_empty-digit (suc (suc (suc zero))) acc h = refl
is_empty-digit (suc (suc (suc (suc zero)))) acc h = refl
is_empty-digit (suc (suc (suc (suc (suc zero))))) acc h = refl
is_empty-digit (suc (suc (suc (suc (suc (suc zero)))))) acc h = refl
is_empty-digit (suc (suc (suc (suc (suc (suc (suc zero))))))) acc h = refl
is_empty-digit (suc (suc (suc (suc (suc (suc (suc (suc zero)))))))) acc h = refl
is_empty-digit (suc (suc (suc (suc (suc (suc (suc (suc (suc zero))))))))) acc h = refl
is_empty-digit (suc (suc (suc (suc (suc (suc (suc (suc (suc (suc d)))))))))) acc h =
    absurd (omega arith)

is_empty-decimal : (f n : ℕ) (acc : String) → n < f → is_empty (decimal f n acc) ≡ false
unfolding decimal
is_empty-decimal zero n acc h = absurd (omega arith)
is_empty-decimal (suc f) n acc h = elim (Bool-cases (ltb n 10)) [
  | inl last ↦ rw last (is_empty-digit (n % 10) acc (omega arith))
  | inr more ↦
      let big = ltb_false→le n 10 more in
      rw more (is_empty-decimal f (n / 10) (digit (n % 10) <> acc) (omega arith))
]

parse_digits-plus : (c : Char) (s : String) → code c ≡ 43 → parse_digits (String.◌∷◌ c s) 0 ≡ none
unfolding parse_digits
parse_digits-plus c s e = rw e refl

parse_u64-parse_digits :
    (s : String) (n : ℕ) → is_empty s ≡ false → parse_digits s 0 ≡ some n → parse_u64 s ≡ some n
unfolding parse_u64
parse_u64-parse_digits String.[] n full q = cc
parse_u64-parse_digits (String.◌∷◌ c String.[]) n full q = q
parse_u64-parse_digits (String.◌∷◌ c (String.◌∷◌ d s)) n full q = elim (Bool-cases (code c == 43)) [
  | inl plus ↦ cc (parse_digits-plus c (String.◌∷◌ d s) ((==_iff (code c) 43).0 plus), q)
  | inr digit_first ↦ rw digit_first q
]

-- A number of 64 bits is read from what it is written as.
pub parse_u64-to_decimal : (n : ℕ) → n < word_count → parse_u64 (to_decimal n) ≡ some n
unfolding to_decimal parse_digits
parse_u64-to_decimal n fits =
    parse_u64-parse_digits (decimal (suc n) n "") n (is_empty-decimal (suc n) n "" (omega arith))
      (parse_digits-decimal (suc n) n "" (omega arith) fits)
