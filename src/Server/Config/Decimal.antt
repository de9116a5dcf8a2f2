-- ===== src/Server/Config/Decimal.antt =====
-- The decimal text of a number, as `Display` writes it.
use Prim.Native.Nat.{◌/◌, ◌%◌}
use Prim.Native.String.{String, ◌++◌}
use enseada.Prelude.{
  ℕ, zero, suc, ◌<◌, ◌≤◌, ◌≡◌, arith, ltb, nat_eq, if◌then◌else◌, inl, inr, Bool-cases,
}

abbrev digit : ℕ → String
digit n =
    if nat_eq n 0
    then "0"
    else if nat_eq n 1
    then "1"
    else if nat_eq n 2
    then "2"
    else if nat_eq n 3
    then "3"
    else if nat_eq n 4
    then "4"
    else if nat_eq n 5
    then "5"
    else if nat_eq n 6
    then "6"
    else if nat_eq n 7
    then "7"
    else if nat_eq n 8
    then "8"
    else "9"

-- With fuel above the number.
digits_from : ℕ → ℕ → String
digits_from zero n = ""
digits_from (suc fuel) n =
    let front = digits_from fuel (n / 10) in if ltb n 10 then digit n else front ++ digit (n % 10)

unfoldable pub decimal : ℕ → String
unfolding digits_from
decimal n = digits_from (suc n) n

digits_enough : (j k n : ℕ) → n < j → n < k → digits_from j n ≡ digits_from k n
unfolding digits_from
digits_enough zero k n h i = absurd (omega arith)
digits_enough (suc j) zero n h i = absurd (omega arith)
digits_enough (suc j) (suc k) n h i = elim (Bool-cases (ltb n 10)) [
  | inl small ↦ ground arith
  | inr large ↦
      let big : 10 ≤ n = ground arith in
      ground (arith, digits_enough j k (n / 10) (omega arith) (omega arith))
]

-- The fuel is enough: the last digit stands behind the text of the number without it.
pub decimal_lem :
    (n : ℕ) → decimal n ≡ (if ltb n 10 then digit n else decimal (n / 10) ++ digit (n % 10))
unfolding decimal digits_from
decimal_lem n = elim (Bool-cases (ltb n 10)) [
  | inl small ↦ ground arith
  | inr large ↦
      let big : 10 ≤ n = ground arith in
      ground (arith, digits_enough n (suc (n / 10)) (n / 10) (omega arith) (omega arith))
]
