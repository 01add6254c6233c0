-- ===== src/Engine/Operators/Aggregation.antt =====
-- src/engine/operators/aggregation.operator.ts
use complif_techinical_chall.Base.{
  Bool, true, false, not, ◌≡◌, refl, arith, ◌&&◌, ◌||◌, if◌then◌else◌,
}
use complif_techinical_chall.Base.Int.{ltb_ℤ, leb_ℤ}
use complif_techinical_chall.Common.Value.{Value, num, obj, Fields, member, truthy}

-- typeof value === 'number'
abbrev pub is_number : Value → Bool
is_number (num n) = true
is_number _ = false

-- a > b and a >= b, asked of numbers only
abbrev gt : Value → Value → Bool
gt (num a) (num b) = ltb_ℤ b a
gt _ _ = false

abbrev ge : Value → Value → Bool
ge (num a) (num b) = leb_ℤ b a
ge _ _ = false

unfoldable pub sum_greater_than : Value → Value → Bool
sum_greater_than fact compare_value =
    if not (is_number fact) || not (is_number compare_value) then false else gt fact compare_value

unfoldable pub sum_greater_than_or_equal : Value → Value → Bool
sum_greater_than_or_equal fact compare_value =
    if not (is_number fact) || not (is_number compare_value) then false else ge fact compare_value

unfoldable pub count_greater_than : Value → Value → Bool
count_greater_than fact compare_value =
    if not (is_number fact) || not (is_number compare_value) then false else gt fact compare_value

unfoldable pub count_greater_than_or_equal : Value → Value → Bool
count_greater_than_or_equal fact compare_value =
    if not (is_number fact) || not (is_number compare_value) then false else ge fact compare_value

unfoldable pub avg_greater_than : Value → Value → Bool
avg_greater_than fact compare_value =
    if not (is_number fact) || not (is_number compare_value) then false else gt fact compare_value

unfoldable pub avg_greater_than_or_equal : Value → Value → Bool
avg_greater_than_or_equal fact compare_value =
    if not (is_number fact) || not (is_number compare_value) then false else ge fact compare_value

unfoldable pub max_greater_than : Value → Value → Bool
max_greater_than fact compare_value =
    if not (is_number fact) || not (is_number compare_value) then false else gt fact compare_value

unfoldable pub max_greater_than_or_equal : Value → Value → Bool
max_greater_than_or_equal fact compare_value =
    if not (is_number fact) || not (is_number compare_value) then false else ge fact compare_value

unfoldable pub min_less_than : Value → Value → Bool
min_less_than fact compare_value =
    if not (is_number fact) || not (is_number compare_value) then false else gt compare_value fact

unfoldable pub min_less_than_or_equal : Value → Value → Bool
min_less_than_or_equal fact compare_value =
    if not (is_number fact) || not (is_number compare_value) then false else ge compare_value fact

-- the body of `amountBetween` once `min` and `max` are read
pub between : Value → Value → Value → Value → Bool
unfolding truthy
between fact compare_value lo hi =
    if not (is_number fact)
      || (not (truthy compare_value) || (not (is_number lo) || not (is_number hi)))
    then false
    else ge fact lo && ge hi fact

unfoldable pub amount_between : Value → Value → Bool
unfolding between member
amount_between fact compare_value =
    between fact compare_value (member compare_value "min") (member compare_value "max")

-- A range is two comparisons, each false where one of its sides is no number.
pub between-bounds :
    (fact lo hi : Value) (o : Fields)
    → between fact (obj o) lo hi
      ≡ (sum_greater_than_or_equal fact lo && min_less_than_or_equal fact hi)
unfolding between sum_greater_than_or_equal min_less_than_or_equal
between-bounds (num a) (num lo) (num hi) o = refl
between-bounds (num a) (num lo) hi o = ground arith
between-bounds (num a) lo hi o = ground arith
between-bounds _ lo hi o = refl
