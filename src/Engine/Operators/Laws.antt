-- ===== src/Engine/Operators/Laws.antt =====
-- What the operators mean: negated pairs, lists of countries, bounds.
use complif_techinical_chall.Base.{
  ◌≡◌, refl, Bool, true, false, not, ◌&&◌, ◌||◌, String, any, arith, map, is_empty, to_upper_case,
  codes_eq, codes_eq_symm, codes_eq-upper_nil, ap₂, sym, ◌∙◌, if-eq, if◌then◌else◌,
}
use complif_techinical_chall.Common.Value.{
  Value, str, arr, obj, Items, nil, cons, Fields, items, get_value,
}
use complif_techinical_chall.Engine.Operators.Aggregation.{
  sum_greater_than_or_equal, min_less_than_or_equal, amount_between, between-bounds,
}
use complif_techinical_chall.Engine.Operators.Membership.{contains_value, not_contains_value}
use complif_techinical_chall.Engine.Operators.Geolocation.{
  in_country, not_in_country, is_high_risk_country, upper_or_empty,
}

-- `notInCountry` is the negation of `inCountry`, whatever the fact's value and the rule's are.
pub not_in_country-not : (fact v : Value) → not_in_country fact v ≡ not (in_country fact v)
unfolding in_country not_in_country
not_in_country-not (str s) (arr vs) = ground arith
not_in_country-not (str s) v = ground arith
not_in_country-not _ v = refl

-- `notContainsValue` is the negation of `containsValue`, also where the fact is no array.
pub not_contains_value-not :
    (fact v : Value) → not_contains_value fact v ≡ not (contains_value fact v)
unfolding contains_value not_contains_value
not_contains_value-not (arr vs) v = refl
not_contains_value-not _ v = refl

-- `amountBetween` against an object is `>=` its `min` together with `<=` its `max`, and it is
-- false where any of the three is no number.
pub amount_between-bounds :
    (fact : Value) (o : Fields)
    → amount_between fact (obj o) ≡ (
        sum_greater_than_or_equal fact (get_value "min" o)
        && min_less_than_or_equal fact (get_value "max" o))
unfolding amount_between
amount_between-bounds fact o = between-bounds fact (get_value "min" o) (get_value "max" o) o

-- A member of a list that is no text.
pub is_text : Value → Bool
is_text (str s) = true
is_text _ = false

member-in_country :
    (s : String) (v : Value)
    → is_empty s ≡ false
    → codes_eq (upper_or_empty v) (to_upper_case s) ≡ (is_text v && in_country (str s) v)
unfolding in_country is_text
member-in_country s (str t) h = rw h (codes_eq_symm (to_upper_case t) (to_upper_case s))
member-in_country s v h = codes_eq-upper_nil s h

any-in_country :
    (s : String) (vs : Items)
    → is_empty s ≡ false
    → any (λ c. codes_eq c (to_upper_case s)) (map upper_or_empty (items vs))
      ≡ any (λ v. is_text v && in_country (str s) v) (items vs)
any-in_country s nil h = refl
any-in_country s (cons v vs) h = ap₂ ◌||◌ (member-in_country s v h) (any-in_country s vs h)

in_country-if :
    (s : String) (vs : Items)
    → in_country (str s) (arr vs) ≡ (
        if is_empty s
        then false
        else any (λ c. codes_eq c (to_upper_case s)) (map upper_or_empty (items vs)))
unfolding in_country
in_country-if s vs = refl

any-in_country_empty :
    (s : String) (vs : Items)
    → is_empty s ≡ true
    → any (λ v. is_text v && in_country (str s) v) (items vs) ≡ false
unfolding in_country is_text
any-in_country_empty s nil h = refl
any-in_country_empty s (cons (str t) vs) h = rw h (any-in_country_empty s vs h)
any-in_country_empty s (cons v vs) h = any-in_country_empty s vs h

-- A fact that is a text is in a list of countries exactly when it is in one of the list's texts;
-- members that are no text never match, and an empty fact is in no list.
pub in_country-arr :
    (s : String) (vs : Items)
    → in_country (str s) (arr vs) ≡ any (λ v. is_text v && in_country (str s) v) (items vs)
in_country-arr s vs =
    in_country-if s vs
    ∙ if-eq (is_empty s) (λ h. sym (any-in_country_empty s vs h)) (any-in_country s vs)

-- `isHighRiskCountry` is `inCountry` restricted to lists.
pub is_high_risk_country-arr :
    (fact : Value) (vs : Items) → is_high_risk_country fact (arr vs) ≡ in_country fact (arr vs)
unfolding in_country is_high_risk_country
is_high_risk_country-arr (str s) vs = refl
is_high_risk_country-arr _ vs = refl
