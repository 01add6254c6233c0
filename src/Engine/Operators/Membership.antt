-- ===== src/Engine/Operators/Membership.antt =====
-- src/engine/operators/list.operator.ts
use complif_techinical_chall.Base.{Bool, true, false, not, any}
use complif_techinical_chall.Common.Value.{Value, arr, items, strict_eq}

-- the facts of these four are truth values: whether the value stands on the list
unfoldable pub in_blacklist : Value → Value → Bool
unfolding strict_eq
in_blacklist fact compare_value = strict_eq fact compare_value

unfoldable pub not_in_blacklist : Value → Value → Bool
unfolding strict_eq
not_in_blacklist fact compare_value = not (strict_eq fact compare_value)

unfoldable pub in_whitelist : Value → Value → Bool
unfolding strict_eq
in_whitelist fact compare_value = strict_eq fact compare_value

unfoldable pub not_in_whitelist : Value → Value → Bool
unfolding strict_eq
not_in_whitelist fact compare_value = not (strict_eq fact compare_value)

unfoldable pub contains_value : Value → Value → Bool
contains_value (arr vs) compare_value = any (λ v. strict_eq v compare_value) (items vs)
contains_value _ compare_value = false

unfoldable pub not_contains_value : Value → Value → Bool
not_contains_value (arr vs) compare_value = not (any (λ v. strict_eq v compare_value) (items vs))
not_contains_value _ compare_value = true
