-- ===== src/Engine/Operators/Geolocation.antt =====
-- src/engine/operators/geolocation.operator.ts
use complif_techinical_chall.Base.{
  ℕ, Bool, true, false, not, List, [], any, map, codes_eq, to_upper_case, is_empty, if◌then◌else◌,
}
use complif_techinical_chall.Common.Value.{Value, str, arr, Items, items}

-- typeof c === 'string' ? c.toUpperCase() : ''
abbrev pub upper_or_empty : Value → List ℕ
upper_or_empty (str s) = to_upper_case s
upper_or_empty _ = []

-- the list, each member in upper case, `includes` the normalized fact
abbrev includes : Items → List ℕ → Bool
includes vs normalized = any (λ c. codes_eq c normalized) (map upper_or_empty (items vs))

-- `factValue` is a text
in_country_text : List ℕ → Value → Bool
in_country_text normalized (arr vs) = includes vs normalized
in_country_text normalized (str s) = codes_eq normalized (to_upper_case s)
in_country_text normalized _ = false

unfoldable pub in_country : Value → Value → Bool
unfolding in_country_text
in_country (str s) compare_value =
    if is_empty s then false else in_country_text (to_upper_case s) compare_value
in_country _ compare_value = false

not_in_country_text : List ℕ → Value → Bool
not_in_country_text normalized (arr vs) = not (includes vs normalized)
not_in_country_text normalized (str s) = not (codes_eq normalized (to_upper_case s))
not_in_country_text normalized _ = true

unfoldable pub not_in_country : Value → Value → Bool
unfolding not_in_country_text
not_in_country (str s) compare_value =
    if is_empty s then true else not_in_country_text (to_upper_case s) compare_value
not_in_country _ compare_value = true

is_high_risk_text : List ℕ → Value → Bool
is_high_risk_text normalized (arr vs) = includes vs normalized
is_high_risk_text normalized _ = false

unfoldable pub is_high_risk_country : Value → Value → Bool
unfolding is_high_risk_text
is_high_risk_country (str s) high_risk_list =
    if is_empty s then false else is_high_risk_text (to_upper_case s) high_risk_list
is_high_risk_country _ high_risk_list = false
