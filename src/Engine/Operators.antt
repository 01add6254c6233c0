-- ===== src/Engine/Operators.antt =====
-- The operators that rules may use beside those of json-rules-engine
-- (src/engine/operators/*.operator.ts and index.ts).
pub mod Aggregation
pub mod Membership
pub mod Geolocation
pub mod Laws
pub mod Registration
use complif_techinical_chall.Base.{String, List, [], ◌∷◌, ◌++◌, Bool}
use complif_techinical_chall.Common.Value.{Value}
use Aggregation
use Membership
use Geolocation

-- `Operator` of json-rules-engine: a name and a test of the fact's value against the rule's.
pub record Operator : Type 0 where
  pub name : String
  pub evaluate : Value → Value → Bool

abbrev operator : String → (Value → Value → Bool) → Operator
operator name evaluate = record { name = name; evaluate = evaluate }

abbrev pub aggregation_operators : List Operator
aggregation_operators =
    operator "sumGreaterThan" Aggregation.sum_greater_than
    ∷ operator "sumGreaterThanOrEqual" Aggregation.sum_greater_than_or_equal
    ∷ operator "countGreaterThan" Aggregation.count_greater_than
    ∷ operator "countGreaterThanOrEqual" Aggregation.count_greater_than_or_equal
    ∷ operator "avgGreaterThan" Aggregation.avg_greater_than
    ∷ operator "avgGreaterThanOrEqual" Aggregation.avg_greater_than_or_equal
    ∷ operator "maxGreaterThan" Aggregation.max_greater_than
    ∷ operator "maxGreaterThanOrEqual" Aggregation.max_greater_than_or_equal
    ∷ operator "minLessThan" Aggregation.min_less_than
    ∷ operator "minLessThanOrEqual" Aggregation.min_less_than_or_equal
    ∷ operator "amountBetween" Aggregation.amount_between
    ∷ []

abbrev pub list_operators : List Operator
list_operators =
    operator "inBlacklist" Membership.in_blacklist
    ∷ operator "notInBlacklist" Membership.not_in_blacklist
    ∷ operator "inWhitelist" Membership.in_whitelist
    ∷ operator "notInWhitelist" Membership.not_in_whitelist
    ∷ operator "containsValue" Membership.contains_value
    ∷ operator "notContainsValue" Membership.not_contains_value
    ∷ []

abbrev pub geolocation_operators : List Operator
geolocation_operators =
    operator "inCountry" Geolocation.in_country
    ∷ operator "notInCountry" Geolocation.not_in_country
    ∷ operator "isHighRiskCountry" Geolocation.is_high_risk_country
    ∷ []

abbrev pub all_operators : List Operator
all_operators = aggregation_operators ++ (list_operators ++ geolocation_operators)

-- `engine.addOperator` for each operator of a list, on the operators that the engine has
unfoldable pub add_operators : List Operator → List Operator → List Operator
add_operators [] engine = engine
add_operators (o ∷ os) engine = add_operators os (engine ++ o ∷ [])

unfoldable pub register_all_operators : List Operator → List Operator
unfolding add_operators
register_all_operators engine =
    add_operators geolocation_operators
      (add_operators list_operators (add_operators aggregation_operators engine))
