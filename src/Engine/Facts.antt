-- ===== src/Engine/Facts.antt =====
-- The facts that the engine computes on demand (src/engine/facts/*.fact.ts and
-- src/engine/interfaces/fact-provider.interface.ts).
pub mod Bounds
pub mod History
use complif_techinical_chall.Base.{
  ℕ, ◌-◌, ◌*◌, String, ◌==◌, ◌&&◌, Bool, false, Option, none, some, get_or, if◌then◌else◌,
}
use complif_techinical_chall.Base.Int.{ℤ, pos}
use complif_techinical_chall.Common.Value.{
  Value, bool, num, str, obj, Fields, end, field, member, strict_eq, truthy,
}
use complif_techinical_chall.Common.Exec.{Result, ok, err, result_of}
use complif_techinical_chall.Entities.{ListType, EntityType}
use complif_techinical_chall.World.{World, Repositories}
use complif_techinical_chall.Lists
use Prim.Native.Nat.{min}

-- `almanac.factValue`, of json-rules-engine
abbrev pub Almanac : Type 0
Almanac = String → Result Value

-- the cast of a fact to a text
abbrev pub as_text : Value → String
as_text (str s) = s
as_text _ = ""

pub record TransactionHistoryParams : Type 0 where
  pub aggregation : String
  pub column : Option String
  pub time_window_days : ℕ
  pub transaction_type : Option String
  pub account_id : Option String

pub record AccountParams : Type 0 where
  pub account_id : String
  pub column : Option String

-- a text, or the reference to a fact
pub data LookupValue : Type 0 where
  static fact_reference : String → LookupValue

pub record ListLookupParams : Type 0 where
  pub list_type : ListType
  pub entity_type : EntityType
  pub value : LookupValue

pub data Aggregate : Type 0 where
  sum avg max_of min_of : String → Aggregate
  count : Aggregate

-- The query that `calculate` builds: rows of the account that are neither voided nor deleted, later
-- than `start_date`, and of the type if one is given.
pub record HistoryQuery : Type 0 where
  pub organization_id : String
  pub account_id : String
  pub start_date : ℕ
  pub transaction_type : Option String
  pub select : Aggregate

-- fieldMap[field] || 'amountNormalized'
unfoldable pub get_property_name : String → String
get_property_name column = if column == "amount" then "amount" else "amountNormalized"

-- the `switch` on the aggregation; `none` is its default
unfoldable pub select_of : String → String → Option Aggregate
unfolding get_property_name
select_of aggregation column =
    if aggregation == "sum"
    then some (sum (get_property_name column))
    else if aggregation == "count"
    then some count
    else if aggregation == "avg"
    then some (avg (get_property_name column))
    else if aggregation == "max"
    then some (max_of (get_property_name column))
    else if aggregation == "min"
    then some (min_of (get_property_name column))
    else none

abbrev pub non_empty : Option String → Option String
non_empty none = none
non_empty (some s) = if s == "" then none else some s

abbrev pub day_ms : ℕ
day_ms = 86400000

module _ {A B : Type 0} where
  abbrev pub bind : Result A → (A → Result B) → Result B
  bind (ok a) f = f a
  bind (err e) f = err e

-- params.accountId, or else the account of the current transaction
unfoldable pub account_of : TransactionHistoryParams → Almanac → Result (Option String)
account_of params almanac = elim (non_empty params.account_id) [
  | some id ↦ ok (some id)
  | none ↦
      bind (almanac "transaction.idAccount") λ v. ok (if truthy v then some (as_text v) else none)
]

module _ {Db : Type 0} (aggregate : HistoryQuery → Db → Result (Option ℤ)) where
  -- the rows' aggregate, 0 where there is no result
  abbrev run_query : HistoryQuery → Db → Result Value
  run_query q d = bind (aggregate q d) λ r. ok (num (get_or r (pos 0)))

  -- the query behind the account, over the rows later than a time
  unfoldable history : ℕ → TransactionHistoryParams → String → Option String → Db → Result Value
  history start_date params organization_id none d = ok (num (pos 0))
  history start_date params organization_id (some account_id) d =
      elim (select_of params.aggregation (get_or params.column "amountNormalized")) [
        | none ↦ ok (num (pos 0))
        | some select ↦
            run_query
              (record {
                organization_id = organization_id;
                account_id = account_id;
                start_date = start_date;
                transaction_type = non_empty params.transaction_type;
                select = select;
              })
              d
      ]

  -- TransactionHistoryFact.calculate
  unfoldable pub transaction_history :
      ℕ → ℕ → TransactionHistoryParams → Almanac → String → Db → Result Value
  unfolding account_of history select_of
  transaction_history max_days now params almanac organization_id d =
      bind (account_of params almanac) λ account_id.
        history (now - min params.time_window_days max_days * day_ms) params organization_id
          account_id d

unfoldable pub mock_account : String → Fields
mock_account account_id = field "id" (str account_id) (
    field "type" (str "INDIVIDUAL") (
      field "status" (str "ACTIVE") (
        field "country" (str "US")
          (field "riskScore" (num (pos 500000)) (field "data" (obj end) end)))))

-- the account itself, or the one field that is asked for
abbrev project : Option String → Value → Value
project none account = account
project (some column) account = if column == "" then account else member account column

abbrev is_account : Value → String → Bool
is_account account account_id = truthy account && strict_eq (member account "id") (str account_id)

-- AccountFact.calculate: the account of the context, if it is the one asked for, else the mock
unfoldable pub account : AccountParams → Almanac → Result Value
unfolding member truthy strict_eq mock_account
account params almanac = elim (almanac "context") [
  | err e ↦ ok (project params.column (obj (mock_account params.account_id)))
  | ok context ↦ ok (
      if is_account (member context "account") params.account_id
      then project params.column (member context "account")
      else project params.column (obj (mock_account params.account_id)))
]

-- the value to look up; `none` where the fact that it refers to is missing
unfoldable pub resolve : LookupValue → Almanac → Result (Option String)
unfolding truthy
resolve (static value) almanac = ok (some value)
resolve (fact_reference fact) almanac =
    bind (almanac fact) λ v. ok (if truthy v then some (as_text v) else none)

module _ {Db Redis : Type 0} (repositories : Repositories Db) (null_matches : Option ℕ → Bool) where
  looked_up : ℕ → ListLookupParams → String → Option String → World Db Redis → Result Value
  looked_up now params organization_id none w = ok (bool false)
  looked_up now params organization_id (some value) w =
      bind
        (result_of
          (Lists.is_in_list repositories null_matches now organization_id params.list_type
            params.entity_type value)
          w)
        λ b. ok (bool b)

  -- ListLookupFact.calculate
  unfoldable pub list_lookup :
      ℕ → ListLookupParams → Almanac → String → World Db Redis → Result Value
  unfolding looked_up resolve
  list_lookup now params almanac organization_id w =
      bind (resolve params.value almanac) λ value. looked_up now params organization_id value w
