-- ===== src/Tests/Validation.antt =====
-- A pipe that tests texts, and the columns of the rules.
use complif_techinical_chall.Base.{
  ℕ, ◌≤◌, ◌≡◌, refl, ap, String, Bool, true, false, not, leb, codes, length, is_empty, Option, none,
  some, List, arith, if◌then◌else◌, inl, inr, Bool-cases,
}
use complif_techinical_chall.Base.Int.{pos}
use mathlib.Core.List.{Memᴰ}
use complif_techinical_chall.Common.Value.{Fields, end, field, Value, str, num, put, get, get_value}
use complif_techinical_chall.Common.Exec.{Result, ok, err, bad_request}
use complif_techinical_chall.Startup.{ValidationOptions, use_validation_pipe, bootstrap}
use complif_techinical_chall.Validation.{IsClassValidator, is_valid, IsPipe}
use complif_techinical_chall.Validation.Schemas.{
  Check, is_string, is_not_empty, max_length, Property, create_transaction_dto,
}
use complif_techinical_chall.Validation.Columns.{EntityColumn, varchar}
use complif_techinical_chall.Validation.Fits.{
  create_rule, schema_of, columns_of, accepted-unowned, accepted-fits,
}
use complif_techinical_chall.Validation.Dates.{accepts-any_date}
use complif_techinical_chall.Migrations.Statements.{Column, column}
use complif_techinical_chall.Migrations.Conformance.{
  rules, entity_of, migrated, agrees, entity_of-migrated,
}

abbrev is_text : Value → Bool
is_text (str s) = true
is_text _ = false

abbrev non_empty : Value → Bool
non_empty (str s) = not (is_empty s)
non_empty _ = true

abbrev within : ℕ → Value → Bool
within n (str s) = leb (length (codes s)) n
within n _ = false

passes : Check → Value → Bool
passes is_string v = is_text v
passes is_not_empty v = non_empty v
passes (max_length n) v = within n v
passes _ v = true

text-of : (v : Value) → is_text v ≡ true → (s : String) × (v ≡ str s)
text-of (str s) h = (s, refl)
text-of _ h = absurd (cc)

passes-IsClassValidator : IsClassValidator passes
unfolding passes
passes-IsClassValidator = record {
  texts = text-of;
  lengths = λ n s h. ground arith;
  strings = λ s. refl;
  not_empty = λ s. refl;
}

pipe : ValidationOptions → List Property → Fields → Result Fields
pipe options schema body =
    if is_valid passes schema body then ok body else err (bad_request "Bad Request")

pipe-returns :
    (options : ValidationOptions) (schema : List Property) (body dto : Fields)
    → options.whitelist ≡ true
    → pipe options schema body ≡ ok dto
    → is_valid passes schema dto ≡ true
unfolding pipe
pipe-returns options schema body dto set h = elim (Bool-cases (is_valid passes schema body)) [
  | inl v ↦ ground (arith, ap (is_valid passes schema))
  | inr i ↦ absurd (ground arith)
]

pipe-accepts :
    (options : ValidationOptions) (schema : List Property) (body : Fields)
    → is_valid passes schema body ≡ true
    → pipe options schema body ≡ ok body
unfolding pipe
pipe-accepts options schema body h = rw h refl

pipe-IsPipe : IsPipe passes pipe
pipe-IsPipe = record { returns = pipe-returns; accepts = pipe-accepts }

abbrev options : ValidationOptions
options = record {
  whitelist = true;
  forbid_non_whitelisted = true;
  transform = true;
  enable_implicit_conversion = true;
}

abbrev unset : String → Option String
unset name = none

used : Memᴰ (use_validation_pipe options) (bootstrap unset unset)
unfolding bootstrap
used = search (Memᴰ.head, Memᴰ.tail) depth 8

abbrev rule_body : Fields
rule_body = field "name" (str "Large amount") end

rule_accepted : pipe options (schema_of create_rule) rule_body ≡ ok rule_body
unfolding pipe schema_of is_valid passes get_value is_empty
rule_accepted = refl

accepted-unowned_example : get "idOrganization" rule_body ≡ none
accepted-unowned_example =
    accepted-unowned passes pipe pipe-IsPipe unset unset options used create_rule rule_body
      rule_body rule_accepted "idOrganization" (Memᴰ.tail (Memᴰ.head refl))

abbrev name_column : EntityColumn
name_column = record {
  property = "name";
  name = "name";
  type = varchar 255;
  nullable = false;
  default = none;
}

name_stored : Memᴰ name_column (columns_of create_rule)
unfolding columns_of
name_stored = search (Memᴰ.head, Memᴰ.tail) depth 12

name_given : get_value "name" rule_body ≡ str "Large amount"
unfolding get_value
name_given = refl

accepted-fits_example : length (codes "Large amount") ≤ 255
accepted-fits_example =
    accepted-fits passes pipe pipe-IsPipe unset unset options used create_rule rule_body rule_body
      rule_accepted passes-IsClassValidator name_column 255 "Large amount" name_stored refl
      name_given

abbrev transaction_body : Fields
transaction_body = field "idAccount" (str "a1") (
    field "amount" (num (pos 120000)) (
      field "amountNormalized" (num (pos 120000)) (
        field "currency" (str "USD") (
          field "type" (str "CASH_IN") (
            field "datetime" (str "2024-03-05T14:30:00.000Z")
              (field "date" (str "2024-03-05") end))))))

transaction_valid : is_valid passes create_transaction_dto transaction_body ≡ true
unfolding is_valid create_transaction_dto passes get_value is_empty
transaction_valid = refl

accepts-any_date_example :
    pipe options create_transaction_dto (put "date" (str "soon") transaction_body)
    ≡ ok (put "date" (str "soon") transaction_body)
unfolding is_empty
accepts-any_date_example =
    accepts-any_date passes passes-IsClassValidator pipe pipe-IsPipe options transaction_body "soon"
      transaction_valid refl

name_declared : Memᴰ name_column (entity_of rules)
unfolding entity_of
name_declared = search (Memᴰ.head, Memᴰ.tail) depth 12

abbrev priority_column : Column
priority_column = column "priority" "integer" false (some "0")

priority_created : Memᴰ priority_column (migrated rules)
unfolding migrated
priority_created = search (Memᴰ.head, Memᴰ.tail) depth 14

entity_of-migrated_example :
    ((m : Column) × Memᴰ m (migrated rules) × (agrees name_column m ≡ true))
    × ((c : EntityColumn) × Memᴰ c (entity_of rules) × (agrees c priority_column ≡ true))
entity_of-migrated_example =
    entity_of-migrated rules name_column priority_column name_declared priority_created
