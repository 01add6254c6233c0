-- ===== src/Validation/Fits.antt =====
-- What the pipe lets through, against the columns that it is stored in.
use complif_techinical_chall.Base.{
  ℕ, ◌≤◌, ◌≡◌, refl, sym, ap, ◌∙◌, String, ◌==◌, eq_iff, leb, Bool, true, false, not, Option-cases,
  inl, inr, any, all, all-Memᴰ, any-Memᴰ, codes, length, Option, none, some, List, [], ◌∷◌,
  if◌then◌else◌, arith,
}
use mathlib.Core.List.{Memᴰ}
use complif_techinical_chall.Common.Value.{Fields, end, field, Value, str, get, get_value}
use complif_techinical_chall.Common.Exec.{Result, ok}
use complif_techinical_chall.Startup.{ValidationOptions, Call, use_validation_pipe, bootstrap}
use complif_techinical_chall.Validation.{
  IsClassValidator, holds, is_known, only_known, is_valid, IsPipe,
}
use complif_techinical_chall.Validation.Schemas.{
  Check, max_length, Property, create_organization_dto, create_rule_template_dto,
  create_template_override_dto, create_rule_dto, create_list_entry_dto, create_transaction_dto,
  update_organization_dto, update_rule_template_dto, update_template_override_dto, update_rule_dto,
  update_transaction_dto,
}
use complif_techinical_chall.Validation.Columns.{
  ColumnType, varchar, EntityColumn, organization_columns, rule_template_columns,
  template_override_columns, rule_columns, list_entry_columns, transaction_columns,
}

-- the handlers that store a body
pub data Body : Type 0 where
  create_organization create_rule_template create_template_override create_rule : Body
  create_list_entry create_transaction update_organization update_rule_template : Body
  update_template_override update_rule update_transaction : Body

-- the class of the body
unfoldable pub schema_of : Body → List Property
unfolding create_organization_dto create_rule_template_dto create_template_override_dto
    create_rule_dto create_list_entry_dto create_transaction_dto update_organization_dto
    update_rule_template_dto update_template_override_dto update_rule_dto update_transaction_dto
schema_of create_organization = create_organization_dto
schema_of create_rule_template = create_rule_template_dto
schema_of create_template_override = create_template_override_dto
schema_of create_rule = create_rule_dto
schema_of create_list_entry = create_list_entry_dto
schema_of create_transaction = create_transaction_dto
schema_of update_organization = update_organization_dto
schema_of update_rule_template = update_rule_template_dto
schema_of update_template_override = update_template_override_dto
schema_of update_rule = update_rule_dto
schema_of update_transaction = update_transaction_dto

-- the columns of the entity that it is assigned to
unfoldable pub columns_of : Body → List EntityColumn
unfolding organization_columns rule_template_columns template_override_columns rule_columns
    list_entry_columns transaction_columns
columns_of create_organization = organization_columns
columns_of create_rule_template = rule_template_columns
columns_of create_template_override = template_override_columns
columns_of create_rule = rule_columns
columns_of create_list_entry = list_entry_columns
columns_of create_transaction = transaction_columns
columns_of update_organization = organization_columns
columns_of update_rule_template = rule_template_columns
columns_of update_template_override = template_override_columns
columns_of update_rule = rule_columns
columns_of update_transaction = transaction_columns

-- the properties that no request may set
abbrev pub identities : List String
identities = "id" ∷ "idOrganization" ∷ "createdAt" ∷ "updatedAt" ∷ []

abbrev bounds : ℕ → Check → Bool
bounds n (max_length m) = leb m n
bounds n _ = false

abbrev bounded : ColumnType → List Check → Bool
bounded (varchar n) checks = any (bounds n) checks
bounded _ checks = true

abbrev covers : EntityColumn → Property → Bool
covers c p = if p.name == c.property then bounded c.type p.checks else true

abbrev covered : List Property → EntityColumn → Bool
covered schema c = all (covers c) schema

all-covered : (b : Body) → all (covered (schema_of b)) (columns_of b) ≡ true
unfolding schema_of columns_of
all-covered create_organization = refl
all-covered create_rule_template = refl
all-covered create_template_override = refl
all-covered create_rule = refl
all-covered create_list_entry = refl
all-covered create_transaction = refl
all-covered update_organization = refl
all-covered update_rule_template = refl
all-covered update_template_override = refl
all-covered update_rule = refl
all-covered update_transaction = refl

none-identities : (b : Body) → all (λ k. not (is_known (schema_of b) k)) identities ≡ true
unfolding schema_of
none-identities create_organization = refl
none-identities create_rule_template = refl
none-identities create_template_override = refl
none-identities create_rule = refl
none-identities create_list_entry = refl
none-identities create_transaction = refl
none-identities update_organization = refl
none-identities update_rule_template = refl
none-identities update_template_override = refl
none-identities update_rule = refl
none-identities update_transaction = refl

known-of-get :
    (schema : List Property) (o : Fields) (k : String) (v : Value)
    → only_known schema o ≡ true
    → get k o ≡ some v
    → is_known schema k ≡ true
unfolding only_known get
known-of-get schema end k v h found = absurd (cc)
known-of-get schema (field j w rest) k v h found =
    ground (arith, eq_iff j k, ap (is_known schema), known-of-get schema rest k v)

get-of-text : (k s : String) (o : Fields) → get_value k o ≡ str s → get k o ≡ some (str s)
unfolding get_value
get-of-text k s o h = ground arith

-- a text passes the tests of its property, also where that is optional
text-checks :
    (passes : Check → Value → Bool) (p : Property) (s : String)
    → holds passes p (str s) ≡ true
    → all (λ c. passes c (str s)) p.checks ≡ true
text-checks passes p s h = ground arith

module _ (passes : Check → Value → Bool) (validator : IsClassValidator passes) (n : ℕ)
    (s : String) where
  length-bounded :
      (check : Check) → bounds n check ≡ true → passes check (str s) ≡ true → length (codes s) ≤ n
  length-bounded (max_length m) h passed = ground (arith, validator.lengths m s passed)
  length-bounded _ h passed = absurd (cc)

  length-checked :
      (checks : List Check)
      → any (bounds n) checks ≡ true
      → all (λ c. passes c (str s)) checks ≡ true
      → length (codes s) ≤ n
  length-checked checks h passed =
      let (check, inside, bound) = any-Memᴰ (bounds n) checks h in
      length-bounded check bound (all-Memᴰ (λ c. passes c (str s)) checks check passed inside)

abbrev whitelists : Call → Bool
whitelists (use_validation_pipe options) = options.whitelist
whitelists _ = true

module _ (passes : Check → Value → Bool)
    (pipe : ValidationOptions → List Property → Fields → Result Fields) (laws : IsPipe passes pipe)
    (get_config env : String → Option String) (options : ValidationOptions)
    (used : Memᴰ (use_validation_pipe options) (bootstrap get_config env)) (b : Body)
    (body dto : Fields) (accepted : pipe options (schema_of b) body ≡ ok dto) where
  whitelisting : options.whitelist ≡ true
  unfolding bootstrap
  whitelisting =
      all-Memᴰ whitelists (bootstrap get_config env) (use_validation_pipe options) refl used

  all-hold : all (λ p. holds passes p (get_value p.name dto)) (schema_of b) ≡ true
  unfolding is_valid
  all-hold = ground (arith, laws.returns options (schema_of b) body dto whitelisting accepted)

  none-unknown : only_known (schema_of b) dto ≡ true
  unfolding is_valid
  none-unknown = ground (arith, laws.returns options (schema_of b) body dto whitelisting accepted)

  -- By the documented behaviour of the pipe that `bootstrap` sets, a body that a handler gets has
  -- no property of the entity's identity: neither its id, nor its organization, nor a time stamp. So `Object.assign`
  -- of the body to a row cannot move the row to another organization.
  pub accepted-unowned : (k : String) → Memᴰ k identities → get k dto ≡ none
  accepted-unowned k inside = elim (Option-cases (get k dto)) [
    | inl missing ↦ missing
    | inr (v, found) ↦
        let known = known-of-get (schema_of b) dto k v none-unknown found in
        let unknown =
          all-Memᴰ (λ j. not (is_known (schema_of b) j)) identities k (none-identities b) inside in
        absurd (ground arith)
  ]

  module _ (validator : IsClassValidator passes) where
    fits-of :
        (c : EntityColumn) (n : ℕ) (s : String) (p : Property)
        → c.type ≡ varchar n
        → p.name ≡ c.property
        → covers c p ≡ true
        → holds passes p (get_value p.name dto) ≡ true
        → get_value c.property dto ≡ str s
        → length (codes s) ≤ n
    fits-of c n s p t same covering holding h =
        length-checked passes validator n s p.checks
          (ground (arith, eq_iff p.name c.property, ap (λ u. bounded u p.checks) t))
          (text-checks passes p s
            (ap (holds passes p) (sym h ∙ ap (λ k. get_value k dto) (sym same)) ∙ holding))

    -- By the documented behaviour of the pipe that `bootstrap` sets and of the decorators, a text that a handler gets fits
    -- into the column that it is stored in, wherever that has a greatest length.
    pub accepted-fits :
        (c : EntityColumn) (n : ℕ) (s : String)
        → Memᴰ c (columns_of b)
        → c.type ≡ varchar n
        → get_value c.property dto ≡ str s
        → length (codes s) ≤ n
    accepted-fits c n s inside t h =
        let (p, declared, named) =
          any-Memᴰ (λ p. p.name == c.property) (schema_of b)
            (known-of-get (schema_of b) dto c.property (str s) none-unknown
              (get-of-text c.property s dto h)) in
        fits-of c n s p t ((eq_iff p.name c.property).0 named)
          (all-Memᴰ (covers c) (schema_of b) p
            (all-Memᴰ (covered (schema_of b)) (columns_of b) c (all-covered b) inside) declared)
          (all-Memᴰ (λ q. holds passes q (get_value q.name dto)) (schema_of b) p all-hold declared)
          h
