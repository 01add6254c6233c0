-- ===== src/Validation/Schemas.antt =====
-- What the classes of src/*/dto that describe bodies are decorated with. A property is decorated
-- with its tests, and optional by @IsOptional(). The texts of the API documentation are left out.
use complif_techinical_chall.Base.{
  ℕ, String, Bool, true, false, List, [], ◌∷◌, map, ◌==◌, if◌then◌else◌,
}

pub data Check : Type 0 where
  is_string is_not_empty is_object is_boolean is_uuid is_int is_number is_date_string : Check
  max_length min : ℕ → Check
  is_enum : List String → Check

pub record Property : Type 0 where
  pub name : String
  pub optional : Bool
  pub checks : List Check

abbrev required : String → List Check → Property
required name checks = record { name = name; optional = false; checks = checks }

abbrev optional : String → List Check → Property
optional name checks = record { name = name; optional = true; checks = checks }

-- PartialType of Nest: every property is optional
abbrev partial_type : List Property → List Property
partial_type = map (λ p. optional p.name p.checks)

abbrev name_text : ℕ → List Check
name_text n = is_string ∷ is_not_empty ∷ max_length n ∷ []

abbrev some_text : ℕ → List Check
some_text n = is_string ∷ max_length n ∷ []

unfoldable pub create_organization_dto : List Property
create_organization_dto =
    required "name" (name_text 255) ∷ optional "settings" (is_object ∷ []) ∷ []

unfoldable pub create_rule_template_dto : List Property
create_rule_template_dto =
    required "name" (name_text 255)
    ∷ optional "description" (is_string ∷ [])
    ∷ optional "config" (is_object ∷ [])
    ∷ optional "isDefault" (is_boolean ∷ [])
    ∷ []

unfoldable pub create_template_override_dto : List Property
create_template_override_dto =
    required "idTemplate" (is_uuid ∷ is_not_empty ∷ [])
    ∷ optional "overrides" (is_object ∷ [])
    ∷ optional "enabled" (is_boolean ∷ [])
    ∷ []

unfoldable pub create_rule_dto : List Property
create_rule_dto =
    required "name" (name_text 255)
    ∷ optional "description" (is_string ∷ [])
    ∷ optional "idTemplate" (is_uuid ∷ [])
    ∷ optional "enabled" (is_boolean ∷ [])
    ∷ optional "priority" (is_int ∷ min 0 ∷ [])
    ∷ optional "config" (is_object ∷ [])
    ∷ optional "createdBy" (some_text 255)
    ∷ []

unfoldable pub create_list_entry_dto : List Property
create_list_entry_dto =
    required "listType" (is_enum ("BLACKLIST" ∷ "WHITELIST" ∷ []) ∷ [])
    ∷ required "entityType"
        (is_enum ("ACCOUNT" ∷ "IP" ∷ "COUNTRY" ∷ "DEVICE" ∷ "EMAIL" ∷ "PHONE" ∷ []) ∷ [])
    ∷ required "entityValue" (name_text 255)
    ∷ optional "reason" (is_string ∷ [])
    ∷ optional "expiresAt" (is_date_string ∷ [])
    ∷ optional "createdBy" (is_uuid ∷ [])
    ∷ []

unfoldable pub create_transaction_dto : List Property
create_transaction_dto =
    required "idAccount" (name_text 255)
    ∷ required "amount" (is_number ∷ [])
    ∷ required "amountNormalized" (is_number ∷ [])
    ∷ required "currency" (name_text 10)
    ∷ required "type" (name_text 50)
    ∷ optional "subType" (some_text 50)
    ∷ required "datetime" (is_date_string ∷ [])
    ∷ required "date" (is_string ∷ is_not_empty ∷ [])
    ∷ optional "isVoided" (is_boolean ∷ [])
    ∷ optional "isBlocked" (is_boolean ∷ [])
    ∷ optional "isDeleted" (is_boolean ∷ [])
    ∷ optional "origin" (some_text 100)
    ∷ optional "deviceInfo" (is_object ∷ [])
    ∷ optional "data" (is_object ∷ [])
    ∷ optional "externalCode" (some_text 255)
    ∷ optional "country" (some_text 10)
    ∷ optional "counterpartyId" (some_text 255)
    ∷ optional "counterpartyCountry" (some_text 10)
    ∷ []

-- OmitType of Nest
omit_type : String → List Property → List Property
omit_type name [] = []
omit_type name (p ∷ ps) = let rest = omit_type name ps in if p.name == name then rest else p ∷ rest

unfoldable pub update_organization_dto : List Property
unfolding create_organization_dto
update_organization_dto = partial_type create_organization_dto

unfoldable pub update_rule_template_dto : List Property
unfolding create_rule_template_dto
update_rule_template_dto = partial_type create_rule_template_dto

unfoldable pub update_template_override_dto : List Property
unfolding create_template_override_dto omit_type
update_template_override_dto = partial_type (omit_type "idTemplate" create_template_override_dto)

unfoldable pub update_rule_dto : List Property
unfolding create_rule_dto omit_type
update_rule_dto = partial_type (omit_type "createdBy" create_rule_dto)

unfoldable pub update_transaction_dto : List Property
update_transaction_dto =
    optional "isBlocked" (is_boolean ∷ []) ∷ optional "isVoided" (is_boolean ∷ []) ∷ []

unfoldable pub update_alert_status_dto : List Property
update_alert_status_dto =
    required "status" (is_enum ("OPEN" ∷ "ACKNOWLEDGED" ∷ "RESOLVED" ∷ "FALSE_POSITIVE" ∷ []) ∷ [])
    ∷ []
