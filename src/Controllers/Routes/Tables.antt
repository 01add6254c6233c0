-- ===== src/Controllers/Routes/Tables.antt =====
-- The tables of routes, one for each controller.
use complif_techinical_chall.Base.{ℕ, String, Bool, true, false, List, [], ◌∷◌}

pub data Method : Type 0 where
  get post put patch delete : Method

-- a segment of a path: a word, or a parameter by its name
pub data Segment : Type 0 where
  literal param : String → Segment

-- One decorated method: its path behind that of the controller, the status of a success, and
-- whether OrganizationGuard stands before it.
pub record Route : Type 0 where
  pub method : Method
  pub path : List Segment
  pub handler : String
  pub status : ℕ
  pub guarded : Bool

-- Nest answers 201 to POST and 200 to the other methods, unless `@HttpCode` says otherwise.
abbrev default_status : Method → ℕ
default_status post = 201
default_status _ = 200

abbrev route : Bool → String → Method → List Segment → String → Route
route guarded controller method path handler = record {
  method = method;
  path = literal controller ∷ path;
  handler = handler;
  status = default_status method;
  guarded = guarded;
}

-- @HttpCode(HttpStatus.NO_CONTENT)
abbrev no_content : Route → Route
no_content r = record r { status = 204 }

unfoldable pub alerts_routes : List Route
alerts_routes =
    route true "alerts" get [] "findAll"
    ∷ route true "alerts" get (param "id" ∷ []) "findOne"
    ∷ route true "alerts" patch (param "id" ∷ []) "updateStatus"
    ∷ []

unfoldable pub engine_routes : List Route
engine_routes =
    route true "engine" post (literal "evaluate" ∷ []) "evaluate"
    ∷ route true "engine" post (literal "evaluate" ∷ param "ruleId" ∷ []) "evaluateRule"
    ∷ []

unfoldable pub health_routes : List Route
health_routes = route false "health" get [] "check" ∷ []

unfoldable pub lists_routes : List Route
lists_routes =
    route true "lists" post [] "create"
    ∷ route true "lists" get [] "findAll"
    ∷ route true "lists" get (param "id" ∷ []) "findOne"
    ∷ no_content (route true "lists" delete (param "id" ∷ []) "remove")
    ∷ []

unfoldable pub organizations_routes : List Route
organizations_routes =
    route false "organizations" post [] "create"
    ∷ route false "organizations" get [] "findAll"
    ∷ route false "organizations" get (param "id" ∷ []) "findOne"
    ∷ route false "organizations" patch (param "id" ∷ []) "update"
    ∷ no_content (route false "organizations" delete (param "id" ∷ []) "remove")
    ∷ []

unfoldable pub rule_templates_routes : List Route
rule_templates_routes =
    route false "rule-templates" post [] "create"
    ∷ route false "rule-templates" get [] "findAll"
    ∷ route false "rule-templates" get (literal "defaults" ∷ []) "findDefaults"
    ∷ route false "rule-templates" get (param "id" ∷ []) "findOne"
    ∷ route false "rule-templates" patch (param "id" ∷ []) "update"
    ∷ no_content (route false "rule-templates" delete (param "id" ∷ []) "remove")
    ∷ []

unfoldable pub rules_routes : List Route
rules_routes =
    route true "rules" post [] "create"
    ∷ route true "rules" get [] "findAll"
    ∷ route true "rules" get (literal "enabled" ∷ []) "findEnabledByPriority"
    ∷ route true "rules" get (param "id" ∷ []) "findOne"
    ∷ route true "rules" get (param "id" ∷ literal "effective-config" ∷ []) "getEffectiveConfig"
    ∷ route true "rules" patch (param "id" ∷ []) "update"
    ∷ no_content (route true "rules" delete (param "id" ∷ []) "remove")
    ∷ []

unfoldable pub template_overrides_routes : List Route
template_overrides_routes =
    route true "template-overrides" post [] "create"
    ∷ route true "template-overrides" get [] "findAll"
    ∷ route true "template-overrides" get (param "id" ∷ []) "findOne"
    ∷ route true "template-overrides" get
        (literal "template" ∷ param "templateId" ∷ literal "merged-config" ∷ []) "getMergedConfig"
    ∷ route true "template-overrides" patch (param "id" ∷ []) "update"
    ∷ no_content (route true "template-overrides" delete (param "id" ∷ []) "remove")
    ∷ []

unfoldable pub transactions_routes : List Route
transactions_routes =
    route true "transactions" post [] "create"
    ∷ route true "transactions" get [] "findAll"
    ∷ route true "transactions" get (param "id" ∷ []) "findOne"
    ∷ route true "transactions" patch (param "id" ∷ []) "patch"
    ∷ route true "transactions" put (param "id" ∷ []) "update"
    ∷ []
