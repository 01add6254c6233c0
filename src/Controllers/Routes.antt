-- ===== src/Controllers/Routes.antt =====
-- The routes of the controllers: what the decorators `@Controller`, `@Get`, `@Post`, `@Put`,
-- `@Patch`, `@Delete`, `@HttpCode` and `@UseGuards` of src/*/*.controller.ts declare, in the order of
-- the methods, and the prefix that `bootstrap` of src/main.ts sets. The router of Express is a
-- parameter. The texts of the API documentation are left out.
pub mod Tables
pub mod Own
use complif_techinical_chall.Base.{
  ℕ, String, ◌==◌, Bool, true, false, not, ◌&&◌, any, codes_eq, to_upper_case, is_empty, Option,
  none, some, List, [], ◌∷◌, ◌++◌, map, ◌≡◌, if◌then◌else◌,
}
use complif_techinical_chall.Controllers.Routes.Tables.{
  Method, get, post, put, patch, delete, Segment, literal, param, Route, alerts_routes,
  engine_routes, health_routes, lists_routes, organizations_routes, rule_templates_routes,
  rules_routes, template_overrides_routes, transactions_routes,
}

abbrev pub same_method : Method → Method → Bool
same_method get get = true
same_method post post = true
same_method put put = true
same_method patch patch = true
same_method delete delete = true
same_method _ _ = false

-- a path that `setGlobalPrefix` excludes
abbrev is_excluded : List String → List Segment → Bool
is_excluded exclude (literal word ∷ []) = any (λ e. e == word) exclude
is_excluded exclude _ = false

-- `app.setGlobalPrefix(prefix, { exclude })`
unfoldable pub prefixed : String → List String → Route → Route
prefixed prefix exclude r =
    if is_excluded exclude r.path then r else record r { path = literal prefix ∷ r.path }

-- the routes in the order of the modules that AppModule imports
unfoldable pub routes : List Route
unfolding prefixed health_routes organizations_routes rule_templates_routes
    template_overrides_routes rules_routes engine_routes transactions_routes alerts_routes
    lists_routes
routes = map (prefixed "api" ("health" ∷ "metrics" ∷ [])) (
    health_routes
    ++ (organizations_routes
        ++ (rule_templates_routes
            ++ (template_overrides_routes
                ++ (rules_routes
                    ++ (engine_routes
                        ++ (transactions_routes ++ (alerts_routes ++ lists_routes))))))))

-- Words of a path are compared without case, as Express does by default.
unfoldable pub same_word : String → String → Bool
same_word a b = codes_eq (to_upper_case a) (to_upper_case b)

-- whether a path meets a pattern: a literal, or one segment that is not empty
unfoldable pub fits : List Segment → List String → Bool
unfolding same_word is_empty
fits [] [] = true
fits [] (w ∷ ws) = false
fits (s ∷ ss) [] = false
fits (literal word ∷ ss) (w ∷ ws) = same_word word w && fits ss ws
fits (param name ∷ ss) (w ∷ ws) = not (is_empty w) && fits ss ws

-- The router takes the first route that was registered for the method and a path of this form.
pub record IsRouter (pick : List Route → Method → List String → Option Route) : Type 0 where
  pub takes :
      (r : Route) (rs : List Route) (path : List String)
      → fits r.path path ≡ true
      → pick (r ∷ rs) r.method path ≡ some r
  pub skips :
      (r : Route) (rs : List Route) (method : Method) (path : List String)
      → (same_method r.method method && fits r.path path) ≡ false
      → pick (r ∷ rs) method path ≡ pick rs method path
