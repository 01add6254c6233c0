-- ===== src/Rules/Effective.antt =====
-- The configuration under which a rule is evaluated: template, override, rule.
use complif_techinical_chall.Base.{
  String, ◌≡◌, refl, ◌∙◌, ap, false, Option, none, some, arith, ◌==◌, if◌then◌else◌,
}
use complif_techinical_chall.Common.Value.{Value, Fields, get, IsObject}
use complif_techinical_chall.Common.Exec.{ok, err, result_of, not_found}
use complif_techinical_chall.Common.DeepMerge.{deep_merge}
use complif_techinical_chall.Common.DeepMerge.Laws.{merged, get-deep_merge}
use complif_techinical_chall.Entities.{Rule, RuleTemplate, TemplateOverride}
use complif_techinical_chall.World.{World, Repositories}
use complif_techinical_chall.Templates
use complif_techinical_chall.Overrides
use complif_techinical_chall.Overrides.{with_override, is_for}
use complif_techinical_chall.Rules.{get_effective_config}

-- The override's layer: what an enabled override holds at a key, nothing without one.
abbrev pub override_at : String → Option TemplateOverride → Option Value
override_at k none = none
override_at k (some o) = if o.enabled then get k o.overrides else none

-- The three layers at one key, each merged over the one below it.
abbrev pub layered : String → RuleTemplate → Option TemplateOverride → Rule → Option Value
layered k t o r =
    merged (get k r.config) (merged (override_at k o) (get k t.config) (get k t.config))
      (merged (override_at k o) (get k t.config) (get k t.config))

-- the override's keys are unique, where there is one
abbrev pub IsJsonOverride : Option TemplateOverride → Type 0
IsJsonOverride none = Unit
IsJsonOverride (some o) = IsObject o.overrides

get-with_override :
    (k : String) (t : RuleTemplate) (o : Option TemplateOverride)
    → IsJsonOverride o
    → get k (with_override t o) ≡ merged (override_at k o) (get k t.config) (get k t.config)
unfolding with_override
get-with_override k t none h = refl
get-with_override k t (some o) h = ground (arith, get-deep_merge k t.config o.overrides h)

module _ {Db Redis : Type 0} (repositories : Repositories Db) where
  -- Where the template of a rule is found, the search for the organization's override answers, and
  -- the keys of the override and the rule are unique, the effective configuration holds at every
  -- key the rule's value merged over the enabled override's, merged over the template's.
  pub get_effective_config-layered :
      (organization_id id_template k : String) (r : Rule) (t : RuleTemplate)
      (o : Option TemplateOverride) (w : World Db Redis)
      → r.id_template ≡ some id_template
      → (id_template == "") ≡ false
      → repositories.rule_templates.find_one (λ t'. t'.id == id_template) w.db ≡ ok (some t)
      → repositories.template_overrides.find_one (is_for organization_id id_template) w.db ≡ ok o
      → IsJsonOverride o
      → IsObject r.config
      → (c : Fields) × (result_of (get_effective_config repositories organization_id r) w ≡ ok c)
        × (get k c ≡ layered k t o r)
  unfolding get_effective_config Overrides.get_merged_config Templates.find_one
  get_effective_config-layered organization_id id_template k r t o w template set found override ho
        hr =
      (
        deep_merge (with_override t o) r.config,
        ground arith,
        get-deep_merge k (with_override t o) r.config hr
            ∙ ap (λ x. merged (get k r.config) x x) (get-with_override k t o ho),
      )

  -- A rule that names a template, by a text that is not empty, which is missing has no effective
  -- configuration: the search throws the not-found error of the template, and not of the rule.
  pub get_effective_config-missing :
      (organization_id id_template : String) (r : Rule) (w : World Db Redis)
      → r.id_template ≡ some id_template
      → (id_template == "") ≡ false
      → repositories.rule_templates.find_one (λ t'. t'.id == id_template) w.db ≡ ok none
      → result_of (get_effective_config repositories organization_id r) w
        ≡ err (not_found "Rule template" id_template)
  unfolding get_effective_config Overrides.get_merged_config Templates.find_one
  get_effective_config-missing organization_id id_template r w template set missing = ground arith
