-- ===== src/Tests/Rules.antt =====
-- A rule with a template and an override, and merged configurations.
use complif_techinical_chall.Base.{◌≡◌, refl, ◌==◌, false, none, some}
use complif_techinical_chall.Base.Int.{pos}
use complif_techinical_chall.Common.Value.{Fields, end, field, str, num, obj, get, IsObject}
use complif_techinical_chall.Common.Exec.{ok, result_of, state_of}
use complif_techinical_chall.Common.DeepMerge.{merge_value}
use complif_techinical_chall.World.{World, Repositories}
use complif_techinical_chall.Templates
use complif_techinical_chall.Templates.{UpdateRuleTemplateDto}
use complif_techinical_chall.Overrides
use complif_techinical_chall.Overrides.{CreateTemplateOverrideDto, UpdateTemplateOverrideDto}
use complif_techinical_chall.Rules
use complif_techinical_chall.Rules.{CreateRuleDto, UpdateRuleDto, get_effective_config}
use complif_techinical_chall.Rules.Effective.{layered, get_effective_config-layered}
use complif_techinical_chall.Rules.Invalidation.{Announces, writes-Announce, templates_silent}
use complif_techinical_chall.Tests.Fixtures.{
  constant, stored, world, template, override, rule, Server, empty_server,
}

abbrev repositories : Repositories Unit
repositories = stored

abbrev before : World Unit Server
before = world tt empty_server

finds_template :
    repositories.rule_templates.find_one (λ t. t.id == "t1") before.db ≡ ok (some template)
unfolding constant
finds_template = refl

finds_override :
    repositories.template_overrides.find_one (Overrides.is_for "o1" "t1") before.db
    ≡ ok (some override)
unfolding constant
finds_override = refl

override-IsObject : IsObject override.overrides
unfolding get
override-IsObject = (refl, tt, tt)

rule-IsObject : IsObject rule.config
unfolding get
rule-IsObject = (refl, tt, tt)

get_effective_config-layered_example :
    (c : Fields) × (result_of (get_effective_config repositories "o1" rule) before ≡ ok c)
    × (get "limit" c ≡ layered "limit" template (some override) rule)
get_effective_config-layered_example =
    get_effective_config-layered repositories "o1" "t1" "limit" rule template (some override) before
      refl refl finds_template finds_override override-IsObject rule-IsObject

-- the value that this layering gives is the override's
limit_is_high : layered "limit" template (some override) rule ≡ some (str "high")
unfolding get merge_value
limit_is_high = refl

abbrev new_rule_dto : CreateRuleDto
new_rule_dto = record {
  name = "Large amount";
  description = none;
  id_template = some "t1";
  enabled = none;
  priority = none;
  config = none;
  created_by = none;
}

abbrev rule_change : UpdateRuleDto
rule_change = record {
  name = none;
  description = none;
  id_template = none;
  enabled = some false;
  priority = none;
  config = none;
}

abbrev new_override_dto : CreateTemplateOverrideDto
new_override_dto = record { id_template = "t1"; overrides = none; enabled = none }

abbrev override_change : UpdateTemplateOverrideDto
override_change = record { overrides = none; enabled = some false }

writes-Announce_example :
    (Announces "o1" (Rules.create repositories "o1" new_rule_dto) before
      × Announces "o1" (Rules.update repositories "o1" "r1" rule_change) before
      × Announces "o1" (Rules.remove repositories "o1" "r1") before)
    × (Announces "o1" (Overrides.create repositories "o1" new_override_dto) before
        × Announces "o1" (Overrides.update repositories "o1" "r1" override_change) before
        × Announces "o1" (Overrides.remove repositories "o1" "r1") before)
writes-Announce_example =
    writes-Announce repositories "o1" "r1" new_rule_dto rule_change new_override_dto override_change
      before

abbrev template_change : UpdateRuleTemplateDto
template_change = record { name = none; description = none; config = some end; is_default = none }

templates_silent_example :
    ((state_of (Templates.update repositories "t1" template_change) before).trace ≡ before.trace)
    × ((state_of (Templates.update repositories "t1" template_change) before).redis ≡ before.redis)
    × ((state_of (Templates.remove repositories "t1") before).trace ≡ before.trace)
    × ((state_of (Templates.remove repositories "t1") before).redis ≡ before.redis)
templates_silent_example = templates_silent repositories "t1" template_change before

abbrev target : Fields
target = field "a" (obj (field "x" (num (pos 1)) end)) (field "b" (str "old") end)

abbrev source : Fields
source = field "a" (obj (field "y" (num (pos 2)) end)) (field "c" (str "new") end)
