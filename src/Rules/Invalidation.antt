-- ===== src/Rules/Invalidation.antt =====
-- Which writes tell the rule cache to forget an organization's rules.
use complif_techinical_chall.Base.{String, ◌≡◌, List, [], ◌∷◌, ◌++◌, arith}
use mathlib.Core.List.{append-nil}
use complif_techinical_chall.Common.Exec.{Exec, Result, ok, err, state_of, result_of}
use complif_techinical_chall.World.{World, Repositories, Effect, cache_invalidation}
use complif_techinical_chall.Rules
use complif_techinical_chall.Rules.{CreateRuleDto, UpdateRuleDto}
use complif_techinical_chall.Overrides
use complif_techinical_chall.Overrides.{CreateTemplateOverrideDto, UpdateTemplateOverrideDto}
use complif_techinical_chall.Templates
use complif_techinical_chall.Templates.{UpdateRuleTemplateDto}

-- one invalidation if the call succeeded, nothing if it threw
abbrev pub announced : {A : Type 0} → String → Result A → List Effect
announced organization_id (ok a) = cache_invalidation organization_id ∷ []
announced organization_id (err e) = []

-- `m` announces its success, and only that, to the cache of the organization
abbrev pub Announces :
    {Db Redis A : Type 0} → String → Exec (World Db Redis) A → World Db Redis → Type 0
Announces organization_id m w =
    (state_of m w).trace ≡ w.trace ++ announced organization_id (result_of m w)

module _ {Db Redis : Type 0} (repositories : Repositories Db) where
  -- Creating, updating and removing a rule each emit one invalidation for the rule's organization
  -- if they succeed, and no event if the rule is missing or the database throws.
  pub rules-Announces :
      (organization_id id : String) (create : CreateRuleDto) (update : UpdateRuleDto)
      (w : World Db Redis)
      → Announces organization_id (Rules.create repositories organization_id create) w
        × Announces organization_id (Rules.update repositories organization_id id update) w
        × Announces organization_id (Rules.remove repositories organization_id id) w
  unfolding Rules.create Rules.update Rules.remove
  rules-Announces organization_id id create update w = (
    ground (arith, append-nil w.trace),
    ground (arith, append-nil w.trace),
    ground (arith, append-nil w.trace),
  )

  -- So do creating, updating and removing a template override. A creation that finds no template, or
  -- finds an override for it already, throws and emits nothing.
  pub overrides-Announces :
      (organization_id id : String) (create : CreateTemplateOverrideDto)
      (update : UpdateTemplateOverrideDto) (w : World Db Redis)
      → Announces organization_id (Overrides.create repositories organization_id create) w
        × Announces organization_id (Overrides.update repositories organization_id id update) w
        × Announces organization_id (Overrides.remove repositories organization_id id) w
  unfolding Overrides.create Overrides.update Overrides.remove Templates.find_one
  overrides-Announces organization_id id create update w = (
    ground (arith, append-nil w.trace),
    ground (arith, append-nil w.trace),
    ground (arith, append-nil w.trace),
  )

  -- Creating, updating and removing a rule or a template override each emit one invalidation for the
  -- organization if they succeed, and no event if they throw, because something is missing, because
  -- an override exists already, or because the database throws.
  pub writes-Announce :
      (organization_id id : String) (create : CreateRuleDto) (update : UpdateRuleDto)
      (create' : CreateTemplateOverrideDto) (update' : UpdateTemplateOverrideDto)
      (w : World Db Redis)
      → (Announces organization_id (Rules.create repositories organization_id create) w
          × Announces organization_id (Rules.update repositories organization_id id update) w
          × Announces organization_id (Rules.remove repositories organization_id id) w)
        × (Announces organization_id (Overrides.create repositories organization_id create') w
            × Announces organization_id (Overrides.update repositories organization_id id update') w
            × Announces organization_id (Overrides.remove repositories organization_id id) w)
  writes-Announce organization_id id create update create' update' w = (
    rules-Announces organization_id id create update w,
    overrides-Announces organization_id id create' update' w,
  )

  -- Updating or removing a rule template emits no event on any branch, and leaves Redis as it is:
  -- the configurations that are cached for rules based on it stay.
  pub templates_silent :
      (id : String) (update : UpdateRuleTemplateDto) (w : World Db Redis)
      → ((state_of (Templates.update repositories id update) w).trace ≡ w.trace)
        × ((state_of (Templates.update repositories id update) w).redis ≡ w.redis)
        × ((state_of (Templates.remove repositories id) w).trace ≡ w.trace)
        × ((state_of (Templates.remove repositories id) w).redis ≡ w.redis)
  unfolding Templates.update Templates.remove
  templates_silent id update w = ground arith
