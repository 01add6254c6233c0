-- ===== src/Overrides/Unique.antt =====
-- Template overrides: at most one of each template for each organization.
use complif_techinical_chall.Base.{
  ◌+◌, ◌≤◌, ◌≡◌, refl, sym, ap, subst, ◌∙◌, String, ◌==◌, ◌&&◌, Bool, true, Bool-cases, inl, inr,
  Option, none, some, List, arith, eq_iff,
}
use complif_techinical_chall.Common.Exec.{Result, ok, err, state_of}
use complif_techinical_chall.Common.Repository.{IsRepository, count_rows, weight}
use complif_techinical_chall.Common.Repository.Saves.{insert-le, replace-le}
use complif_techinical_chall.Entities.{RuleTemplate, TemplateOverride}
use complif_techinical_chall.World.{World, Repositories, db-bind, write}
use complif_techinical_chall.Templates
use complif_techinical_chall.Overrides.{
  CreateTemplateOverrideDto, UpdateTemplateOverrideDto, is_for, new_override, assign, create,
  update,
}

-- what `save` keeps of an override: all but what the database fills in
abbrev pub content : TemplateOverride → TemplateOverride
content o = record o { id = ""; created_at = 0; updated_at = 0 }

is_for-eq : (a b o t : String) → (o == a && t == b) ≡ true → is_for a b ≡ is_for o t
is_for-eq a b o t h =
    let p : a ≡ o = ground (arith, eq_iff o a) in
    let q : b ≡ t = ground (arith, eq_iff t b) in λ i. is_for (p i) (q i)

module _ {Db Redis : Type 0} (repositories : Repositories Db) (rows : Db → List TemplateOverride)
    (laws : IsRepository repositories.template_overrides rows (λ o. o.id) content) where
  -- No organization has two overrides of one template.
  abbrev pub IsSingle : World Db Redis → Type 0
  IsSingle w =
      (organization_id id_template : String)
      → count_rows (is_for organization_id id_template) (rows w.db) ≤ 1

  module _ (organization_id : String) (dto : CreateTemplateOverrideDto) (w : World Db Redis) where
    new-weight :
        (o t : String)
        → count_rows (is_for organization_id dto.id_template) (rows w.db) ≡ 0
        → count_rows (is_for o t) (rows w.db) ≤ 1
        → count_rows (is_for o t) (rows w.db)
            + weight (is_for o t) (new_override organization_id dto)
          ≤ 1
    new-weight o t free h = elim (Bool-cases (is_for o t (new_override organization_id dto))) [
      | inl same ↦
          let none_yet : count_rows (is_for o t) (rows w.db) ≡ 0 =
            ap (λ f. count_rows f (rows w.db)) (is_for-eq o t organization_id dto.id_template same)
            ∙ free in
          rw (none_yet, same) (omega arith)
      | inr other ↦ rw other (omega arith)
    ]

    db-create :
        (t : RuleTemplate)
        → repositories.rule_templates.find_one (λ t. t.id == dto.id_template) w.db ≡ ok (some t)
        → repositories.template_overrides.find_one (is_for organization_id dto.id_template) w.db
          ≡ ok none
        → (state_of (create repositories organization_id dto) w).db
          ≡ (repositories.template_overrides.save (new_override organization_id dto) w.db).1
    unfolding create Templates.find_one
    db-create t found free =
        rw (found, free)
          (db-bind (write (repositories.template_overrides.save (new_override organization_id dto)))
            _ (λ a s. refl) w)

    created-le :
        (o t : String)
        → count_rows (is_for o t) (rows w.db) ≤ 1
        → (template : Result (Option RuleTemplate))
        → repositories.rule_templates.find_one (λ t. t.id == dto.id_template) w.db ≡ template
        → (existing : Result (Option TemplateOverride))
        → repositories.template_overrides.find_one (is_for organization_id dto.id_template) w.db
          ≡ existing
        → count_rows (is_for o t) (rows (state_of (create repositories organization_id dto) w).db)
          ≤ 1
    unfolding create Templates.find_one
    created-le o t h (err x) e existing f = rw e h
    created-le o t h (ok none) e existing f = rw e h
    created-le o t h (ok (some template)) e (err x) f = rw (e, f) h
    created-le o t h (ok (some template)) e (ok (some old)) f = rw (e, f) h
    created-le o t h (ok (some template)) e (ok none) f =
        subst (λ d. count_rows (is_for o t) (rows d) ≤ 1) (sym (db-create template e f))
          (insert-le repositories.template_overrides rows (λ o. o.id) content laws (is_for o t)
            (λ a b. ap (is_for o t)) (new_override organization_id dto) w.db refl
            (new-weight o t (laws.missing (is_for organization_id dto.id_template) w.db f) h))

  -- By the laws of the repository, creating an override, whether it succeeds, finds no template,
  -- meets an override that exists or fails in the database, keeps at most one override of each
  -- template for each organization.
  pub create-IsSingle :
      (organization_id : String) (dto : CreateTemplateOverrideDto) (w : World Db Redis)
      → IsSingle w
      → IsSingle (state_of (create repositories organization_id dto) w)
  create-IsSingle organization_id dto w h o t =
      created-le organization_id dto w o t (h o t) _ refl _ refl

  module _ (organization_id id : String) (dto : UpdateTemplateOverrideDto)
      (w : World Db Redis) where
    abbrev own : TemplateOverride → Bool
    own o = o.id == id && o.id_organization == organization_id

    db-update :
        (old : TemplateOverride)
        → repositories.template_overrides.find_one own w.db ≡ ok (some old)
        → (state_of (update repositories organization_id id dto) w).db
          ≡ (repositories.template_overrides.save (assign old dto) w.db).1
    unfolding update
    db-update old found =
        rw found (
          db-bind (write (repositories.template_overrides.save (assign old dto))) _ (λ a s. refl) w)

    updated-le :
        (o t : String)
        → count_rows (is_for o t) (rows w.db) ≤ 1
        → (found : Result (Option TemplateOverride))
        → repositories.template_overrides.find_one own w.db ≡ found
        → count_rows
            (is_for o t)
            (rows (state_of (update repositories organization_id id dto) w).db)
          ≤ 1
    unfolding update assign
    updated-le o t h (err x) f = rw f h
    updated-le o t h (ok none) f = rw f h
    updated-le o t h (ok (some old)) f =
        subst (λ d. count_rows (is_for o t) (rows d) ≤ 1) (sym (db-update old f))
          (replace-le repositories.template_overrides rows (λ o. o.id) content laws (is_for o t)
            (λ a b. ap (is_for o t)) old (assign old dto) w.db own f refl (omega arith) h)

  -- By the laws of the repository, updating an override keeps at most one override of each template
  -- for each organization, on every branch.
  pub update-IsSingle :
      (organization_id id : String) (dto : UpdateTemplateOverrideDto) (w : World Db Redis)
      → IsSingle w
      → IsSingle (state_of (update repositories organization_id id dto) w)
  update-IsSingle organization_id id dto w h o t =
      updated-le organization_id id dto w o t (h o t) _ refl
