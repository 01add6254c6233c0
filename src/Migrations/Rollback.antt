-- ===== src/Migrations/Rollback.antt =====
-- What taking a migration back does: the statements of `down` behind those of `up`.
use complif_techinical_chall.Base.{
  ◌≡◌, refl, sym, ap, ◌∙◌, inl, inr, Bool, true, false, ◌&&◌, List, [], ◌∷◌, ◌++◌, arith,
}
use complif_techinical_chall.Common.Exec.{Result, ok, Result-cases}
use complif_techinical_chall.Migrations.Statements.{
  Statement, Migration, create_type, create_table, create_index, add_foreign_key, drop_type,
  drop_table, drop_index, drop_constraint,
}
use complif_techinical_chall.Migrations.Order.{run, and_then, refused}
use complif_techinical_chall.Migrations.CreateAlerts.{create_alerts}
use complif_techinical_chall.Migrations.CreateListEntries.{create_list_entries}
use complif_techinical_chall.Migrations.CreateOrganizations.{create_organizations}
use complif_techinical_chall.Migrations.CreateRuleTemplates.{create_rule_templates}
use complif_techinical_chall.Migrations.CreateTemplateOverrides.{create_template_overrides}
use complif_techinical_chall.Migrations.CreateRules.{create_rules}
use complif_techinical_chall.Migrations.CreateTransactions.{create_transactions}

-- the classes of the folder
pub data Known : Type 0 where
  organizations rule_templates template_overrides rules transactions list_entries alerts : Known

abbrev pub migration : Known → Migration
migration organizations = create_organizations
migration rule_templates = create_rule_templates
migration template_overrides = create_template_overrides
migration rules = create_rules
migration transactions = create_transactions
migration list_entries = create_list_entries
migration alerts = create_alerts

abbrev pub is_creation : Statement → Bool
is_creation (create_type name values) = true
is_creation (create_table name columns constraints) = true
is_creation (create_index name is_unique table columns not_null) = true
is_creation (add_foreign_key table name of_column target on_delete) = true
is_creation _ = false

-- what drops that which a statement creates
abbrev pub undo : Statement → Statement
undo (create_type name values) = drop_type name
undo (create_table name columns constraints) = drop_table name
undo (create_index name is_unique table columns not_null) = drop_index name
undo (add_foreign_key table name of_column target on_delete) = drop_constraint table name
undo s = s

-- A thing that was created and is dropped at once leaves the catalogue as it was.
abbrev pub Undoes : {Catalogue : Type 0} → (Statement → Catalogue → Result Catalogue) → Type 0
Undoes {Catalogue} execute =
    (s : Statement) (c d : Catalogue)
    → is_creation s ≡ true
    → execute s c ≡ ok d
    → execute (undo s) d ≡ ok c

abbrev all_create : List Statement → Bool
all_create [] = true
all_create (s ∷ ss) = is_creation s && all_create ss

abbrev undone : List Statement → List Statement
undone [] = []
undone (s ∷ ss) = undone ss ++ undo s ∷ []

both : (a b : Bool) → (a && b) ≡ true → (a ≡ true) × (b ≡ true)
both a b h = ground arith

all_create-cons :
    (s : Statement) (ss : List Statement)
    → all_create (s ∷ ss) ≡ true
    → (is_creation s ≡ true) × (all_create ss ≡ true)
all_create-cons s ss h = both (is_creation s) (all_create ss) h

down-undone : (m : Known) → (migration m).down ≡ undone (migration m).up
unfolding create_organizations create_rule_templates create_template_overrides create_rules
    create_transactions create_list_entries create_alerts
down-undone organizations = refl
down-undone rule_templates = refl
down-undone template_overrides = refl
down-undone rules = refl
down-undone transactions = refl
down-undone list_entries = refl
down-undone alerts = refl

up-creations : (m : Known) → all_create (migration m).up ≡ true
unfolding create_organizations create_rule_templates create_template_overrides create_rules
    create_transactions create_list_entries create_alerts
up-creations organizations = refl
up-creations rule_templates = refl
up-creations template_overrides = refl
up-creations rules = refl
up-creations transactions = refl
up-creations list_entries = refl
up-creations alerts = refl

module _ {Catalogue : Type 0} (execute : Statement → Catalogue → Result Catalogue) where
  -- a run that succeeds, from its first statement on
  run-cons :
      (s : Statement) (ss : List Statement) (c d : Catalogue)
      → run execute (s ∷ ss) c ≡ ok d
      → (c' : Catalogue) × (execute s c ≡ ok c') × (run execute ss c' ≡ ok d)
  run-cons s ss c d r = elim (Result-cases (execute s c)) [
    | inl (c', e) ↦ (c', e, sym (ap (λ t. and_then t (run execute ss)) e) ∙ r)
    | inr (x, e) ↦ absurd (refused (sym (ap (λ t. and_then t (run execute ss)) e) ∙ r))
  ]

  run-append :
      (ss ts : List Statement) (c d : Catalogue)
      → run execute ss c ≡ ok d
      → run execute (ss ++ ts) c ≡ run execute ts d
  run-append [] ts c d h = ap (λ r. and_then r (run execute ts)) h
  run-append (s ∷ ss) ts c d h =
      let (c', e, rest) = run-cons s ss c d h in
      ap (λ t. and_then t (run execute (ss ++ ts))) e ∙ run-append ss ts c' d rest

  run-undone :
      Undoes execute
      → (ss : List Statement) (c d : Catalogue) → all_create ss ≡ true
      → run execute ss c ≡ ok d
      → run execute (undone ss) d ≡ ok c
  run-undone law [] c d h r = sym r
  run-undone law (s ∷ ss) c d h r =
      let (c', e, rest) = run-cons s ss c d r in
      let (creation, creations) = all_create-cons s ss h in
      run-append (undone ss) (undo s ∷ []) d c' (run-undone law ss c' d creations rest)
      ∙ ap (λ t. and_then t (run execute [])) (law s c c' creation e)

  -- Where Postgres takes back a creation by the drop of what was created, each migration that went
  -- up is taken back by its own statements for the way down, which leave the catalogue as it was.
  pub run-down :
      Undoes execute
      → (m : Known) (c d : Catalogue) → run execute (migration m).up c ≡ ok d
      → run execute (migration m).down d ≡ ok c
  run-down law m c d h =
      ap (λ ss. run execute ss d) (down-undone m)
      ∙ run-undone law (migration m).up c d (up-creations m) h
