-- ===== src/Migrations/Order.antt =====
-- The migrations as TypeORM runs them: those that have not run, by their timestamps. Postgres is a
-- parameter: `execute` is one statement on a catalogue of the database.
use complif_techinical_chall.Base.{
  String, ◌==◌, ◌≡◌, ◌≢◌, refl, sym, ap, ◌∙◌, inl, inr, Bool, true, false, not, ◌&&◌, ◌||◌,
  Bool-cases, List, [], ◌∷◌, ◌++◌, leb, arith, if◌then◌else◌,
}
use complif_techinical_chall.Common.Exec.{Error, Result, ok, err, Result-cases}
use complif_techinical_chall.Migrations.Statements.{
  Statement, Constraint, Migration, create_table, add_foreign_key, foreign_key,
}
use complif_techinical_chall.Migrations.CreateAlerts.{create_alerts}
use complif_techinical_chall.Migrations.CreateListEntries.{create_list_entries}
use complif_techinical_chall.Migrations.CreateOrganizations.{create_organizations}
use complif_techinical_chall.Migrations.CreateRuleTemplates.{create_rule_templates}
use complif_techinical_chall.Migrations.CreateTemplateOverrides.{create_template_overrides}
use complif_techinical_chall.Migrations.CreateRules.{create_rules}
use complif_techinical_chall.Migrations.CreateTransactions.{create_transactions}

abbrev pub migrations : List Migration
migrations =
    create_organizations ∷ create_rule_templates ∷ create_template_overrides ∷ create_rules
    ∷ create_transactions ∷ create_list_entries ∷ create_alerts ∷ []

abbrev inserted : Migration → List Migration → List Migration
inserted m [] = m ∷ []
inserted m (n ∷ ns) =
    let rest = inserted m ns in if leb m.timestamp n.timestamp then m ∷ n ∷ ns else n ∷ rest

abbrev pub by_timestamp : List Migration → List Migration
by_timestamp [] = []
by_timestamp (m ∷ ms) = inserted m (by_timestamp ms)

abbrev pub statements : List Migration → List Statement
statements [] = []
statements (m ∷ ms) = m.up ++ statements ms

abbrev pub creates : String → Statement → Bool
creates table (create_table name columns constraints) = name == table
creates table _ = false

abbrev pub targets : String → List Constraint → Bool
targets table [] = false
targets table (foreign_key name of_column target on_delete ∷ constraints) =
    target == table || targets table constraints
targets table (_ ∷ constraints) = targets table constraints

-- the foreign keys to another table
abbrev pub refers_to : String → Statement → Bool
refers_to table (create_table name columns constraints) =
    not (name == table) && targets table constraints
refers_to table (add_foreign_key name constraint of_column target on_delete) = target == table
refers_to table _ = false

module _ {Catalogue : Type 0} where
  abbrev pub and_then : Result Catalogue → (Catalogue → Result Catalogue) → Result Catalogue
  and_then (ok c) f = f c
  and_then (err e) f = err e

  -- statements one after the other; the first that fails ends the run
  abbrev pub run :
      (Statement → Catalogue → Result Catalogue) → List Statement → Catalogue → Result Catalogue
  run execute [] c = ok c
  run execute (s ∷ ss) c = and_then (execute s c) (run execute ss)

  -- A foreign key needs the table that it refers to, and a table that is missing comes from no other
  -- statement than the one that creates it.
  pub record IsPostgres (execute : Statement → Catalogue → Result Catalogue)
      (has_table : Catalogue → String → Bool) : Type 0 where
    pub refers :
        (s : Statement) (c d : Catalogue) (table : String)
        → execute s c ≡ ok d
        → refers_to table s ≡ true
        → has_table c table ≡ true
    pub creates_only :
        (s : Statement) (c d : Catalogue) (table : String)
        → execute s c ≡ ok d
        → creates table s ≡ false
        → has_table c table ≡ false
        → has_table d table ≡ false

-- a foreign key to a table that no statement before it creates
abbrev pub dangles : String → List Statement → Bool
dangles table [] = false
dangles table (s ∷ ss) = refers_to table s || (not (creates table s) && dangles table ss)

behind :
    (here creates_it rest : Bool)
    → here ≡ false
    → (here || (not creates_it && rest)) ≡ true
    → (creates_it ≡ false) × (rest ≡ true)
behind here creates_it rest h k = ground arith

pub refused : {A : Type 0} {x : Error} {d : A} → Path (Result A) (err x) (ok d) → ⊥
refused h = cc

module _ {Catalogue : Type 0} (execute : Statement → Catalogue → Result Catalogue)
    (has_table : Catalogue → String → Bool) (postgres : IsPostgres execute has_table) where
  run-dangles :
      (table : String) (ss : List Statement) (c d : Catalogue)
      → has_table c table ≡ false
      → dangles table ss ≡ true
      → run execute ss c ≢ ok d
  run-dangles table [] c d missing h = λ r. cc
  run-dangles table (s ∷ ss) c d missing h = λ r. elim (Result-cases (execute s c)) [
    | inr (x, e) ↦ refused (sym (ap (λ t. and_then t (run execute ss)) e) ∙ r)
    | inl (c', e) ↦ elim (Bool-cases (refers_to table s)) [
      | inl here ↦ absurd (cc (postgres.refers s c c' table e here, missing))
      | inr further ↦
          let (other, rest) =
            behind (refers_to table s) (creates table s) (dangles table ss) further h in
          run-dangles table ss c' d (postgres.creates_only s c c' table e other missing) rest
            (sym (ap (λ t. and_then t (run execute ss)) e) ∙ r)
    ]
  ]

  -- On a database without the table of the rules, as every new one is, the migrations fail: in the
  -- order of their timestamps the one for the alerts is first, and it refers to that table.
  pub run-by_timestamp :
      (c d : Catalogue)
      → has_table c "rules" ≡ false
      → run execute (statements (by_timestamp migrations)) c ≢ ok d
  unfolding create_alerts create_list_entries create_organizations create_rule_templates
      create_template_overrides create_rules create_transactions
  run-by_timestamp c d missing =
      run-dangles "rules" (statements (by_timestamp migrations)) c d missing refl
