-- ===== src/Migrations/Statements.antt =====
-- The statements of SQL that the migrations send to the database.
use complif_techinical_chall.Base.{ℕ, String, Bool, Option, List}

-- its name and type, whether it may be null, and its default
pub data Column : Type 0 where
  column : (name type : String) (nullable : Bool) (default : Option String) → Column

pub data OnDelete : Type 0 where
  cascade set_null : OnDelete

-- the constraints of a table, by their names; a foreign key refers to the `id` of its target
pub data Constraint : Type 0 where
  primary_key unique : (name : String) (columns : List String) → Constraint
  foreign_key : (name of_column target : String) → OnDelete → Constraint

-- An index may be unique, and may be only over the rows where a column is not null.
pub data Statement : Type 0 where
  create_type : (name : String) (values : List String) → Statement
  create_table : (name : String) (columns : List Column) (constraints : List Constraint) → Statement
  create_index :
      (name : String) (is_unique : Bool) (table : String) (columns : List String)
      (not_null : Option String)
      → Statement
  add_foreign_key : (table name of_column target : String) → OnDelete → Statement
  drop_constraint : (table name : String) → Statement
  drop_index drop_table drop_type : (name : String) → Statement

pub record Migration : Type 0 where
  pub name : String
  pub timestamp : ℕ
  pub up : List Statement
  pub down : List Statement
