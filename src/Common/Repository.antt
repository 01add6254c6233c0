-- ===== src/Common/Repository.antt =====
-- What the services ask of a TypeORM repository. The library is not part of the program, so its
-- operations are a parameter, and its documented behaviour a record of laws over the rows that the
-- database holds. Every operation may throw.
pub mod Saves
use complif_techinical_chall.Base.{
  ℕ, ◌+◌, ◌≤◌, ◌≡◌, ap, Bool, true, Option, none, some, List, [], ◌∷◌, String, if◌then◌else◌,
}
use complif_techinical_chall.Common.Exec.{Error, Result, ok, err}

-- One entry of `order`: a column, ascending or descending.
pub data Sort : Type 0 where
  asc desc : String → Sort

-- `where` is a condition on a row; `find_and_count` is also given `skip` and `take`.
pub record Repository (Db E : Type 0) : Type 0 where
  pub find_one : (E → Bool) → Db → Result (Option E)
  pub find : (E → Bool) → List Sort → Db → Result (List E)
  pub find_and_count : (E → Bool) → List Sort → ℕ → ℕ → Db → Result (List E × ℕ)
  pub count : (E → Bool) → Db → Result ℕ
  pub save : E → Db → Result E × Db
  pub remove : E → Db → Result (Unit {0}) × Db
  pub delete : (E → Bool) → Db → Result ℕ × Db

-- How many rows meet a condition.
abbrev pub weight {ℓ} : {E : Type ℓ} → (E → Bool) → E → ℕ
weight p e = if p e then 1 else 0

-- The sum of a measure over rows.
abbrev pub total {ℓ} : {E : Type ℓ} → (E → ℕ) → List E → ℕ
total f [] = 0
total f (e ∷ es) = f e + total f es

abbrev pub count_rows {ℓ} : {E : Type ℓ} → (E → Bool) → List E → ℕ
count_rows p = total (weight p)

pub weight-eq {ℓ} : {E : Type ℓ} (p : E → Bool) (a b : E) → p a ≡ p b → weight p a ≡ weight p b
weight-eq p a b h = ap {B = ℕ} (λ t. if t then 1 else 0) h

-- The laws, over the rows that the database holds. `identity` is the primary key, "" while it is
-- unset; `content` is what the caller sets and `save` keeps.
pub record IsRepository {Db E C : Type 0} (repository : Repository Db E) (rows : Db → List E)
    (identity : E → String) (content : E → C) : Type 0 where
  -- `findOne` finds a row that meets the condition, and `null` only where there is none.
  pub found : (p : E → Bool) (d : Db) (e : E) → repository.find_one p d ≡ ok (some e) → p e ≡ true
  pub missing :
      (p : E → Bool) (d : Db) → repository.find_one p d ≡ ok none → count_rows p (rows d) ≡ 0
  -- A row that is found is one of the table.
  pub counted :
      (p q : E → Bool) (d : Db) (e : E)
      → repository.find_one p d ≡ ok (some e)
      → q e ≡ true
      → 1 ≤ count_rows q (rows d)
  -- `save` keeps what the caller set.
  pub kept : (e saved : E) (d : Db) → (repository.save e d).0 ≡ ok saved → content saved ≡ content e
  -- `save` of an entity with no id adds one row.
  pub inserted :
      (e saved : E) (d : Db) (f : E → ℕ)
      → identity e ≡ ""
      → (repository.save e d).0 ≡ ok saved
      → total f (rows (repository.save e d).1) ≡ total f (rows d) + f saved
  -- `save` of an entity that was found replaces its row.
  pub replaced :
      (old e saved : E) (d : Db) (q : E → Bool) (f : E → ℕ)
      → repository.find_one q d ≡ ok (some old)
      → identity e ≡ identity old
      → (repository.save e d).0 ≡ ok saved
      → total f (rows (repository.save e d).1) + f old ≡ total f (rows d) + f saved
  -- A `save` that throws writes nothing.
  pub failed :
      (e : E) (d : Db) (error : Error)
      → (repository.save e d).0 ≡ err error
      → rows (repository.save e d).1 ≡ rows d
