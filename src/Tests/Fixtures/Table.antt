-- ===== src/Tests/Fixtures/Table.antt =====
-- A table that holds at most one row, and the laws of a repository for it.
use complif_techinical_chall.Base.{
  ℕ, ◌+◌, ◌≤◌, ◌≡◌, String, ◌==◌, eq_iff, Bool, true, Option, none, some, List, [], ◌∷◌, arith,
  if◌then◌else◌,
}
use complif_techinical_chall.Common.Exec.{thrown, Result, ok, err}
use complif_techinical_chall.Common.Repository.{Repository, IsRepository, count_rows, total}

module _ {E : Type 0} (identity : E → String) (with_id : String → E → E) where
  found_row : (E → Bool) → Option E → Option E
  found_row p none = none
  found_row p (some e) = if p e then some e else none

  saved_row : E → Option E → Result E × Option E
  saved_row e none =
      if identity e == ""
      then (ok (with_id "1" e), some (with_id "1" e))
      else (err (thrown "no such row"), none)
  saved_row e (some old) =
      if identity e == ""
      then (err (thrown "table is full"), some old)
      else if identity e == identity old
      then (ok e, some e)
      else (err (thrown "no such row"), some old)

  abbrev pub rows_of : Option E → List E
  rows_of none = []
  rows_of (some e) = e ∷ []

  -- the table: an inserted row gets the id "1"
  unfoldable pub table : Repository (Option E) E
  unfolding found_row saved_row
  table = record {
    find_one = λ p d. ok (found_row p d);
    find = λ p order d. ok (rows_of d);
    find_and_count = λ p order skip take d. ok (rows_of d, count_rows p (rows_of d));
    count = λ p d. ok (count_rows p (rows_of d));
    save = saved_row;
    remove = λ e d. (ok tt, none);
    delete = λ p d. (ok (count_rows p (rows_of d)), none);
  }

  module _ {C : Type 0} (content : E → C)
      (unchanged : (s : String) (e : E) → content (with_id s e) ≡ content e) where
    table-found :
        (p : E → Bool) (d : Option E) (e : E) → table.find_one p d ≡ ok (some e) → p e ≡ true
    unfolding table
    table-found p d e h = ground arith

    table-missing :
        (p : E → Bool) (d : Option E) → table.find_one p d ≡ ok none → count_rows p (rows_of d) ≡ 0
    unfolding table
    table-missing p d h = ground arith

    table-counted :
        (p q : E → Bool) (d : Option E) (e : E)
        → table.find_one p d ≡ ok (some e)
        → q e ≡ true
        → 1 ≤ count_rows q (rows_of d)
    unfolding table
    table-counted p q none e h k = ground arith
    table-counted p q (some e') e h k = ground arith

    table-kept :
        (e saved : E) (d : Option E) → (table.save e d).0 ≡ ok saved → content saved ≡ content e
    unfolding table
    table-kept e saved d h = ground (arith, unchanged "1" e)

    table-inserted :
        (e saved : E) (d : Option E) (f : E → ℕ)
        → identity e ≡ ""
        → (table.save e d).0 ≡ ok saved
        → total f (rows_of (table.save e d).1) ≡ total f (rows_of d) + f saved
    unfolding table
    table-inserted e saved d f i h = ground (arith, eq_iff (identity e) "")

    table-replaced :
        (old e saved : E) (d : Option E) (q : E → Bool) (f : E → ℕ)
        → table.find_one q d ≡ ok (some old)
        → identity e ≡ identity old
        → (table.save e d).0 ≡ ok saved
        → total f (rows_of (table.save e d).1) + f old ≡ total f (rows_of d) + f saved
    unfolding table
    table-replaced old e saved d q f found i h = ground (arith, eq_iff (identity e) "")

    table-failed :
        (e : E) (d : Option E) (error : _)
        → (table.save e d).0 ≡ err error
        → rows_of (table.save e d).1 ≡ rows_of d
    unfolding table
    table-failed e d error h = ground arith

    pub table-IsRepository : IsRepository table rows_of identity content
    table-IsRepository = record {
      found = table-found;
      missing = table-missing;
      counted = table-counted;
      kept = table-kept;
      inserted = table-inserted;
      replaced = table-replaced;
      failed = table-failed;
    }
