-- ===== src/Common/Repository/Saves.antt =====
-- How many rows meet a condition once an entity has been saved, by the laws of a repository.
use complif_techinical_chall.Base.{◌+◌, ◌≤◌, ◌≡◌, String, Bool, some, List, inl, inr, arith}
use complif_techinical_chall.Common.Exec.{ok, Result-cases}
use complif_techinical_chall.Common.Repository.{
  Repository, IsRepository, count_rows, weight, weight-eq,
}

module _ {Db E C : Type 0} (repository : Repository Db E) (rows : Db → List E)
    (identity : E → String) (content : E → C) (laws : IsRepository repository rows identity content)
    (p : E → Bool) (respects : (a b : E) → content a ≡ content b → p a ≡ p b) where
  -- A new row that meets the condition only where no other does leaves at most one that does.
  pub insert-le :
      (e : E) (d : Db)
      → identity e ≡ ""
      → count_rows p (rows d) + weight p e ≤ 1
      → count_rows p (rows (repository.save e d).1) ≤ 1
  insert-le e d new h = elim (Result-cases (repository.save e d).0) [
    | inl (saved, s) ↦ omega (
      arith,
      laws.inserted e saved d (weight p) new s,
      weight-eq p saved e (respects saved e (laws.kept e saved d s)),
      h,
    )
    | inr (x, s) ↦ rw (laws.failed e d x s) (omega (arith, h))
  ]

  -- A row that is replaced by one that meets the condition no more than it did changes nothing.
  pub replace-le :
      (old e : E) (d : Db) (q : E → Bool)
      → repository.find_one q d ≡ ok (some old)
      → identity e ≡ identity old
      → weight p e ≤ weight p old
      → count_rows p (rows d) ≤ 1
      → count_rows p (rows (repository.save e d).1) ≤ 1
  replace-le old e d q found same meets h = elim (Result-cases (repository.save e d).0) [
    | inl (saved, s) ↦ omega (
      arith,
      laws.replaced old e saved d q (weight p) found same s,
      weight-eq p saved e (respects saved e (laws.kept e saved d s)),
      meets,
      h,
    )
    | inr (x, s) ↦ rw (laws.failed e d x s) h
  ]
