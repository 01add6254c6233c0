-- ===== src/World/Keeps.antt =====
-- Methods that write nothing to the database, whatever else they do and also where they throw.
use complif_techinical_chall.Base.{◌≡◌, refl, ◌∙◌}
use complif_techinical_chall.Common.Exec.{
  Error, Exec, Result, ok, err, state_of, pure, catch, catch_after, finally, ◌>>=◌,
}
use complif_techinical_chall.World.{World, Effect, emit, db-bind}

module _ {Db Redis : Type 0} where
  abbrev pub KeepsDb : {A : Type 0} → Exec (World Db Redis) A → Type 0
  KeepsDb m = (w : World Db Redis) → (state_of m w).db ≡ w.db

  pub pure-KeepsDb : {A : Type 0} (a : A) → KeepsDb (pure a)
  pure-KeepsDb a w = refl

  pub emit-KeepsDb : (e : Effect) → KeepsDb (emit e)
  emit-KeepsDb e w = refl

  pub >>=-KeepsDb :
      {A B : Type 0} (m : Exec (World Db Redis) A) (f : A → Exec (World Db Redis) B)
      → KeepsDb m
      → ((a : A) → KeepsDb (f a))
      → KeepsDb (m >>= f)
  >>=-KeepsDb m f h k w = db-bind m f k w ∙ h w

  catch_after-db :
      {A : Type 0} (handler : Error → Exec (World Db Redis) A)
      → ((e : Error) → KeepsDb (handler e))
      → (r : Result A) (w : World Db Redis) → (catch_after r handler w).1.db ≡ w.db
  catch_after-db handler h (ok a) w = refl
  catch_after-db handler h (err e) w = h e w

  pub catch-KeepsDb :
      {A : Type 0} (m : Exec (World Db Redis) A) (handler : Error → Exec (World Db Redis) A)
      → KeepsDb m
      → ((e : Error) → KeepsDb (handler e))
      → KeepsDb (catch m handler)
  catch-KeepsDb m handler h k w = catch_after-db handler k (m w).0 (m w).1 ∙ h w

  pub finally-KeepsDb :
      {A B : Type 0} (m : Exec (World Db Redis) A) (last : Exec (World Db Redis) B)
      → KeepsDb m
      → KeepsDb last
      → KeepsDb (finally m last)
  finally-KeepsDb m last h k w = k (m w).1 ∙ h w
