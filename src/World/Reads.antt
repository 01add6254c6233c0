-- ===== src/World/Reads.antt =====
-- Methods that read the database and change nothing.
use complif_techinical_chall.Base.{◌≡◌, refl, sym, ap, ◌∙◌}
use complif_techinical_chall.Common.Exec.{
  Exec, Result, ok, err, result_of, state_of, pure, after, ◌>>=◌,
}
use complif_techinical_chall.World.{World, query}

module _ {Db Redis : Type 0} where
  -- The result depends on the database only.
  abbrev pub ReadsResult : {A : Type 0} → Exec (World Db Redis) A → Type 0
  ReadsResult m = (w v : World Db Redis) → w.db ≡ v.db → result_of m w ≡ result_of m v

  -- And the state is left as it was.
  abbrev pub Reads : {A : Type 0} → Exec (World Db Redis) A → Type 0
  Reads m = ((w : World Db Redis) → state_of m w ≡ w) × ReadsResult m

  pub pure-Reads : {A : Type 0} (a : A) → Reads (pure a)
  pure-Reads a = (λ w. refl, λ w v h. refl)

  pub query-Reads : {A : Type 0} (q : Db → Result A) → Reads (query q)
  query-Reads q = (λ w. refl, λ w v h. ap q h)

  module _ {A B : Type 0} (f : A → Exec (World Db Redis) B) where
    after-state :
        ((a : A) → Reads (f a))
        → (r : Result A) (w' w : World Db Redis) → w' ≡ w
        → (after r f w').1 ≡ w
    after-state h (ok a) w' w e = (h a).0 w' ∙ e
    after-state h (err x) w' w e = e

    after-result :
        ((a : A) → ReadsResult (f a))
        → (r : Result A) (w v : World Db Redis) → w.db ≡ v.db
        → (after r f w).0 ≡ (after r f v).0
    after-result h (ok a) w v e = h a w v e
    after-result h (err x) w v e = refl

    -- A step that reads, and one whose result reads behind it.
    pub >>=-ReadsResult :
        (m : Exec (World Db Redis) A)
        → Reads m
        → ((a : A) → ReadsResult (f a))
        → ReadsResult (m >>= f)
    >>=-ReadsResult m (keeps, same) h w v e =
        after-result h (m w).0 (m w).1 (m v).1
          (ap (λ s. s.db) (keeps w) ∙ e ∙ sym (ap (λ s. s.db) (keeps v)))
        ∙ ap (λ r. (after r f (m v).1).0) (same w v e)

    pub >>=-Reads :
        (m : Exec (World Db Redis) A) → Reads m → ((a : A) → Reads (f a)) → Reads (m >>= f)
    >>=-Reads m (keeps, same) h = (
      λ w. after-state h (m w).0 (m w).1 w (keeps w),
      >>=-ReadsResult m (keeps, same) (λ a. (h a).1),
    )
