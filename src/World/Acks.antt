-- ===== src/World/Acks.antt =====
-- How often a queue message was acknowledged (`channel.ack`), and methods that acknowledge none,
-- whatever else they do and also where they throw.
use complif_techinical_chall.Base.{ℕ, ◌+◌, ◌≡◌, refl, ◌∙◌, List, [], ◌∷◌, ◌++◌, arith}
use complif_techinical_chall.Common.Exec.{Exec, Result, ok, err, state_of, after, ◌>>=◌}
use complif_techinical_chall.Common.Repository.{total}
use complif_techinical_chall.World.{World, Effect, acknowledged, emit}

abbrev pub is_acknowledgement : Effect → ℕ
is_acknowledgement acknowledged = 1
is_acknowledgement _ = 0

pub acknowledgements_behind :
    (es : List Effect) (e : Effect)
    → total is_acknowledgement (es ++ e ∷ []) ≡ total is_acknowledgement es + is_acknowledgement e
acknowledgements_behind [] e = omega arith
acknowledgements_behind (f ∷ es) e = omega (arith, acknowledgements_behind es e)

module _ {Db Redis : Type 0} where
  abbrev pub acks : World Db Redis → ℕ
  acks w = total is_acknowledgement w.trace

  abbrev pub KeepsAcks : {A : Type 0} → Exec (World Db Redis) A → Type 0
  KeepsAcks m = (w : World Db Redis) → acks (state_of m w) ≡ acks w

  pub emit-KeepsAcks : (e : Effect) → is_acknowledgement e ≡ 0 → KeepsAcks (emit e)
  emit-KeepsAcks e h w = omega (arith, acknowledgements_behind w.trace e)

  acks-after :
      {A B : Type 0} (r : Result A) (f : A → Exec (World Db Redis) B)
      → ((a : A) → KeepsAcks (f a))
      → (w : World Db Redis) → acks (after r f w).1 ≡ acks w
  acks-after (ok a) f k w = k a w
  acks-after (err e) f k w = refl

  pub >>=-KeepsAcks :
      {A B : Type 0} (m : Exec (World Db Redis) A) (f : A → Exec (World Db Redis) B)
      → KeepsAcks m
      → ((a : A) → KeepsAcks (f a))
      → KeepsAcks (m >>= f)
  >>=-KeepsAcks m f h k w = acks-after (m w).0 f k (m w).1 ∙ h w
