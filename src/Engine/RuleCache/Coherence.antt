-- ===== src/Engine/RuleCache/Coherence.antt =====
-- What the cache returns after a write or an invalidation, over the documented behaviour of Redis.
use complif_techinical_chall.Base.{
  ℕ, String, ◌≡◌, true, ◌⊎◌, inl, inr, Option, none, some, arith, ◌==◌, eq_refl, if◌then◌else◌,
}
use complif_techinical_chall.Common.Exec.{ok, result_of, state_of, Result-cases}
use complif_techinical_chall.World.{World}
use complif_techinical_chall.Engine.RuleCache.{
  CachedRules, CacheText, json, RedisClient, get_cache_key, get, set, invalidate,
}

-- The behaviour of the commands that succeed, over the texts that the server holds under each key.
-- A key that was written may have expired by the time it is read.
pub record IsRedis {Redis : Type 0} (client : RedisClient Redis)
    (held : Redis → String → Option CacheText) : Type 0 where
  pub reads :
      (k : String) (r : Redis) (v : Option CacheText)
      → client.get k r ≡ ok v
      → (v ≡ held r k) ⊎ (v ≡ none)
  pub writes :
      (k j : String) (ttl : ℕ) (text : CacheText) (r : Redis)
      → (client.setex k ttl text r).0 ≡ ok tt
      → held (client.setex k ttl text r).1 j ≡ (if k == j then some text else held r j)
  pub deletes :
      (k j : String) (r : Redis)
      → (client.del k r).0 ≡ ok tt
      → held (client.del k r).1 j ≡ (if k == j then none else held r j)
  pub publishes :
      (channel message j : String) (r : Redis)
      → held (client.publish channel message r).1 j ≡ held r j

module _ {Db Redis : Type 0} (client : RedisClient Redis) (held : Redis → String → Option CacheText)
    (laws : IsRedis client held) where
  -- a key that holds nothing is a miss
  get-absent :
      (organization_id : String) (w : World Db Redis)
      → held w.redis (get_cache_key organization_id) ≡ none
      → result_of (get client organization_id) w ≡ ok none
  unfolding get
  get-absent organization_id w h =
      elim (Result-cases (client.get (get_cache_key organization_id) w.redis)) [
        | inl (v, e) ↦ ground (arith, laws.reads (get_cache_key organization_id) w.redis v e)
        | inr (x, e) ↦ ground arith
      ]

  held-invalidate :
      (organization_id : String) (w : World Db Redis)
      → w.is_connected ≡ true
      → (client.del (get_cache_key organization_id) w.redis).0 ≡ ok tt
      → held (state_of (invalidate client organization_id) w).redis (get_cache_key organization_id)
        ≡ none
  unfolding invalidate
  held-invalidate organization_id w c h =
      let key = get_cache_key organization_id in
      ground (
        arith,
        laws.deletes key key w.redis h,
        laws.publishes "rules:invalidation" organization_id key (client.del key w.redis).1,
        eq_refl key,
      )

  -- While Redis is connected, after an invalidation whose deletion went through, the cache has
  -- nothing for the organization, also where publishing the invalidation failed.
  pub get-invalidate :
      (organization_id : String) (w : World Db Redis)
      → w.is_connected ≡ true
      → (client.del (get_cache_key organization_id) w.redis).0 ≡ ok tt
      → result_of (get client organization_id) (state_of (invalidate client organization_id) w)
        ≡ ok none
  get-invalidate organization_id w c h =
      get-absent organization_id (state_of (invalidate client organization_id) w)
        (held-invalidate organization_id w c h)

  -- a key that holds a value is a hit on that value, or a miss
  pub get-held :
      (organization_id : String) (rules : CachedRules) (w : World Db Redis)
      → held w.redis (get_cache_key organization_id) ≡ some (json rules)
      → (result_of (get client organization_id) w ≡ ok (some rules))
        ⊎ (result_of (get client organization_id) w ≡ ok none)
  unfolding get
  get-held organization_id rules w h =
      elim (Result-cases (client.get (get_cache_key organization_id) w.redis)) [
        | inl (v, e) ↦ ground (arith, laws.reads (get_cache_key organization_id) w.redis v e)
        | inr (x, e) ↦ inr (ground arith)
      ]

  -- a connected cache that is answered with rules returns them
  pub get-answered :
      (organization_id : String) (rules : CachedRules) (w : World Db Redis)
      → w.is_connected ≡ true
      → client.get (get_cache_key organization_id) w.redis ≡ ok (some (json rules))
      → result_of (get client organization_id) w ≡ ok (some rules)
  unfolding get
  get-answered organization_id rules w c h = ground arith

  pub held-set :
      (ttl : ℕ) (organization_id : String) (rules : CachedRules) (w : World Db Redis)
      → w.is_connected ≡ true
      → (client.setex (get_cache_key organization_id) ttl (json rules) w.redis).0 ≡ ok tt
      → held
          (state_of (set client ttl organization_id rules) w).redis
          (get_cache_key organization_id)
        ≡ some (json rules)
  unfolding set
  held-set ttl organization_id rules w c h =
      let key = get_cache_key organization_id in
      ground (arith, laws.writes key key ttl (json rules) w.redis h, eq_refl key)

  -- While Redis is connected, what is read after a write that went through is the rules that were
  -- written, or a miss.
  pub get-set :
      (ttl : ℕ) (organization_id : String) (rules : CachedRules) (w : World Db Redis)
      → w.is_connected ≡ true
      → (client.setex (get_cache_key organization_id) ttl (json rules) w.redis).0 ≡ ok tt
      → (result_of (get client organization_id) (state_of (set client ttl organization_id rules) w)
          ≡ ok (some rules))
        ⊎ (result_of
              (get client organization_id)
              (state_of (set client ttl organization_id rules) w)
            ≡ ok none)
  get-set ttl organization_id rules w c h =
      get-held organization_id rules (state_of (set client ttl organization_id rules) w)
        (held-set ttl organization_id rules w c h)
