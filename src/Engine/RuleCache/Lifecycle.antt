-- ===== src/Engine/RuleCache/Lifecycle.antt =====
-- RuleCacheService as its module starts and stops: onModuleInit, onModuleDestroy and isReady
-- (src/engine/rule-cache.service.ts). The two connections are ioredis, a parameter.
use complif_techinical_chall.Base.{ℕ, String, ◌≡◌, Bool, true, false, none, [], ◌∷◌, ◌++◌, arith}
use complif_techinical_chall.Common.Exec.{
  Error, Result, ok, err, Exec, result_of, state_of, pure, catch, ◌>>◌,
}
use complif_techinical_chall.World.{World, cache_miss}
use complif_techinical_chall.Engine.RuleCache.{RedisClient, CachedRules, get, set, invalidate}

-- the calls of `this.client` and `this.subscriber`
pub record Connections (Redis : Type 0) : Type 0 where
  pub connect_client : Redis → Result (Unit {0}) × Redis
  pub connect_subscriber : Redis → Result (Unit {0}) × Redis
  pub subscribe : String → Redis → Result (Unit {0}) × Redis
  pub on_message : Redis → Redis
  pub unsubscribe : String → Redis → Result (Unit {0}) × Redis
  pub quit_subscriber : Redis → Result (Unit {0}) × Redis
  pub quit_client : Redis → Result (Unit {0}) × Redis

abbrev both : Result (Unit {0}) → Result (Unit {0}) → Result (Unit {0})
both (ok _) r = r
both (err e) r = err e

-- what `onModuleInit` waits for, in its order
abbrev pub connected : {Redis : Type 0} → Connections Redis → Redis → Result (Unit {0})
connected connections r =
    let first = connections.connect_client r in
    let second = connections.connect_subscriber first.1 in
    both first.0 (both second.0 (connections.subscribe "rules:invalidation" second.1).0)

abbrev pub succeeds : Result (Unit {0}) → Bool
succeeds (ok _) = true
succeeds (err e) = false

abbrev pub is_ready : {Db Redis : Type 0} → World Db Redis → Bool
is_ready s = s.is_connected

module _ {Db Redis : Type 0} (connections : Connections Redis) where
  abbrev call : (Redis → Result (Unit {0}) × Redis) → Exec (World Db Redis) (Unit {0})
  call q s = ((q s.redis).0, record s { redis = (q s.redis).1 })

  -- Promise.all: both connections are tried, whatever becomes of the first
  abbrev connect_all : Exec (World Db Redis) (Unit {0})
  connect_all s =
      let first = connections.connect_client s.redis in
      let second = connections.connect_subscriber first.1 in
      (both first.0 second.0, record s { redis = second.1 })

  abbrev set_connected : Bool → Exec (World Db Redis) (Unit {0})
  set_connected b s = (ok tt, record s { is_connected = b })

  unfoldable pub on_module_init : Exec (World Db Redis) (Unit {0})
  on_module_init =
      catch
        (do
          connect_all
          set_connected true
          call (connections.subscribe "rules:invalidation")
          λ s. (ok tt, record s { redis = connections.on_message s.redis }))
        (λ error. set_connected false)

  -- both clients are set by the constructor
  unfoldable pub on_module_destroy : Exec (World Db Redis) (Unit {0})
  on_module_destroy =
      catch
        (do
          call (connections.unsubscribe "rules:invalidation")
          call connections.quit_subscriber
          call connections.quit_client)
        (λ error. pure tt)

  -- The start of the cache never throws and touches neither the database nor the trace; the cache
  -- is ready exactly where both clients connect and the subscription succeeds. Its stop never
  -- throws either, whatever fails in it, and leaves the cache as ready as it was.
  pub on_module_init-on_module_destroy :
      (w : World Db Redis)
      → (result_of on_module_init w ≡ ok tt)
        × (is_ready (state_of on_module_init w) ≡ succeeds (connected connections w.redis))
        × ((state_of on_module_init w).db ≡ w.db)
        × ((state_of on_module_init w).trace ≡ w.trace)
        × (result_of on_module_destroy w ≡ ok tt)
        × (is_ready (state_of on_module_destroy w) ≡ is_ready w)
  unfolding on_module_init on_module_destroy
  on_module_init-on_module_destroy w = ground arith

  module _ (client : RedisClient Redis) where
    -- Where the start of the cache fails, the service goes on without it: a read counts a miss and
    -- returns nothing, and no operation of the cache touches Redis or throws.
    pub on_module_init-Disabled :
        (w : World Db Redis) (e : Error) (ttl_seconds : ℕ) (organization_id : String)
        (rules : CachedRules)
        → connected connections w.redis ≡ err e
        → (get client organization_id (state_of on_module_init w)
            ≡ (ok none, record (state_of on_module_init w) { trace = w.trace ++ cache_miss ∷ [] }))
          × (set client ttl_seconds organization_id rules (state_of on_module_init w)
              ≡ (ok tt, state_of on_module_init w))
          × (invalidate client organization_id (state_of on_module_init w)
              ≡ (ok tt, state_of on_module_init w))
    unfolding on_module_init get set invalidate
    on_module_init-Disabled w e ttl_seconds organization_id rules h = ground arith
