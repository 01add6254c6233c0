-- ===== src/Engine/RuleCache.antt =====
-- RuleCacheService (src/engine/rule-cache.service.ts): the rules of an organization in Redis. The
-- client is ioredis, a parameter. A text in the cache is the JSON text of a value, another text that
-- JSON.parse refuses, or the empty one.
pub mod Coherence
pub mod Lifecycle
pub mod Retry
use Prim.Native.String
use complif_techinical_chall.Base.{ℕ, String, Option, none, some, List, if◌then◌else◌}
use complif_techinical_chall.Common.Value.{Fields}
use complif_techinical_chall.Common.Exec.{thrown, Result, ok, err, Exec, pure, catch, ◌>>=◌, ◌>>◌}
use complif_techinical_chall.World.{World, cache_hit, cache_miss, invalidation_published, emit}

pub record CachedRule : Type 0 where
  pub id : String
  pub name : String
  pub priority : ℕ
  pub config : Fields

pub record CachedRules : Type 0 where
  pub rules : List CachedRule
  pub cached_at : ℕ

pub data CacheText : Type 0 where
  json : CachedRules → CacheText
  malformed empty_text : CacheText

pub record RedisClient (Redis : Type 0) : Type 0 where
  pub get : String → Redis → Result (Option CacheText)
  pub setex : String → ℕ → CacheText → Redis → Result (Unit {0}) × Redis
  pub del : String → Redis → Result (Unit {0}) × Redis
  pub publish : String → String → Redis → Result (Unit {0}) × Redis

-- `${CACHE_KEY_PREFIX}${organizationId}`
unfoldable pub get_cache_key : String → String
get_cache_key organization_id = String.◌++◌ "rules:engine:" organization_id

-- JSON.parse
abbrev parse : CacheText → Result CachedRules
parse (json rules) = ok rules
parse _ = err (thrown "Unexpected token")

module _ {Db Redis : Type 0} (client : RedisClient Redis) where
  abbrev read : (Redis → Result (Option CacheText)) → Exec (World Db Redis) (Option CacheText)
  read q s = (q s.redis, s)

  abbrev run : (Redis → Result (Unit {0}) × Redis) → Exec (World Db Redis) (Unit {0})
  run q s = ((q s.redis).0, record s { redis = (q s.redis).1 })

  abbrev lift : Result CachedRules → Exec (World Db Redis) (Option CachedRules)
  lift (ok rules) s = (ok (some rules), s)
  lift (err e) s = (err e, s)

  -- the body of `get` below `if (!data)`; the hit is counted before the text is parsed
  found : Option CacheText → Exec (World Db Redis) (Option CachedRules)
  found none = do emit cache_miss; pure none
  found (some empty_text) = do emit cache_miss; pure none
  found (some text) = do emit cache_hit; lift (parse text)

  unfoldable pub get : String → Exec (World Db Redis) (Option CachedRules)
  unfolding found
  get organization_id s =
      if s.is_connected
      then catch (do text ← read (client.get (get_cache_key organization_id)); found text)
          (λ error. do emit cache_miss; pure none) s
      else (do emit cache_miss; pure none) s

  unfoldable pub set : ℕ → String → CachedRules → Exec (World Db Redis) (Unit {0})
  set ttl_seconds organization_id rules s =
      if s.is_connected
      then catch (run (client.setex (get_cache_key organization_id) ttl_seconds (json rules)))
          (λ error. pure tt) s
      else (ok tt, s)

  unfoldable pub invalidate : String → Exec (World Db Redis) (Unit {0})
  invalidate organization_id s =
      if s.is_connected
      then catch
          (do
            run (client.del (get_cache_key organization_id))
            run (client.publish "rules:invalidation" organization_id)
            emit (invalidation_published organization_id))
          (λ error. pure tt) s
      else (ok tt, s)

  -- the listener of RULE_CACHE_INVALIDATION_EVENT
  unfoldable pub handle_cache_invalidation : String → Exec (World Db Redis) (Unit {0})
  unfolding invalidate
  handle_cache_invalidation organization_id = invalidate organization_id

  -- A message of the channel: the organization that JSON.parse reads from it, if it can. The
  -- deletion is not awaited, and its error is caught.
  unfoldable pub handle_invalidation_message : Option String → Exec (World Db Redis) (Unit {0})
  handle_invalidation_message none s = (ok tt, s)
  handle_invalidation_message (some organization_id) s =
      catch (run (client.del (get_cache_key organization_id))) (λ error. pure tt) s
