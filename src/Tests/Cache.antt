-- ===== src/Tests/Cache.antt =====
-- The start of the cache and its reconnections at concrete inputs.
use complif_techinical_chall.Base.{◌≤◌, refl, [], ◌∷◌}
use complif_techinical_chall.Common.Exec.{thrown, ok, err}
use complif_techinical_chall.Common.Repository.{total}
use complif_techinical_chall.World.{World}
use complif_techinical_chall.Engine.RuleCache.Lifecycle.{Connections}
use complif_techinical_chall.Engine.RuleCache.Retry.{
  retry_strategy, Waits, ends, waits, retry_strategy-Waits,
}
use complif_techinical_chall.Tests.Fixtures.{world, Server, empty_server}

-- a server that lets both clients in and refuses the subscription
abbrev connections : Connections Server
connections = record {
  connect_client = λ r. (ok tt, r);
  connect_subscriber = λ r. (ok tt, r);
  subscribe = λ channel r. (err (thrown "no subscription"), r);
  on_message = λ r. r;
  unsubscribe = λ channel r. (ok tt, r);
  quit_subscriber = λ r. (ok tt, r);
  quit_client = λ r. (err (thrown "closed"), r);
}

abbrev before : World Unit Server
before = world tt empty_server

three-Waits : Waits 1 (100 ∷ 200 ∷ 300 ∷ [])
unfolding retry_strategy
three-Waits = waits refl (waits refl (waits refl ends))

retry_strategy-Waits_example : (3 ≤ 3) × (total (λ d. d) (100 ∷ 200 ∷ 300 ∷ []) ≤ 600)
retry_strategy-Waits_example = retry_strategy-Waits (100 ∷ 200 ∷ 300 ∷ []) three-Waits
