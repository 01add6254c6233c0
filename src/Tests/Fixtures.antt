-- ===== src/Tests/Fixtures.antt =====
-- A database that holds at most one row of a table, repositories on it, and a Redis server.
mod Table
unfoldable pub use Table.*
use complif_techinical_chall.Base.{
  ℕ, ◌+◌, ◌≤◌, ◌≡◌, refl, String, ◌==◌, eq_iff, Bool, true, Option, none, some, List, [], ◌∷◌,
  arith, if◌then◌else◌, inl,
}
use complif_techinical_chall.Base.Int.{pos}
use complif_techinical_chall.Common.Value.{Fields, end, field, str}
use complif_techinical_chall.Common.Exec.{thrown, Result, ok, err}
use complif_techinical_chall.Common.Repository.{Repository, IsRepository, count_rows, total}
use complif_techinical_chall.Entities.{
  Organization, Rule, RuleTemplate, TemplateOverride, ListEntry, blacklist, country,
  AlertEventMessage,
}
use complif_techinical_chall.World.{World, Repositories}
use complif_techinical_chall.Transactions.{CreateTransactionDto, new_transaction}
use complif_techinical_chall.Alerts.Service.{new_alert}
use complif_techinical_chall.Engine.RuleCache.{CacheText, RedisClient}
use complif_techinical_chall.Engine.RuleCache.Coherence.{IsRedis}

-- A repository that holds one row, whatever is written to it.
unfoldable pub constant : {Db E : Type 0} → E → Repository Db E
constant e = record {
  find_one = λ p d. ok (if p e then some e else none);
  find = λ p order d. ok (if p e then e ∷ [] else []);
  find_and_count = λ p order skip take d. ok (e ∷ [], 1);
  count = λ p d. ok (if p e then 1 else 0);
  save = λ e' d. (ok e', d);
  remove = λ e' d. (ok tt, d);
  delete = λ p d. (ok 0, d);
}

-- A server that holds a text under each key, and nothing expires.
abbrev pub Server : Type 0
Server = String → Option CacheText

unfoldable pub server_client : RedisClient Server
server_client = record {
  get = λ k r. ok (r k);
  setex = λ k ttl text r. (ok tt, λ j. if k == j then some text else r j);
  del = λ k r. (ok tt, λ j. if k == j then none else r j);
  publish = λ channel message r. (ok tt, r);
}

pub server_client-IsRedis : IsRedis server_client (λ r. r)
unfolding server_client
server_client-IsRedis = record {
  reads = λ k r v h. inl (ground arith);
  writes = λ k j ttl text r h. refl;
  deletes = λ k j r h. refl;
  publishes = λ channel message j r. refl;
}

abbrev pub organization : Organization
organization = record { id = "o1"; created_at = 0; updated_at = 0; name = "One"; settings = end }

abbrev pub template : RuleTemplate
template = record {
  id = "t1";
  created_at = 0;
  updated_at = 0;
  name = "Amount";
  description = none;
  config = field "limit" (str "low") (field "unit" (str "USD") end);
  is_default = true;
}

abbrev pub override : TemplateOverride
override = record {
  id = "v1";
  created_at = 0;
  updated_at = 0;
  id_organization = "o1";
  id_template = "t1";
  overrides = field "limit" (str "high") end;
  enabled = true;
}

abbrev pub rule : Rule
rule = record {
  id = "r1";
  created_at = 0;
  updated_at = 0;
  id_organization = "o1";
  id_template = some "t1";
  name = "Large amount";
  description = none;
  enabled = true;
  priority = 1;
  config = field "severity" (str "HIGH") end;
  created_by = none;
}

abbrev pub entry : ListEntry
entry = record {
  id = "e1";
  created_at = 0;
  updated_at = 0;
  id_organization = "o1";
  list_type = blacklist;
  entity_type = country;
  entity_value = "XX";
  reason = none;
  expires_at = some 10;
  created_by = none;
}

-- 2024-03-05T14:30:00.000Z
abbrev pub sample : ℕ
sample = 1709649000000

abbrev pub payment : CreateTransactionDto
payment = record {
  id_account = "a1";
  amount = pos 120000;
  amount_normalized = pos 120000;
  currency = "USD";
  type = "CASH_IN";
  sub_type = none;
  datetime = sample;
  date = "2024-03-05";
  is_voided = none;
  is_blocked = none;
  is_deleted = none;
  origin = none;
  device_info = none;
  payload = none;
  external_code = none;
  country = some "US";
  counterparty_id = none;
  counterparty_country = none;
}

abbrev pub with_window : String → Option Fields
with_window w = some (field "timeWindow" (str w) end)

abbrev pub event_in : String → AlertEventMessage
event_in window = record {
  organization_id = "o1";
  transaction_id = "x1";
  account_id = some "a1";
  rule_id = "r1";
  rule_name = "Large amount";
  severity = "HIGH";
  category = "AML";
  event_type = "large-amount";
  event_params = end;
  transaction_datetime = sample;
  rule_config = with_window window;
}

abbrev pub event : AlertEventMessage
event = event_in "6h"

-- each table with its row
abbrev pub stored : {Db : Type 0} → Repositories Db
stored = record {
  organizations = constant organization;
  rule_templates = constant template;
  template_overrides = constant override;
  rules = constant rule;
  list_entries = constant entry;
  transactions = constant (new_transaction "o1" payment);
  alerts = constant (new_alert 0 event []);
}

abbrev pub world : {Db Redis : Type 0} → Db → Redis → World Db Redis
world d r = record { db = d; redis = r; is_connected = true; trace = [] }

abbrev pub empty_server : Server
empty_server k = none
