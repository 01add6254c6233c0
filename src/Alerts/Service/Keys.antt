-- ===== src/Alerts/Service/Keys.antt =====
-- Which events have one deduplication key.
use complif_techinical_chall.Base.{
  ℕ, suc, ◌≤◌, ◌<◌, subst, length, length-append, arith, ◌≡◌, ◌↔◌, sym, ◌∙◌, List, ◌∷◌, ◌++◌, some,
  codes, codes-inj,
}
use complif_techinical_chall.Common.Exec.{Result, ok, err}
use complif_techinical_chall.Entities.{AlertEventMessage}
use complif_techinical_chall.Alerts.Calendar.{utc}
use complif_techinical_chall.Alerts.Number.{finite}
use complif_techinical_chall.Alerts.Window.{
  WindowUnit, bucket_key, time_window, config_window, parse_window, calculate_window_key,
}
use complif_techinical_chall.Alerts.Window.Buckets.{SameBucket, bucket_key-eq}
use complif_techinical_chall.Alerts.Window.Digits.{Lacks, split_at}
use complif_techinical_chall.Alerts.Window.Keys.{bucket_key-inj, window_key, ok-inj}
use complif_techinical_chall.Alerts.Service.{account_text, with_window, calculate_dedup_key}
use complif_techinical_chall.Alerts.Window.Lengths.{AtMost, calculate_window_key-AtMost}

-- The parts that a key joins have no colon, as in every UUID.
abbrev pub HasNoColon : AlertEventMessage → Type 0
HasNoColon e = Lacks 58 (codes e.rule_id) × Lacks 58 (codes (account_text e.account_id))

-- Same rule, same account, and times in one bucket of the rule's window.
abbrev pub SameSubject : WindowUnit → ℕ → AlertEventMessage → AlertEventMessage → Type 0
SameSubject unit value e f =
    (e.rule_id ≡ f.rule_id)
    × (account_text e.account_id ≡ account_text f.account_id)
    × SameBucket unit value (utc e.transaction_datetime) (utc f.transaction_datetime)

abbrev joined : AlertEventMessage → List ℕ → List ℕ
joined e window = codes e.rule_id ++ (58 ∷ (codes (account_text e.account_id) ++ (58 ∷ window)))

joined-inj :
    (e f : AlertEventMessage) (u v : List ℕ)
    → HasNoColon e
    → HasNoColon f
    → joined e u ≡ joined f v
    → (e.rule_id ≡ f.rule_id) × (account_text e.account_id ≡ account_text f.account_id) × (u ≡ v)
joined-inj e f u v he hf h =
    let (rule, rest) = split_at 58 (codes e.rule_id) (codes f.rule_id) _ _ he.0 hf.0 h in
    let (account, window) =
      split_at 58 (codes (account_text e.account_id)) (codes (account_text f.account_id)) u v he.1
        hf.1 rest in
    (codes-inj _ _ rule, codes-inj _ _ account, window)

module _ (e : AlertEventMessage) (text : List ℕ) (n : ℕ) (unit : WindowUnit) where
  dedup_key :
      time_window (config_window e.rule_config) ≡ ok text
      → parse_window text ≡ some (finite (suc n), unit)
      → calculate_dedup_key e ≡ ok (joined e (bucket_key unit (suc n) (utc e.transaction_datetime)))
  unfolding calculate_dedup_key
  dedup_key h p = rw (window_key e.rule_config text n unit e.transaction_datetime h p)

-- Two events, under rule configurations that name one window of at least one unit, have one
-- deduplication key exactly if they are of one rule and one account and their times fall into one
-- bucket of the window; the ids of rules and accounts contain no colon.
pub calculate_dedup_key_iff :
    (e f : AlertEventMessage) (text : List ℕ) (n : ℕ) (unit : WindowUnit)
    → time_window (config_window e.rule_config) ≡ ok text
    → time_window (config_window f.rule_config) ≡ ok text
    → parse_window text ≡ some (finite (suc n), unit)
    → HasNoColon e
    → HasNoColon f
    → (calculate_dedup_key e ≡ calculate_dedup_key f) ↔ SameSubject unit (suc n) e f
calculate_dedup_key_iff e f text n unit he hf p ne nf = (
  λ same.
      let (rule, account, window) =
        joined-inj e f _ _ ne nf
          (ok-inj (sym (dedup_key e text n unit he p) ∙ same ∙ dedup_key f text n unit hf p)) in
      (rule, account, bucket_key-inj unit n _ _ window),
  λ (rule, account, bucket).
      dedup_key e text n unit he p
      ∙ (λ i. ok (
          codes (rule i)
          ++ (58 ∷ (codes (account i) ++ (58 ∷ bucket_key-eq unit (suc n) _ _ bucket i)))))
      ∙ sym (dedup_key f text n unit hf p),
)

with_window-AtMost :
    (e : AlertEventMessage) (window : Result (List ℕ))
    → length (codes e.rule_id) ≤ 36
    → length (codes (account_text e.account_id)) ≤ 255
    → AtMost 27 window
    → AtMost 512 (with_window e window)
with_window-AtMost e (ok window) rule account h = omega (
  arith,
  length-append (codes e.rule_id) (58 ∷ (codes (account_text e.account_id) ++ (58 ∷ window))),
  length-append (codes (account_text e.account_id)) (58 ∷ window),
)
with_window-AtMost e (err x) rule account h = tt

-- The deduplication key of an event before the year 10000, whose rule has the id of a UUID and whose
-- account has one that its column holds, fits into the 512 characters of its column, whatever the
-- window of the rule.
pub length-calculate_dedup_key :
    (e : AlertEventMessage) (key : List ℕ)
    → (utc e.transaction_datetime).year < 10000
    → length (codes e.rule_id) ≤ 36
    → length (codes (account_text e.account_id)) ≤ 255
    → calculate_dedup_key e ≡ ok key
    → length key ≤ 512
unfolding calculate_dedup_key
length-calculate_dedup_key e key year rule account h = subst (AtMost 512) h (
    with_window-AtMost e (calculate_window_key e.rule_config e.transaction_datetime) rule account
      (calculate_window_key-AtMost e.rule_config e.transaction_datetime year))
