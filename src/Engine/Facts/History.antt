-- ===== src/Engine/Facts/History.antt =====
-- What the count of the history fact says of a transaction that is stored: `calculate` of
-- src/engine/facts/transaction-history.fact.ts behind `create` of
-- src/transactions/transactions.service.ts.
use complif_techinical_chall.Base.{
  ℕ, ◌+◌, ◌-◌, ◌*◌, ◌≡◌, refl, ap, ◌∙◌, sym, String, ◌==◌, eq_refl, Bool, true, false, not, ◌&&◌,
  Option, none, some, get_or, if◌then◌else◌, List, arith, ltb,
}
use complif_techinical_chall.Base.Int.{ℤ, pos}
use complif_techinical_chall.Common.Value.{Value, num}
use complif_techinical_chall.Common.Exec.{Result, ok, err, result_of, state_of}
use complif_techinical_chall.Common.Repository.{IsRepository, weight, count_rows}
use complif_techinical_chall.Entities.{Transaction}
use complif_techinical_chall.World.{World, Repositories}
use complif_techinical_chall.Engine.Facts.{
  Almanac, TransactionHistoryParams, HistoryQuery, bind, count, day_ms, non_empty, account_of,
  select_of, history, run_query, transaction_history,
}
use complif_techinical_chall.Transactions.{CreateTransactionDto, new_transaction, create}
use Prim.Native.Nat.{min}

-- a type that is asked for, if one is
abbrev is_of_type : Option String → String → Bool
is_of_type none type = true
is_of_type (some asked) type = type == asked

-- the condition of the query on a row
abbrev pub is_selected : HistoryQuery → Transaction → Bool
is_selected q t =
    t.id_organization == q.organization_id
    && t.id_account == q.account_id
    && ltb q.start_date t.datetime
    && not t.is_voided
    && not t.is_deleted
    && is_of_type q.transaction_type t.type

-- whether a request is for a transaction of the account, later than the start of the window, of the
-- type that is asked for, and neither voided nor deleted
abbrev pub is_within : ℕ → TransactionHistoryParams → String → CreateTransactionDto → Bool
is_within start_date params account_id dto =
    dto.id_account == account_id
    && ltb start_date dto.datetime
    && not (get_or dto.is_voided false)
    && not (get_or dto.is_deleted false)
    && is_of_type (non_empty params.transaction_type) dto.type

-- the start of the window
abbrev pub window_start : ℕ → ℕ → TransactionHistoryParams → ℕ
window_start max_days now params = now - min params.time_window_days max_days * day_ms

-- what `save` keeps of a transaction: all but what the database fills in
abbrev pub content : Transaction → Transaction
content t = record t { id = ""; created_at = 0; updated_at = 0 }

-- the query that `calculate` builds for a count
abbrev count_query : ℕ → TransactionHistoryParams → String → String → HistoryQuery
count_query start_date params organization_id account_id = record {
  organization_id = organization_id;
  account_id = account_id;
  start_date = start_date;
  transaction_type = non_empty params.transaction_type;
  select = count;
}

-- `COUNT(*)` answers with one row, the number of the rows that meet the condition.
abbrev pub Counts :
    {Db : Type 0} → (HistoryQuery → Db → Result (Option ℤ)) → (Db → List Transaction) → Type 0
Counts aggregate rows =
    (q : HistoryQuery) (d : _) (r : Option ℤ)
    → q.select ≡ count
    → aggregate q d ≡ ok r
    → r ≡ some (pos (count_rows (is_selected q) (rows d) * 10000))

new_transaction-is_selected :
    (start_date : ℕ) (params : TransactionHistoryParams) (organization_id account_id : String)
    (dto : CreateTransactionDto)
    → is_selected
        (count_query start_date params organization_id account_id)
        (new_transaction organization_id dto)
      ≡ is_within start_date params account_id dto
unfolding new_transaction
new_transaction-is_selected start_date params organization_id account_id dto =
    rw (eq_refl organization_id) refl

select_of-count :
    (aggregation column : String)
    → aggregation ≡ "count"
    → select_of aggregation column ≡ some count
unfolding select_of
select_of-count aggregation column a = rw a refl

number_of :
    (r : Result (Option ℤ)) (expected : ℤ) (value : Value)
    → ((o : Option ℤ) → r ≡ ok o → o ≡ some expected)
    → bind r (λ o. ok (num (get_or o (pos 0)))) ≡ ok value
    → value ≡ num expected
number_of (ok o) expected value c h =
    let answer : o ≡ some expected = c o refl in
    let same : ok (num (get_or o (pos 0))) ≡ ok (num expected) =
      ap {B = Result Value} (λ o. ok (num (get_or o (pos 0)))) answer in
    cc
number_of (err e) expected value c h = absurd (ground arith)

module _ {Db : Type 0} (aggregate : HistoryQuery → Db → Result (Option ℤ))
    (rows : Db → List Transaction) (counts : Counts aggregate rows) where
  run_query-count :
      (q : HistoryQuery) (d : Db) (value : Value)
      → q.select ≡ count
      → run_query aggregate q d ≡ ok value
      → value ≡ num (pos (count_rows (is_selected q) (rows d) * 10000))
  run_query-count q d value s h = number_of (aggregate q d) _ value (λ o. counts q d o s) h

  calculates :
      (max_days now : ℕ) (params : TransactionHistoryParams) (almanac : Almanac)
      (organization_id account_id : String) (d : Db)
      → params.aggregation ≡ "count"
      → account_of params almanac ≡ ok (some account_id)
      → transaction_history aggregate max_days now params almanac organization_id d
        ≡ run_query aggregate
            (count_query (window_start max_days now params) params organization_id account_id)
            d
  unfolding transaction_history history
  calculates max_days now params almanac organization_id account_id d a o = rw o (
      rw (history, select_of-count params.aggregation (get_or params.column "amountNormalized") a)
        refl)

  -- A count is the number of the selected rows.
  transaction_history-count :
      (max_days now : ℕ) (params : TransactionHistoryParams) (almanac : Almanac)
      (organization_id account_id : String) (d : Db) (value : Value)
      → params.aggregation ≡ "count"
      → account_of params almanac ≡ ok (some account_id)
      → transaction_history aggregate max_days now params almanac organization_id d ≡ ok value
      → value
        ≡ num (
            pos (
              count_rows
                (is_selected (
                  count_query (window_start max_days now params) params organization_id account_id))
                (rows d)
              * 10000))
  transaction_history-count max_days now params almanac organization_id account_id d value a o h =
      run_query-count _ d value refl
        (sym (calculates max_days now params almanac organization_id account_id d a o) ∙ h)

module _ {Db Redis : Type 0} (repositories : Repositories Db) (rows : Db → List Transaction)
    (laws : IsRepository repositories.transactions rows (λ t. t.id) content)
    (aggregate : HistoryQuery → Db → Result (Option ℤ)) (counts : Counts aggregate rows) where
  -- By the laws of the repository, and where a count answers with the number of the rows that meet
  -- its condition, storing a transaction raises by one what the history fact counts for an account
  -- at a time, if the transaction is of that account, later than the start of the window, of the
  -- type that is asked for if one is, and neither voided nor deleted, and leaves that count as it was
  -- if not, where the fact answers before and behind it.
  pub create-transaction_history :
      (max_days now : ℕ) (params : TransactionHistoryParams) (almanac : Almanac)
      (organization_id account_id : String) (dto : CreateTransactionDto) (w : World Db Redis)
      (created : Transaction) (before later : Value)
      → params.aggregation ≡ "count"
      → account_of params almanac ≡ ok (some account_id)
      → result_of (create repositories organization_id dto) w ≡ ok created
      → transaction_history aggregate max_days now params almanac organization_id w.db ≡ ok before
      → transaction_history aggregate max_days now params almanac organization_id
          (state_of (create repositories organization_id dto) w).db
        ≡ ok later
      → (n : ℕ) × (before ≡ num (pos (n * 10000)))
        × (later
            ≡ num (
                pos (
                  (n + weight (is_within (window_start max_days now params) params account_id) dto)
                  * 10000)))
  unfolding create new_transaction
  create-transaction_history max_days now params almanac organization_id account_id dto w created
        before later a o h b l =
      let q = count_query (window_start max_days now params) params organization_id account_id in
      let t = new_transaction organization_id dto in
      let same : is_selected q created
          ≡ is_within (window_start max_days now params) params account_id dto =
        ap (is_selected q) (laws.kept t created w.db h)
        ∙ new_transaction-is_selected (window_start max_days now params) params organization_id
            account_id dto in
      let rise = laws.inserted t created w.db (weight (is_selected q)) refl h in
      (
        count_rows (is_selected q) (rows w.db),
        transaction_history-count aggregate rows counts max_days now params almanac organization_id
            account_id w.db before a o b,
        transaction_history-count aggregate rows counts max_days now params almanac organization_id
              account_id _ later a o l
            ∙ ap (λ n. num (pos (n * 10000)))
                (rise
                  ∙ ap (λ b. count_rows (is_selected q) (rows w.db) + (if b then 1 else 0)) same),
      )
