-- ===== src/Tests/History.antt =====
-- A payment stored in a table that was empty, and the count of its account behind it.
use complif_techinical_chall.Base.{ℕ, ◌+◌, ◌*◌, ◌≡◌, refl, String, Option, none, some}
use complif_techinical_chall.Base.Int.{ℤ, pos}
use complif_techinical_chall.Common.Value.{str, num, truthy}
use complif_techinical_chall.Common.Exec.{Result, ok, result_of, state_of}
use complif_techinical_chall.Common.Repository.{IsRepository, weight, count_rows}
use complif_techinical_chall.Entities.{Transaction}
use complif_techinical_chall.World.{World, Repositories}
use complif_techinical_chall.Engine.Facts.{
  Almanac, TransactionHistoryParams, HistoryQuery, account_of, transaction_history,
}
use complif_techinical_chall.Engine.Facts.History.{
  content, is_selected, is_within, window_start, Counts, create-transaction_history,
}
use complif_techinical_chall.Transactions.{create, new_transaction}
use complif_techinical_chall.Tests.Fixtures.{
  table, rows_of, table-IsRepository, stored, world, payment, sample, Server, empty_server,
}

abbrev pub with_id : String → Transaction → Transaction
with_id i t = record t { id = i }

abbrev pub repositories : Repositories (Option Transaction)
repositories = record stored { transactions = table (λ t. t.id) with_id }

laws : IsRepository repositories.transactions (rows_of (λ t. t.id) with_id) (λ t. t.id) content
laws = table-IsRepository (λ t. t.id) with_id content (λ s t. refl)

-- a query builder that counts, whatever it is to select
abbrev aggregate : HistoryQuery → Option Transaction → Result (Option ℤ)
aggregate q d = ok (some (pos (count_rows (is_selected q) (rows_of (λ t. t.id) with_id d) * 10000)))

value_of : (r : Option ℤ) (n : Option ℤ) → ok n ≡ ok r → r ≡ n
value_of r n h = cc

aggregate-Counts : Counts aggregate (rows_of (λ t. t.id) with_id)
aggregate-Counts q d r s h = value_of r _ h

abbrev pub empty_table : World (Option Transaction) Server
empty_table = world none empty_server

-- the payments of the week
abbrev params : TransactionHistoryParams
params = record {
  aggregation = "count";
  column = none;
  time_window_days = 7;
  transaction_type = some "CASH_IN";
  account_id = none;
}

abbrev almanac : Almanac
almanac fact = ok (str "a1")

of_payment : account_of params almanac ≡ ok (some "a1")
unfolding account_of truthy
of_payment = refl

abbrev stored_payment : Transaction
stored_payment = with_id "1" (new_transaction "o1" payment)

stores : result_of (create repositories "o1" payment) empty_table ≡ ok stored_payment
unfolding create table new_transaction
stores = refl

counts_none :
    transaction_history aggregate 30 sample params almanac "o1" empty_table.db ≡ ok (num (pos 0))
unfolding transaction_history truthy
counts_none = refl

counts_one :
    transaction_history aggregate 30 sample params almanac "o1"
      (state_of (create repositories "o1" payment) empty_table).db
    ≡ ok (num (pos 10000))
unfolding transaction_history create table new_transaction truthy
counts_one = refl

create-transaction_history_example :
    (n : ℕ) × (num (pos 0) ≡ num (pos (n * 10000)))
    × (num (pos 10000)
        ≡ num (
            pos (
              (n + weight (is_within (window_start 30 sample params) params "a1") payment)
              * 10000)))
create-transaction_history_example =
    create-transaction_history repositories (rows_of (λ t. t.id) with_id) laws aggregate
      aggregate-Counts 30 sample params almanac "o1" "a1" payment empty_table stored_payment
      (num (pos 0)) (num (pos 10000)) refl of_payment stores counts_none counts_one
