-- ===== src/Engine/Facts/Bounds.antt =====
-- How far back a fact looks.
use complif_techinical_chall.Base.{ℕ, ◌-◌, ◌*◌, ◌≤◌, ◌≡◌, ap, String, arith}
use complif_techinical_chall.Base.Int.{ℤ}
use complif_techinical_chall.Base.{Option}
use complif_techinical_chall.Common.Exec.{Result}
use complif_techinical_chall.Engine.Facts.{
  Almanac, TransactionHistoryParams, HistoryQuery, bind, day_ms, account_of, history,
  transaction_history,
}
use Prim.Native.Nat.{min}

-- A history over more days than the configured maximum is the history over that maximum.
pub transaction_history-capped :
    {Db : Type 0} (aggregate : HistoryQuery → Db → Result (Option ℤ)) (max_days now : ℕ)
    (params : TransactionHistoryParams) (almanac : Almanac) (organization_id : String) (d : Db)
    → max_days ≤ params.time_window_days
    → transaction_history aggregate max_days now params almanac organization_id d
      ≡ transaction_history aggregate max_days now
          (record params { time_window_days = max_days })
          almanac
          organization_id
          d
unfolding transaction_history account_of history
transaction_history-capped aggregate max_days now params almanac organization_id d h =
    let same : min params.time_window_days max_days ≡ min max_days max_days = omega arith in
    ap
      (λ days.
        bind (account_of params almanac)
          λ account_id. history aggregate (now - days * day_ms) params organization_id account_id d)
      same
