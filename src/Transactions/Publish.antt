-- ===== src/Transactions/Publish.antt =====
-- What `createAndEvaluate` returns and publishes, whatever the evaluation does.
use complif_techinical_chall.Base.{String, ◌≡◌, refl, ◌∙◌, ap, sym, List, [], ◌∷◌, ◌++◌, map}
use mathlib.Core.List.{append_assoc, append-nil}
use complif_techinical_chall.Common.Exec.{
  Exec, Result, ok, err, state_of, result_of, catch, pure, ◌>>◌,
}
use complif_techinical_chall.Entities.{Transaction}
use complif_techinical_chall.World.{
  World, Repositories, Source, Effect, alert_emitted, transactions_processed, success,
  evaluation_error, emit,
}
use complif_techinical_chall.Engine.Context.{EvaluationContext, EvaluationResult, RuleEvent}
use complif_techinical_chall.Transactions.{
  CreateTransactionDto, create, context_of, alert_message, no_evaluation, publish_alert_events,
  evaluate_transaction, create_and_evaluate,
}

-- the messages of the events, in their order
abbrev pub messages : String → Transaction → List RuleEvent → List Effect
messages organization_id t = map (λ event. alert_emitted (alert_message organization_id t event))

-- what the response says of the evaluation
abbrev pub outcome : Result EvaluationResult → EvaluationResult
outcome (ok r) = r
outcome (err e) = no_evaluation

-- what leaves the process behind the evaluation
abbrev pub effects : String → Source → Transaction → Result EvaluationResult → List Effect
effects organization_id source t (ok r) =
    messages organization_id t r.events
    ++ transactions_processed organization_id source success ∷ []
effects organization_id source t (err e) =
    transactions_processed organization_id source evaluation_error ∷ []

-- the state that an evaluation leaves, with those effects behind it
abbrev pub after_evaluation :
    {Db Redis : Type 0}
    → String
    → Source
    → Transaction
    → Result EvaluationResult × World Db Redis
    → World Db Redis
after_evaluation organization_id source t (r, w) = record w {
  trace = w.trace ++ effects organization_id source t r;
}

module _ {Db Redis : Type 0} (repositories : Repositories Db) where
  publish-messages :
      (organization_id : String) (t : Transaction) (events : List RuleEvent) (w : World Db Redis)
      → publish_alert_events repositories organization_id t events w
        ≡ (ok tt, record w { trace = w.trace ++ messages organization_id t events })
  unfolding publish_alert_events
  publish-messages organization_id t [] w =
      ap (λ l. (ok tt, record w { trace = l })) (sym (append-nil w.trace))
  publish-messages organization_id t (event ∷ events) w =
      publish-messages organization_id t events
        (record w { trace = w.trace ++ alert_emitted (alert_message organization_id t event) ∷ [] })
      ∙ ap (λ l. (ok tt, record w { trace = l }))
          (append_assoc w.trace (alert_emitted (alert_message organization_id t event) ∷ [])
            (messages organization_id t events))

  module _ (evaluate : String → EvaluationContext → Exec (World Db Redis) EvaluationResult) where
    caught :
        (organization_id : String) (source : Source) (t : Transaction) (w : World Db Redis)
        (r : Result EvaluationResult) (w' : World Db Redis)
        → evaluate organization_id (context_of t) w ≡ (r, w')
        → catch
            (evaluate_transaction repositories evaluate organization_id source t)
            (λ e. do
              emit (transactions_processed organization_id source evaluation_error)
              pure no_evaluation)
            w
          ≡ (ok (outcome r), record w' { trace = w'.trace ++ effects organization_id source t r })
    unfolding evaluate_transaction
    caught organization_id source t w (ok r) w' h =
        rw (h, publish-messages)
          (ap (λ l. (ok r, record w' { trace = l })) (append_assoc w'.trace _ _))
    caught organization_id source t w (err e) w' h = rw h

    -- Once the transaction is stored, the request succeeds whatever the evaluation does: it returns
    -- the stored transaction with the evaluation's result, or with an unsuccessful empty one where
    -- the evaluation threw. Behind the effects of the evaluation it publishes one alert message for
    -- each event, in order, and counts the transaction once, as a success or as an evaluation error.
    pub create_and_evaluate-eq :
        (organization_id : String) (dto : CreateTransactionDto) (source : Source)
        (w : World Db Redis) (t : Transaction)
        → result_of (create repositories organization_id dto) w ≡ ok t
        → create_and_evaluate repositories evaluate organization_id dto source w ≡ (
          ok (record {
            transaction = t;
            evaluation = outcome (
                result_of
                  (evaluate organization_id (context_of t))
                  (state_of (create repositories organization_id dto) w));
          }),
          after_evaluation organization_id source t (
              evaluate organization_id
                (context_of t)
                (state_of (create repositories organization_id dto) w)),
        )
    unfolding create_and_evaluate
    create_and_evaluate-eq organization_id dto source w t h =
        rw
          (
            h,
            caught organization_id source t (state_of (create repositories organization_id dto) w) _
                _ refl,
          )
          refl
