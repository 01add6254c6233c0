-- ===== src/Alerts/Service/Configured.antt =====
-- Which actions an alert event runs, by the `actions` of its rule's configuration.
use complif_techinical_chall.Base.{
  ◌≡◌, refl, sym, ap, ◌∙◌, String, Bool, true, false, List, [], ◌∷◌, ◌++◌, any, if◌then◌else◌,
}
use mathlib.Core.List.{append_assoc, append-nil}
use complif_techinical_chall.Common.Value.{Value, Items, arr, str, items, strict_eq}
use complif_techinical_chall.Common.Exec.{ok}
use complif_techinical_chall.Entities.{Alert, AlertEventMessage}
use complif_techinical_chall.World.{World, Repositories, Effect, action_duration, success}
use complif_techinical_chall.Alerts.Actions.{
  ActionHandler, actions_of, actions_include, db_handler, webhook_handler, queue_handler,
  block_handler,
}
use complif_techinical_chall.Alerts.Service.{
  action_handlers, execute_action_handlers, perform, status_of,
}

abbrev names : String → List Value → Bool
names name vs = any (λ v. strict_eq v (str name)) vs

-- what is observed of an action, once, if the list names it
abbrev chosen : String → List Value → List Effect
chosen name vs = if names name vs then action_duration name success ∷ [] else []

-- what is observed of all the actions, whatever the order of the list and how often it names one
abbrev pub observed : List Value → List Effect
observed vs =
    action_duration "db" success ∷ (chosen "webhook" vs ++ (chosen "queue" vs ++ chosen "block" vs))

listed :
    (event : AlertEventMessage) (vs : Items) (name : String)
    → actions_of event.rule_config ≡ arr vs
    → actions_include (actions_of event.rule_config) name ≡ ok (names name (items vs))
unfolding actions_include
listed event vs name h = ap (λ v. actions_include v name) h

append_assoc4 :
    {A : Type 0} (t a b c d : List A) → (((t ++ a) ++ b) ++ c) ++ d ≡ t ++ (a ++ (b ++ (c ++ d)))
append_assoc4 t a b c d =
    append_assoc ((t ++ a) ++ b) c d
    ∙ append_assoc (t ++ a) b (c ++ d)
    ∙ append_assoc t a (b ++ (c ++ d))

module _ {Db Redis : Type 0} (repositories : Repositories Db) (alert : Alert)
    (event : AlertEventMessage) (is_new : Bool) where
  performs :
      (handler : ActionHandler) (runs : Bool) (w : World Db Redis)
      → status_of (handler.execute alert event is_new) ≡ success
      → perform repositories handler alert event is_new runs w ≡ (
        ok tt,
        record w {
          trace =
              w.trace ++ (if runs then action_duration handler.action_type success ∷ [] else []);
        },
      )
  unfolding perform
  performs handler true w h = rw h refl
  performs handler false w h = ap (λ l. (ok tt, record w { trace = l })) (sym (append-nil w.trace))

  no_more :
      (w : World Db Redis)
      → execute_action_handlers repositories [] alert event is_new w ≡ (ok tt, w)
  unfolding execute_action_handlers
  no_more w = refl

  -- a handler that runs, or does not, in front of others
  one-step :
      (handler : ActionHandler) (handlers : List ActionHandler) (runs : Bool) (w : World Db Redis)
      → handler.should_execute event ≡ ok runs
      → status_of (handler.execute alert event is_new) ≡ success
      → execute_action_handlers repositories (handler ∷ handlers) alert event is_new w
        ≡ execute_action_handlers repositories handlers alert event is_new (record w {
          trace =
              w.trace ++ (if runs then action_duration handler.action_type success ∷ [] else []);
        })
  unfolding execute_action_handlers
  one-step handler handlers runs w h k = rw (h, performs handler runs w k) refl

  -- An event whose configuration holds a list of actions runs the database's action, and behind it
  -- those of webhook, queue and block that the list names, each once and in this order, whatever
  -- else the list holds and however often it names one; none of them fails.
  pub execute_action_handlers-configured :
      (vs : Items) (w : World Db Redis)
      → actions_of event.rule_config ≡ arr vs
      → execute_action_handlers repositories action_handlers alert event is_new w
        ≡ (ok tt, record w { trace = w.trace ++ observed (items vs) })
  unfolding action_handlers db_handler webhook_handler queue_handler block_handler actions_include
  execute_action_handlers-configured vs w h =
      let w1 = record w { trace = w.trace ++ action_duration "db" success ∷ [] } in
      let w2 = record w { trace = w1.trace ++ chosen "webhook" (items vs) } in
      let w3 = record w { trace = w2.trace ++ chosen "queue" (items vs) } in
      let w4 = record w { trace = w3.trace ++ chosen "block" (items vs) } in
      one-step db_handler (webhook_handler ∷ queue_handler ∷ block_handler ∷ []) true w refl refl
      ∙ one-step webhook_handler (queue_handler ∷ block_handler ∷ []) (names "webhook" (items vs))
          w1 (listed event vs "webhook" h) refl
      ∙ one-step queue_handler (block_handler ∷ []) (names "queue" (items vs)) w2
          (listed event vs "queue" h) refl
      ∙ one-step block_handler [] (names "block" (items vs)) w3 (listed event vs "block" h) refl
      ∙ no_more w4
      ∙ ap (λ l. (ok tt, record w { trace = l }))
          (append_assoc4 w.trace (action_duration "db" success ∷ []) (chosen "webhook" (items vs))
            (chosen "queue" (items vs)) (chosen "block" (items vs)))
