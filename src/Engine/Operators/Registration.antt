-- ===== src/Engine/Operators/Registration.antt =====
-- Which operators an engine has once they are registered.
use complif_techinical_chall.Base.{◌≡◌, sym, ap, ◌∙◌, List, [], ◌∷◌, ◌++◌}
use mathlib.Core.List.{append-nil, append_assoc}
use complif_techinical_chall.Engine.Operators.{
  Operator, add_operators, register_all_operators, aggregation_operators, list_operators,
  geolocation_operators, all_operators,
}

add_operators-eq : (os engine : List Operator) → add_operators os engine ≡ engine ++ os
unfolding add_operators
add_operators-eq [] engine = sym (append-nil engine)
add_operators-eq (o ∷ os) engine =
    add_operators-eq os (engine ++ o ∷ []) ∙ append_assoc engine (o ∷ []) os

-- Registering the operators adds those of `allOperators` to an engine, each once and in that order,
-- behind the operators that it has.
pub register_all_operators-eq :
    (engine : List Operator) → register_all_operators engine ≡ engine ++ all_operators
unfolding register_all_operators
register_all_operators-eq engine =
    add_operators-eq geolocation_operators
      (add_operators list_operators (add_operators aggregation_operators engine))
    ∙ ap (λ l. l ++ geolocation_operators)
        (add_operators-eq list_operators (add_operators aggregation_operators engine)
          ∙ ap (λ l. l ++ list_operators) (add_operators-eq aggregation_operators engine))
    ∙ append_assoc (engine ++ aggregation_operators) list_operators geolocation_operators
    ∙ append_assoc engine aggregation_operators (list_operators ++ geolocation_operators)
