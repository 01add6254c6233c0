-- ===== src/Validation/Dates.antt =====
-- The `date` of a transaction (src/transactions/dto/create-transaction.dto.ts), whose column is a
-- date.
use complif_techinical_chall.Base.{
  ◌≡◌, refl, ap, ◌∙◌, String, ◌==◌, Bool, true, false, ◌&&◌, all, is_empty, List, [], ◌∷◌,
  if◌then◌else◌, arith,
}
use complif_techinical_chall.Common.Value.{Fields, end, field, Value, str, get_value, put, get-put}
use complif_techinical_chall.Common.Exec.{Result, ok}
use complif_techinical_chall.Startup.{ValidationOptions}
use complif_techinical_chall.Validation.{
  IsClassValidator, holds, is_known, only_known, is_valid, IsPipe,
}
use complif_techinical_chall.Validation.Schemas.{Check, Property, create_transaction_dto}

get_value-put :
    (k j : String) (v : Value) (o : Fields)
    → get_value j (put k v o) ≡ (if k == j then v else get_value j o)
unfolding get_value
get_value-put k j v o = ground (arith, get-put k j v o)

only_known-put :
    (schema : List Property) (k : String) (v : Value) (o : Fields)
    → is_known schema k ≡ true
    → only_known schema o ≡ true
    → only_known schema (put k v o) ≡ true
unfolding only_known put
only_known-put schema k v end known h = ground arith
only_known-put schema k v (field j w rest) known h =
    ground (arith, only_known-put schema k v rest known)

and_intro : (a b : Bool) → a ≡ true → b ≡ true → (a && b) ≡ true
and_intro a b p q = ground arith

and_left : (a b : Bool) → (a && b) ≡ true → a ≡ true
and_left a b p = ground arith

and_right : (a b : Bool) → (a && b) ≡ true → b ≡ true
and_right a b p = ground arith

-- one of two values, by a test
either-holds :
    (q : Value → Bool) (test : Bool) (new old : Value)
    → (if test then q new else true) ≡ true
    → q old ≡ true
    → q (if test then new else old) ≡ true
either-holds q true new old h k = h
either-holds q false new old h k = k

module _ (passes : Check → Value → Bool) (k : String) (v : Value) (o : Fields) where
  abbrev admits : Property → Bool
  admits p = if k == p.name then holds passes p v else true

  holds-put :
      (schema : List Property)
      → all admits schema ≡ true
      → all (λ p. holds passes p (get_value p.name o)) schema ≡ true
      → all (λ p. holds passes p (get_value p.name (put k v o))) schema ≡ true
  holds-put [] new old = refl
  holds-put (p ∷ ps) new old =
      and_intro _ _
        (ap (holds passes p) (get_value-put k p.name v o)
          ∙ either-holds (holds passes p) (k == p.name) v (get_value p.name o) (and_left _ _ new)
              (and_left _ _ old))
        (holds-put ps (and_right _ _ new) (and_right _ _ old))

date-known : is_known create_transaction_dto "date" ≡ true
unfolding create_transaction_dto
date-known = refl

module _ (passes : Check → Value → Bool) (validator : IsClassValidator passes)
    (pipe : ValidationOptions → List Property → Fields → Result Fields)
    (laws : IsPipe passes pipe) where
  date-admits :
      (s : String) (o : Fields)
      → is_empty s ≡ false
      → all (admits passes "date" (str s) o) create_transaction_dto ≡ true
  unfolding create_transaction_dto
  date-admits s o h = ground (arith, validator.strings s, validator.not_empty s)

  -- By the documented behaviour of the pipe and of the decorators, a transaction that is accepted is
  -- accepted as well with any other text for its date, be it a date or not, as long as it is not
  -- empty: the handler gets it, and only the database can refuse it.
  pub accepts-any_date :
      (options : ValidationOptions) (body : Fields) (s : String)
      → is_valid passes create_transaction_dto body ≡ true
      → is_empty s ≡ false
      → pipe options create_transaction_dto (put "date" (str s) body) ≡ ok (put "date" (str s) body)
  unfolding is_valid
  accepts-any_date options body s valid h =
      laws.accepts options create_transaction_dto (put "date" (str s) body) (
        and_intro _ _
          (holds-put passes "date" (str s) body create_transaction_dto (date-admits s body h)
            (and_left _ _ valid))
          (only_known-put create_transaction_dto "date" (str s) body date-known
            (and_right _ _ valid)))
