-- ===== src/Tests/Controllers.antt =====
-- The HTTP controllers at concrete requests, with a caller of handlers that runs guards first.
use complif_techinical_chall.Base.{
  ◌≡◌, ◌⊎◌, refl, String, ◌==◌, Bool, true, false, none, some, List, [], arith, if◌then◌else◌,
}
use complif_techinical_chall.Base.Int.{pos}
use complif_techinical_chall.Common.Value.{Fields, num}
use complif_techinical_chall.Common.Exec.{Result, ok, err, thrown, bad_request, Exec, result_of}
use complif_techinical_chall.World.{World, Repositories}
use complif_techinical_chall.Http.{Request, can_activate, organization_of}
use complif_techinical_chall.Tenancy.{Finds}
use complif_techinical_chall.Lists
use complif_techinical_chall.Engine.Context.{EngineEvent, RuleProperties, Providers, Engine}
use complif_techinical_chall.Controllers.ListsController
use complif_techinical_chall.Controllers.Tenant.{Dispatch, IsNest, guarded-cases}
use complif_techinical_chall.Controllers.Rows.{lists, get_by_id, get_by_id-Owned}
use complif_techinical_chall.Tests.Fixtures.{entry, constant, stored, world, Server, empty_server}

module _ {S A : Type 0} where
  nest_after : Result Bool × Request → (Request → Exec S A) → Exec S A
  nest_after (ok true, passed) handler s = handler passed s
  nest_after (ok false, left) handler s = (err (thrown "Forbidden resource"), s)
  nest_after (err e, left) handler s = (err e, s)

  unfoldable nest : Dispatch S A
  unfolding nest_after
  nest guard handler request = nest_after (guard request) handler

  nest-IsNest : IsNest nest
  unfolding nest nest_after
  nest-IsNest = record {
    admits = λ guard handler request passed s h. rw h refl;
    refuses = λ guard handler request left e s h. rw h refl;
  }

abbrev repositories : Repositories Unit
repositories = stored

abbrev before : World Unit Server
before = world tt empty_server

abbrev request : Request
request = record { header = some "o1"; organization_id = none; url = "/alerts"; method = "GET" }

abbrev is_o1 : String → Bool
is_o1 id = id == "o1"

abbrev pipe : String → Result String
pipe id = if id == "" then err (bad_request "Validation failed (uuid is expected)") else ok id

constant-Finds : {E : Type 0} (e : E) → Finds {Db = Unit} (constant e)
unfolding constant
constant-Finds e p d e' h = ground arith

abbrev providers : Providers (World Unit Server)
providers = record {
  transaction_history = λ params almanac organization_id w. ok (num (pos 3));
  account = λ params almanac. ok (num (pos 0));
  list_lookup = λ params almanac organization_id w. ok (num (pos 0));
}

abbrev run :
    Engine (World Unit Server)
    → RuleProperties
    → Fields
    → World Unit Server
    → Result (List EngineEvent)
run engine properties facts w = ok []

-- the guard, ParseUUIDPipe and the handler of GET /lists/e1
guarded-cases_example :
    ((passed : Request) × (request.header ≡ some (organization_of passed))
      × (is_o1 (organization_of passed) ≡ true)
      × (nest
            (can_activate is_o1)
            (λ r. ListsController.find_one {Redis = Server} repositories pipe r "e1")
            request
            before
          ≡ ListsController.find_one repositories pipe passed "e1" before))
    ⊎ ((message : String) × (nest
            (can_activate is_o1)
            (λ r. ListsController.find_one {Redis = Server} repositories pipe r "e1")
            request
            before
          ≡ (err (bad_request message), before)))
guarded-cases_example =
    guarded-cases nest nest-IsNest is_o1 (λ r. ListsController.find_one repositories pipe r "e1")
      request before

returned :
    result_of
      (nest
        (can_activate is_o1)
        (λ passed. get_by_id {Redis = Server} repositories pipe lists passed "e1")
        request)
      before
    ≡ ok entry
unfolding nest nest_after can_activate organization_of ListsController.find_one Lists.find_one
    constant
returned = refl

get_by_id-Owned_example : (pipe "e1" ≡ ok entry.id) × (request.header ≡ some entry.id_organization)
get_by_id-Owned_example =
    get_by_id-Owned repositories pipe lists nest nest-IsNest (constant-Finds _) is_o1 request "e1"
      before entry returned
