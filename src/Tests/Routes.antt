-- ===== src/Tests/Routes.antt =====
-- A router that takes the first route that fits, asked for a rule by its id.
use complif_techinical_chall.Base.{
  ◌≡◌, refl, String, true, false, ◌&&◌, Option, none, some, List, [], ◌∷◌, if◌then◌else◌,
  to_upper_case, codes_eq, is_empty,
}
use mathlib.Core.List.{Memᴰ}
use mathlib.Core.Option
use complif_techinical_chall.Controllers.Routes.{same_method, fits, routes, IsRouter, same_word}
use complif_techinical_chall.Controllers.Routes.Tables.{Method, get, literal, param, Route}
use complif_techinical_chall.Controllers.Routes.Own.{is_id, filled, same_method_refl, pick-own}

first_fit : List Route → Method → List String → Option Route
first_fit [] method path = none
first_fit (r ∷ rs) method path =
    let rest = first_fit rs method path in
    if same_method r.method method && fits r.path path then some r else rest

first_fit-takes :
    (r : Route) (rs : List Route) (path : List String)
    → fits r.path path ≡ true
    → first_fit (r ∷ rs) r.method path ≡ some r
unfolding first_fit
first_fit-takes r rs path h = rw (same_method_refl r.method, h) refl

first_fit-skips :
    (r : Route) (rs : List Route) (method : Method) (path : List String)
    → (same_method r.method method && fits r.path path) ≡ false
    → first_fit (r ∷ rs) method path ≡ first_fit rs method path
unfolding first_fit
first_fit-skips r rs method path h = rw h refl

first_fit-IsRouter : IsRouter first_fit
first_fit-IsRouter = record { takes = first_fit-takes; skips = first_fit-skips }

abbrev uuid : String → String
uuid name = "7c9e6679-7425-40de-944b-e07fc1f90ae7"

is_uuid : (name : String) → is_id (uuid name) ≡ true
unfolding same_word codes_eq to_upper_case is_empty
is_uuid name = refl

abbrev find_one : Route
find_one = record {
  method = get;
  path = literal "api" ∷ literal "rules" ∷ param "id" ∷ [];
  handler = "findOne";
  status = 200;
  guarded = true;
}

is_declared : Memᴰ find_one routes
unfolding routes
is_declared = search (Memᴰ.head, Memᴰ.tail) depth 45 fits 4000

pick-own_example : first_fit routes get (filled uuid find_one.path) ≡ some find_one
pick-own_example = pick-own first_fit first_fit-IsRouter uuid is_uuid find_one is_declared

-- and the word "enabled" in its place is another route
enabled_first :
    Option.map (λ (r : Route). r.handler) (first_fit routes get ("api" ∷ "rules" ∷ "ENABLED" ∷ []))
    ≡ some "findEnabledByPriority"
unfolding first_fit routes fits same_word codes_eq to_upper_case
enabled_first = refl
