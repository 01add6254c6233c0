-- ===== src/Controllers/Routes/Own.antt =====
-- Every request for a route's own path is answered by that route.
use complif_techinical_chall.Base.{
  ◌≡◌, refl, sym, ap, ◌∙◌, String, Bool, true, false, not, ◌==◌, eq_iff, ◌&&◌, any, all, all-Memᴰ,
  codes_eq, codes_eq_iff, to_upper_case, is_empty, Option, some, List, [], ◌∷◌, arith,
}
use mathlib.Core.List.{Memᴰ}
use complif_techinical_chall.Controllers.Routes.{same_method, same_word, fits, routes, IsRouter}
use complif_techinical_chall.Controllers.Routes.Tables.{
  Method, get, post, put, patch, delete, Segment, literal, param, Route,
}

-- the words that stand in a path where another route of the controller has a parameter
abbrev pub reserved : List String
reserved = "enabled" ∷ "defaults" ∷ []

-- a text that can be the id in a path, as every UUID can
abbrev pub is_id : String → Bool
is_id v = not (is_empty v) && not (any (λ word. same_word word v) reserved)

-- the path of a route, at a value for each parameter
abbrev pub filled : (String → String) → List Segment → List String
filled value [] = []
filled value (literal word ∷ ss) = word ∷ filled value ss
filled value (param name ∷ ss) = value name ∷ filled value ss

-- whether some path with ids for its parameters meets both patterns
overlap : List Segment → List Segment → Bool
overlap [] [] = true
overlap [] (s ∷ ss) = false
overlap (r ∷ rs) [] = false
overlap (literal a ∷ rs) (literal b ∷ ss) = same_word a b && overlap rs ss
overlap (literal a ∷ rs) (param n ∷ ss) = not (any (λ word. word == a) reserved) && overlap rs ss
overlap (param m ∷ rs) (s ∷ ss) = overlap rs ss

any-Memᴰ-false {ℓ} :
    {A : Type ℓ} (p : A → Bool) (xs : List A) (x : A) → any p xs ≡ false → Memᴰ x xs → p x ≡ false
any-Memᴰ-false p [] x h none_inside = elim none_inside [ ]
any-Memᴰ-false p (y ∷ ys) x h (Memᴰ.head e) = ap p e ∙ ground arith
any-Memᴰ-false p (y ∷ ys) x h (Memᴰ.tail inside) = any-Memᴰ-false p ys x (ground arith) inside

same_word_refl : (w : String) → same_word w w ≡ true
unfolding same_word
same_word_refl w = (codes_eq_iff (to_upper_case w) (to_upper_case w)).1 refl

-- a reserved word is no id
reserved-ne-id :
    (a v : String)
    → any (λ word. word == a) reserved ≡ true
    → is_id v ≡ true
    → same_word a v ≡ false
reserved-ne-id a v h id = ground (arith, eq_iff "enabled" a, eq_iff "defaults" a)

is_id-nonempty : (v : String) → is_id v ≡ true → not (is_empty v) ≡ true
is_id-nonempty v h = ground arith

module _ (value : String → String) (ids : (name : String) → is_id (value name) ≡ true) where
  fits-filled : (p : List Segment) → fits p (filled value p) ≡ true
  unfolding fits
  fits-filled [] = refl
  fits-filled (literal word ∷ ss) = ground (arith, same_word_refl word, fits-filled ss)
  fits-filled (param name ∷ ss) =
      ground (arith, is_id-nonempty (value name) (ids name), fits-filled ss)

  not-fits : (p q : List Segment) → overlap p q ≡ false → fits p (filled value q) ≡ false
  unfolding fits overlap
  not-fits [] [] h = absurd (cc)
  not-fits [] (literal b ∷ ss) h = refl
  not-fits [] (param n ∷ ss) h = refl
  not-fits (literal a ∷ rs) [] h = refl
  not-fits (param m ∷ rs) [] h = refl
  not-fits (literal a ∷ rs) (literal b ∷ ss) h = ground (arith, not-fits rs ss)
  not-fits (literal a ∷ rs) (param n ∷ ss) h =
      ground (arith, reserved-ne-id a (value n), ids n, not-fits rs ss)
  not-fits (param m ∷ rs) (literal b ∷ ss) h = ground (arith, not-fits rs ss)
  not-fits (param m ∷ rs) (param n ∷ ss) h = ground (arith, not-fits rs ss)

pub same_method_refl : (m : Method) → same_method m m ≡ true
same_method_refl get = refl
same_method_refl post = refl
same_method_refl put = refl
same_method_refl patch = refl
same_method_refl delete = refl

-- whether one route takes requests of another that was registered behind it
abbrev shadows : Route → Route → Bool
shadows earlier later = same_method earlier.method later.method && overlap earlier.path later.path

clear : List Route → Bool
unfolding overlap
clear [] = true
clear (r ∷ rs) = all (λ later. not (shadows r later)) rs && clear rs

routes-clear : clear routes ≡ true
unfolding clear routes same_word codes_eq to_upper_case
routes-clear = refl

module _ (pick : List Route → Method → List String → Option Route) (router : IsRouter pick)
    (value : String → String) (ids : (name : String) → is_id (value name) ≡ true) where
  not-taken :
      (earlier later : Route)
      → not (shadows earlier later) ≡ true
      → (same_method earlier.method later.method && fits earlier.path (filled value later.path))
        ≡ false
  not-taken earlier later h = ground (arith, not-fits value ids earlier.path later.path)

  pick-Memᴰ :
      (rs : List Route) (r : Route)
      → clear rs ≡ true
      → Memᴰ r rs
      → pick rs r.method (filled value r.path) ≡ some r
  unfolding clear
  pick-Memᴰ [] r h none_inside = elim none_inside [ ]
  pick-Memᴰ (x ∷ xs) r h (Memᴰ.head e) =
      ap (λ y. pick (y ∷ xs) r.method (filled value r.path)) (sym e)
      ∙ router.takes r xs (filled value r.path) (fits-filled value ids r.path)
  pick-Memᴰ (x ∷ xs) r h (Memᴰ.tail inside) =
      router.skips x xs r.method (filled value r.path)
        (not-taken x r (all-Memᴰ (λ later. not (shadows x later)) xs r (ground arith) inside))
      ∙ pick-Memᴰ xs r (ground arith) inside

  -- By the documented behaviour of the router, a request with the method and the path of a route of
  -- any controller, with an id for each of its parameters, is answered by that route and by no
  -- other. An id is a text that is not empty and none of the words "enabled" and "defaults", which
  -- other routes have in the place of a parameter.
  pub pick-own : (r : Route) → Memᴰ r routes → pick routes r.method (filled value r.path) ≡ some r
  pick-own r declared = pick-Memᴰ routes r routes-clear declared
