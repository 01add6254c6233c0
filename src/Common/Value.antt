-- ===== src/Common/Value.antt =====
-- JavaScript values, as rule configurations, facts and message payloads hold them. A number is
-- counted in units of 1/10000, so that comparisons are exact. `Fields` is an object,
-- its keys in their order of insertion.
use complif_techinical_chall.Base.{
  ◌≡◌, refl, Bool, true, false, String, Option, none, some, List, [], ◌∷◌, arith, ◌==◌, eq_iff,
  eq_refl, if◌then◌else◌,
}
use complif_techinical_chall.Base.Int.{ℤ, eq_ℤ}

mutual
  pub data Fields : Type 0 where
    end : Fields
    field : (key : String) (value : Value) (others : Fields) → Fields

  pub data Value : Type 0 where
    undefined null : Value
    bool : Bool → Value
    num : ℤ → Value
    str : String → Value
    obj : Fields → Value
    arr : Items → Value

  pub data Items : Type 0 where
    nil : Items
    cons : (first : Value) (others : Items) → Items

abbrev pub items : Items → List Value
items nil = []
items (cons v vs) = v ∷ items vs

-- o[k], `none` where the object has no such key
unfoldable pub get : String → Fields → Option Value
get k end = none
get k (field j v r) = if j == k then some v else get k r

-- o[k], `undefined` where the object has no such key
unfoldable pub get_value : String → Fields → Value
unfolding get
get_value k o = elim (get k o) [ none ↦ undefined | some v ↦ v ]

-- value?.key, of a value that is no text or array
unfoldable pub member : Value → String → Value
unfolding get_value
member (obj o) key = get_value key o
member _ key = undefined

-- o[k] = v: an old key keeps its place, a new one comes last
unfoldable pub put : String → Value → Fields → Fields
put k v end = field k v end
put k v (field j w r) = if j == k then field j v r else field j w (put k v r)

-- a === b. Two arrays or objects are never the same one, since they come from different parses.
unfoldable pub strict_eq : Value → Value → Bool
strict_eq undefined undefined = true
strict_eq null null = true
strict_eq (bool true) (bool true) = true
strict_eq (bool false) (bool false) = true
strict_eq (num a) (num b) = eq_ℤ a b
strict_eq (str a) (str b) = a == b
strict_eq a b = false

-- The truth value of a value under `!`, `&&` and `if`.
unfoldable pub truthy : Value → Bool
truthy undefined = false
truthy null = false
truthy (bool b) = b
truthy (num a) = if eq_ℤ a (ℤ.pos 0) then false else true
truthy (str s) = if s == "" then false else true
truthy (arr vs) = true
truthy (obj o) = true

-- { ...target, ...source }
unfoldable pub spread : Fields → Fields → Fields
unfolding put
spread target end = target
spread target (field k v source) = spread (put k v target) source

-- No key occurs twice, at any depth, as in every value that JSON.parse returns.
abbrev mutual
  pub IsJson : Value → Type 0
  IsJson undefined = ⊥
  IsJson null = Unit
  IsJson (bool b) = Unit
  IsJson (num a) = Unit
  IsJson (str s) = Unit
  IsJson (arr vs) = AreJson vs
  IsJson (obj o) = IsObject o

  pub AreJson : Items → Type 0
  AreJson nil = Unit
  AreJson (cons v vs) = IsJson v × AreJson vs

  pub IsObject : Fields → Type 0
  IsObject end = Unit
  IsObject (field k v r) = (get k r ≡ none) × IsJson v × IsObject r

pub get-put :
    (k j : String) (v : Value) (o : Fields)
    → get j (put k v o) ≡ (if k == j then some v else get j o)
unfolding get put
get-put k j v end = ground arith
get-put k j v (field i w r) = ground (arith, eq_iff k j, eq_iff i k, eq_iff i j, get-put k j v r)

pub get-put_self : (k : String) (v : Value) (o : Fields) → get k (put k v o) ≡ some v
get-put_self k v o = simp (get-put, eq_refl)

-- Writing the value that is there changes nothing, the order of the keys included.
pub put-get_self : (k : String) (v : Value) (o : Fields) → get k o ≡ some v → put k v o ≡ o
unfolding get put
put-get_self k v end h = ground arith
put-get_self k v (field j w r) h = ground (arith, eq_iff j k, put-get_self k v r)

abbrev pub or_else : Option Value → Option Value → Option Value
or_else none old = old
or_else (some v) old = some v

-- A spread object holds the later object's values, and the earlier one's at all other keys.
pub get-spread :
    (j : String) (t s : Fields) → IsObject s → get j (spread t s) ≡ or_else (get j s) (get j t)
unfolding get spread
get-spread j t end h = refl
get-spread j t (field k v s) (fresh, json, h) =
    ground (arith, get-spread j (put k v t) s h, get-put k j v t, eq_iff k j)
