-- ===== src/Common/DeepMerge/Laws.antt =====
-- What `deepMerge` promises: the value at every key, and the laws of the inheritance chain.
use complif_techinical_chall.Base.{
  String, ◌≡◌, refl, ap, Option, none, some, ◌∙◌, arith, eq_iff, eq_refl, ◌==◌, Bool-cases, inl,
  inr,
}
use complif_techinical_chall.Common.Value.{
  Value, undefined, null, bool, num, str, arr, obj, Fields, end, field, get, put, IsJson, IsObject,
  get-put, get-put_self, put-get_self,
}
use complif_techinical_chall.Common.DeepMerge.{merge_value, merge_into, deep_merge}

-- `source[key]` merged over what the target holds, or the value that is there without it.
abbrev pub merged : Option Value → Option Value → Option Value → Option Value
merged (some v) t old = some (merge_value t v)
merged none t old = old

get-merge_into :
    (j : String) (s t r : Fields)
    → IsObject s
    → get j (merge_into s t r) ≡ merged (get j s) (get j t) (get j r)
unfolding merge_value get
get-merge_into j end t r h = refl
get-merge_into j (field k v s) t r (fresh, json, h) = elim (Bool-cases (k == j)) [
  | inl same ↦ ground (
    arith,
    get-merge_into j s t (put k (merge_value (get k t) v) r) h,
    get-put k j (merge_value (get k t) v) r,
    eq_iff k j,
  )
  | inr other ↦ ground (
    arith,
    get-merge_into j s t (put k (merge_value (get k t) v) r) h,
    get-put k j (merge_value (get k t) v) r,
    eq_iff k j,
  )
]

pub get-deep_merge :
    (j : String) (t s : Fields)
    → IsObject s
    → get j (deep_merge t s) ≡ merged (get j s) (get j t) (get j t)
unfolding deep_merge
get-deep_merge j t s h = get-merge_into j s t t h

-- For each entry of `s`, the object `r` holds a value that the entry does not change.
abbrev IsFixed : (s r : Fields) → Type 0
IsFixed end r = Unit
IsFixed (field k v s) r =
    (w : Value) × (get k r ≡ some w) × (merge_value (some w) v ≡ w) × IsFixed s r

merge_into-field :
    (k : String) (v : Value) (s t r : Fields)
    → merge_into (field k v s) t r ≡ merge_into s t (put k (merge_value (get k t) v) r)
unfolding merge_value
merge_into-field k v s t r = refl

merge_into_fixed : (s r : Fields) → IsFixed s r → merge_into s r r ≡ r
unfolding merge_value
merge_into_fixed end r h = refl
merge_into_fixed (field k v s) r (w, here, same, h) =
    ap (λ x. merge_into s r (put k (merge_value x v) r)) here
    ∙ ap (λ x. merge_into s r (put k x r)) same
    ∙ ap (merge_into s r) (put-get_self k w r here)
    ∙ merge_into_fixed s r h

-- Every entry of `s` is an entry of `r`.
abbrev ArePresent : (s r : Fields) → Type 0
ArePresent end r = Unit
ArePresent (field k v s) r = (get k r ≡ some v) × ArePresent s r

ArePresent-field :
    (s r : Fields) (k : String) (v : Value)
    → get k s ≡ none
    → ArePresent s r
    → ArePresent s (field k v r)
unfolding get
ArePresent-field end r k v fresh h = tt
ArePresent-field (field j w s) r k v fresh (here, h) = (
  ground (arith, eq_iff j k, eq_iff k j),
  ArePresent-field s r k v (ground (arith, eq_iff j k)) h,
)

ArePresent-self : (s : Fields) → IsObject s → ArePresent s s
unfolding get
ArePresent-self end h = tt
ArePresent-self (field k v s) (fresh, json, h) =
    (rw eq_refl, ArePresent-field s s k v fresh (ArePresent-self s h))

-- Every entry of `s` stands in `r` merged over what `t` holds.
abbrev AreMerged : (s t r : Fields) → Type 0
AreMerged end t r = Unit
AreMerged (field k v s) t r = (get k r ≡ some (merge_value (get k t) v)) × AreMerged s t r

merge_into-AreMerged : (s t r : Fields) → IsObject s → AreMerged s t (merge_into s t r)
merge_into-AreMerged end t r h = tt
merge_into-AreMerged (field k v s) t r (fresh, json, h) = rw merge_into-field (
  get-merge_into k s t (put k (merge_value (get k t) v) r) h
      ∙ rw fresh (get-put_self k (merge_value (get k t) v) r),
  merge_into-AreMerged s t (put k (merge_value (get k t) v) r) h,
)

merge_value-obj : (s t : Fields) → merge_value (some (obj t)) (obj s) ≡ obj (merge_into s t t)
unfolding merge_value
merge_value-obj s t = refl

mutual
  unfolding merge_value

  merge_value_self : (v : Value) → IsJson v → merge_value (some v) v ≡ v
  merge_value_self undefined h = elim h [ ]
  merge_value_self null h = refl
  merge_value_self (bool b) h = refl
  merge_value_self (num n) h = refl
  merge_value_self (str s) h = refl
  merge_value_self (arr vs) h = refl
  merge_value_self (obj s) h =
      merge_value-obj s s ∙ ap obj (merge_into_fixed s s (self-IsFixed s s h (ArePresent-self s h)))

  self-IsFixed : (s r : Fields) → IsObject s → ArePresent s r → IsFixed s r
  self-IsFixed end r h p = tt
  self-IsFixed (field k v s) r (fresh, json, h) (here, p) =
      (v, here, merge_value_self v json, self-IsFixed s r h p)

mutual
  unfolding merge_value

  merge_value_again :
      (v : Value) (t : Option Value)
      → IsJson v
      → merge_value (some (merge_value t v)) v ≡ merge_value t v
  merge_value_again undefined t h = refl
  merge_value_again null t h = refl
  merge_value_again (bool b) t h = refl
  merge_value_again (num n) t h = refl
  merge_value_again (str s) t h = refl
  merge_value_again (arr vs) t h = refl
  merge_value_again (obj s) (some (obj t)) h = ap obj (
      merge_into_fixed s (merge_into s t t)
        (again-IsFixed s t (merge_into s t t) h (merge_into-AreMerged s t t h)))
  merge_value_again (obj s) none h = merge_value_self (obj s) h
  merge_value_again (obj s) (some _) h = merge_value_self (obj s) h

  again-IsFixed : (s t r : Fields) → IsObject s → AreMerged s t r → IsFixed s r
  again-IsFixed end t r h m = tt
  again-IsFixed (field k v s) t r (fresh, json, h) (here, m) =
      (merge_value (get k t) v, here, merge_value_again v (get k t) json, again-IsFixed s t r h m)

-- Merging an object of unique keys into itself changes nothing, the order of the keys included.
pub deep_merge_self : (s : Fields) → IsObject s → deep_merge s s ≡ s
unfolding deep_merge
deep_merge_self s h = merge_into_fixed s s (self-IsFixed s s h (ArePresent-self s h))

-- Merging the same source, of unique keys, a second time changes nothing, the order of the keys
-- included.
pub deep_merge_again : (t s : Fields) → IsObject s → deep_merge (deep_merge t s) s ≡ deep_merge t s
unfolding deep_merge
deep_merge_again t s h =
    merge_into_fixed s (merge_into s t t)
      (again-IsFixed s t (merge_into s t t) h (merge_into-AreMerged s t t h))
