-- ===== src/Common/DeepMerge.antt =====
-- `deepMerge` of src/common/utils/deep-merge.util.ts, which joins the configurations of a rule
-- template, an organization's override and a rule.
pub mod Laws
use complif_techinical_chall.Base.{String, Option, none, some}
use complif_techinical_chall.Common.Value.{
  Value, undefined, null, bool, num, str, arr, obj, Fields, end, field, get, put,
}

-- The guard of the loop: where the target's value is an object the objects are merged by `merge`,
-- else the source's object replaces it.
abbrev pub merge_object : Option Value → (Fields → Fields) → Fields → Value
merge_object (some (obj t)) merge s = obj (merge t)
merge_object _ merge s = obj s

unfoldable mutual
  -- the value that the loop writes for one key of the source
  pub merge_value : Option Value → Value → Value
  merge_value t undefined = undefined
  merge_value t null = null
  merge_value t (bool b) = bool b
  merge_value t (num n) = num n
  merge_value t (str s) = str s
  merge_value t (arr vs) = arr vs
  merge_value t (obj s) = merge_object t (λ target. merge_into s target target) s

  -- the loop over the keys of the source
  pub merge_into : (source target result : Fields) → Fields
  merge_into end target result = result
  merge_into (field k v source) target result =
      merge_into source target (put k (merge_value (get k target) v) result)

unfoldable pub deep_merge : (target source : Fields) → Fields
unfolding merge_value
deep_merge target source = merge_into source target target
