-- ===== src/Validation.antt =====
-- Validation of bodies: the decorators of class-validator on the classes of src/*/dto, and the
-- ValidationPipe that `bootstrap` of src/main.ts sets. The decorators' tests and the pipe are
-- parameters, with the behaviour that their documentation gives.
pub mod Schemas
pub mod Columns
pub mod Fits
pub mod Dates
use complif_techinical_chall.Base.{
  ℕ, ◌≤◌, ◌≡◌, String, ◌==◌, Bool, true, false, not, ◌&&◌, ◌||◌, any, all, codes, length, is_empty,
  List, [], ◌∷◌,
}
use mathlib.Core.List.{Memᴰ}
use complif_techinical_chall.Common.Value.{
  Fields, end, field, Value, undefined, null, str, get_value,
}
use complif_techinical_chall.Common.Exec.{Result, ok}
use complif_techinical_chall.Startup.{ValidationOptions}
use complif_techinical_chall.Validation.Schemas.{
  Check, is_string, is_not_empty, max_length, Property,
}

-- the tests of the decorators
pub record IsClassValidator (passes : Check → Value → Bool) : Type 0 where
  pub texts : (v : Value) → passes is_string v ≡ true → (s : String) × (v ≡ str s)
  pub lengths : (n : ℕ) (s : String) → passes (max_length n) (str s) ≡ true → length (codes s) ≤ n
  pub strings : (s : String) → passes is_string (str s) ≡ true
  pub not_empty : (s : String) → passes is_not_empty (str s) ≡ not (is_empty s)

abbrev nullish : Value → Bool
nullish undefined = true
nullish null = true
nullish _ = false

-- a property of the class
abbrev pub is_known : List Property → String → Bool
is_known schema key = any (λ p. p.name == key) schema

unfoldable pub only_known : List Property → Fields → Bool
only_known schema end = true
only_known schema (field key v rest) = is_known schema key && only_known schema rest

module _ (passes : Check → Value → Bool) where
  -- @IsOptional() leaves a property out that is null or undefined.
  abbrev pub holds : Property → Value → Bool
  holds p v = (p.optional && nullish v) || all (λ c. passes c v) p.checks

  -- every property passes its decorators, and there is no other
  unfoldable pub is_valid : List Property → Fields → Bool
  unfolding only_known
  is_valid schema body = all (λ p. holds p (get_value p.name body)) schema && only_known schema body

-- The pipe: with `whitelist`, what it returns is valid, and a valid body is returned as it is.
pub record IsPipe (passes : Check → Value → Bool)
    (pipe : ValidationOptions → List Property → Fields → Result Fields) : Type 0 where
  pub returns :
      (options : ValidationOptions) (schema : List Property) (body dto : Fields)
      → options.whitelist ≡ true
      → pipe options schema body ≡ ok dto
      → is_valid passes schema dto ≡ true
  pub accepts :
      (options : ValidationOptions) (schema : List Property) (body : Fields)
      → is_valid passes schema body ≡ true
      → pipe options schema body ≡ ok body
