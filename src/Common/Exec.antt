-- ===== src/Common/Exec.antt =====
-- Methods that change a state and may throw: what was written before a throw stays written.
use Prim.Native.String
use complif_techinical_chall.Base.{String, ◌≡◌, refl, ◌⊎◌, inl, inr}

-- What the methods throw: Nest's exceptions by their resource and id, an `Error` of a library by
-- its message, and a thrown value that is no `Error`.
pub data Error : Type 0 where
  not_found : (resource id : String) → Error
  conflict : String → Error
  bad_request : String → Error
  thrown : String → Error
  non_error : Error

-- `(error instanceof Error ? error : new Error('Unknown error')).message`
unfoldable pub error_message : Error → String
error_message (not_found resource id) =
    String.◌++◌ resource (String.◌++◌ " with ID \"" (String.◌++◌ id "\" not found"))
error_message (conflict message) = message
error_message (bad_request message) = message
error_message (thrown message) = message
error_message non_error = "Unknown error"

pub data Result {ℓ} (A : Type ℓ) : Type ℓ where
  ok : A → Result A
  err : Error → Result A

pub Result-cases {ℓ} :
    {A : Type ℓ} (result : Result A)
    → ((value : A) × (result ≡ ok value)) ⊎ ((error : Error) × (result ≡ err error))
Result-cases (ok value) = inl (value, refl)
Result-cases (err error) = inr (error, refl)

abbrev pub Exec {ℓ} : Type ℓ → Type ℓ → Type ℓ
Exec State A = State → Result A × State

module _ {ℓ} {S A : Type ℓ} where
  abbrev pub pure : A → Exec S A
  pure a s = (ok a, s)

  abbrev pub throw : Error → Exec S A
  throw e s = (err e, s)

  -- `try { m } catch (error) { handler }`
  abbrev pub catch_after : Result A → (Error → Exec S A) → Exec S A
  catch_after (ok a) handler s = (ok a, s)
  catch_after (err e) handler s = handler e s

  abbrev pub catch : Exec S A → (Error → Exec S A) → Exec S A
  catch m handler s = catch_after (m s).0 handler (m s).1

  -- the state that `m` leaves, and its result
  abbrev pub state_of : Exec S A → S → S
  state_of m s = (m s).1

  abbrev pub result_of : Exec S A → S → Result A
  result_of m s = (m s).0

module _ {ℓ} {S A B : Type ℓ} where
  abbrev pub after : Result A → (A → Exec S B) → Exec S B
  after (ok a) f s = f a s
  after (err e) f s = (err e, s)

  infixl 10 ◌>>=◌ ◌>>◌
  abbrev pub ◌>>=◌ : Exec S A → (A → Exec S B) → Exec S B
  ◌>>=◌ m f s = after (m s).0 f (m s).1

  abbrev pub ◌>>◌ : Exec S A → Exec S B → Exec S B
  m >> n = m >>= λ _. n

module _ {ℓ} {S A B : Type ℓ} where
  -- `try { m } finally { last }`, where `m` has caught what it threw
  abbrev pub finally : Exec S A → Exec S B → Exec S A
  finally m last s = ((m s).0, (last (m s).1).1)

module _ {ℓ} {S A B C : Type ℓ} (m : Exec S A) (f : A → Exec S B) (handler : Error → Exec S B)
    (last : Exec S C) (s s' : S) where
  -- A guarded block whose first step succeeds returns what the rest returns, if that succeeds,
  pub guarded_ok :
      (a : A) (b : B)
      → m s ≡ (ok a, s')
      → (f a s').0 ≡ ok b
      → (finally (catch (m >>= f) handler) last s).0 ≡ ok b
  guarded_ok a b h k = rw h (rw k refl)

  -- and one whose first step throws returns what the handler returns.
  pub guarded_err :
      (e : Error)
      → m s ≡ (err e, s')
      → (finally (catch (m >>= f) handler) last s).0 ≡ (handler e s').0
  guarded_err e h = rw h refl

module _ {ℓ} {S A B : Type ℓ} where
  after-eq-ok :
      (r : Result A) (f : A → Exec S B) (s : S) (b : B)
      → (after r f s).0 ≡ ok b
      → (a : A) × (r ≡ ok a) × ((f a s).0 ≡ ok b)
  after-eq-ok (ok a) f s b h = (a, refl, h)
  after-eq-ok (err e) f s b h = cc

  -- What a block that succeeds went through.
  pub >>=-eq-ok :
      (m : Exec S A) (f : A → Exec S B) (s : S) (b : B)
      → result_of (m >>= f) s ≡ ok b
      → (a : A) × (result_of m s ≡ ok a) × (result_of (f a) (state_of m s) ≡ ok b)
  >>=-eq-ok m f s b h = after-eq-ok (m s).0 f (m s).1 b h
