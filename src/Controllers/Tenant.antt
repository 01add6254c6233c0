-- ===== src/Controllers/Tenant.antt =====
-- A request on its way through Nest: OrganizationGuard, ParseUUIDPipe and a handler. How Nest calls
-- a guarded handler is a parameter, with the behaviour that its documentation gives.
use complif_techinical_chall.Base.{
  String, ◌==◌, Option-cases, Bool-cases, ◌≡◌, ◌⊎◌, inl, inr, refl, sym, ap, ◌∙◌, Bool, true, some,
}
use complif_techinical_chall.Common.Exec.{Error, bad_request, Result, ok, err, Exec}
use complif_techinical_chall.Http.{Request, can_activate, organization_of}

-- how a handler behind a guard is called
abbrev pub Dispatch : Type 0 → Type 0 → Type 0
Dispatch S A = (Request → Result Bool × Request) → (Request → Exec S A) → Request → Exec S A

-- Guards run first: a handler is called on the request as the guard left it, where the guard
-- returned `true`, and a guard that throws is all that happens.
pub record IsNest {S A : Type 0} (dispatch : Dispatch S A) : Type 0 where
  pub admits :
      (guard : Request → Result Bool × Request) (handler : Request → Exec S A)
      (request passed : Request) (s : S)
      → guard request ≡ (ok true, passed)
      → dispatch guard handler request s ≡ handler passed s
  pub refuses :
      (guard : Request → Result Bool × Request) (handler : Request → Exec S A)
      (request left : Request) (e : Error) (s : S)
      → guard request ≡ (err e, left)
      → dispatch guard handler request s ≡ (err e, s)

-- what the guard does with a request
can_activate-cases :
    (is_valid_uuid : String → Bool) (request : Request)
    → ((id : String) × (request.header ≡ some id)
        × (is_valid_uuid id ≡ true)
        × (can_activate is_valid_uuid request
            ≡ (ok true, record request { organization_id = some id }))
        × (organization_of (record request { organization_id = some id }) ≡ id))
      ⊎ ((message : String) × (can_activate is_valid_uuid request
            ≡ (err (bad_request message), request)))
unfolding can_activate organization_of
can_activate-cases is_valid_uuid request = elim (Option-cases request.header) [
  | inl h ↦ inr ("Missing required header: x-organization-id", rw h refl)
  | inr (id, h) ↦ elim (Bool-cases (id == "")) [
    | inl e ↦ inr ("Missing required header: x-organization-id", rw (h, e) refl)
    | inr ne ↦ elim (Bool-cases (is_valid_uuid id)) [
      | inl v ↦ inl (id, h, v, rw (h, ne, v) refl, rw (h, ne) refl)
      | inr i ↦ inr ("Invalid organization ID format. Expected UUID.", rw (h, ne, i) refl)
    ]
  ]
]

module _ {S A : Type 0} (dispatch : Dispatch S A) (nest : IsNest dispatch)
    (is_valid_uuid : String → Bool) (handler : Request → Exec S A) (request : Request) (s : S) where
  -- A request to a guarded controller either has a valid UUID in its header, and the handler then
  -- runs, on a request that acts for that organization; or it is refused as a bad request, and the
  -- state is as it was.
  pub guarded-cases :
      ((passed : Request) × (request.header ≡ some (organization_of passed))
        × (is_valid_uuid (organization_of passed) ≡ true)
        × (dispatch (can_activate is_valid_uuid) handler request s ≡ handler passed s))
      ⊎ ((message : String) × (dispatch (can_activate is_valid_uuid) handler request s
            ≡ (err (bad_request message), s)))
  guarded-cases = elim (can_activate-cases is_valid_uuid request) [
    | inl (id, header, valid, runs, same) ↦ inl (
      record request { organization_id = some id },
      header ∙ ap some (sym same),
      ap is_valid_uuid same ∙ valid,
      nest.admits (can_activate is_valid_uuid) handler request
          (record request { organization_id = some id }) s runs,
    )
    | inr (message, refused) ↦ inr (
      message,
      nest.refuses (can_activate is_valid_uuid) handler request request (bad_request message) s
          refused,
    )
  ]
