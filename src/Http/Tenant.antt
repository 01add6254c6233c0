-- ===== src/Http/Tenant.antt =====
-- Which organization a request acts for.
use complif_techinical_chall.Base.{String, ◌≡◌, Bool, true, some, arith}
use complif_techinical_chall.Common.Exec.{ok}
use complif_techinical_chall.Http.{Request, can_activate, organization_of}

-- A request that the guard lets through acts for the organization of its header, which is a valid
-- UUID and not empty, and the guard writes that organization into the request and changes nothing
-- else.
pub can_activate-organization_of :
    (is_valid_uuid : String → Bool) (request : Request)
    → (can_activate is_valid_uuid request).0 ≡ ok true
    → (is_valid_uuid (organization_of request) ≡ true)
      × (request.header ≡ some (organization_of request))
      × ((can_activate is_valid_uuid request).1
          ≡ record request { organization_id = some (organization_of request) })
      × (organization_of (can_activate is_valid_uuid request).1 ≡ organization_of request)
unfolding can_activate organization_of
can_activate-organization_of is_valid_uuid request h = ground arith
