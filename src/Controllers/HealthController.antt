-- ===== src/Controllers/HealthController.antt =====
-- HealthController (src/health/health.controller.ts). What the health service makes of its checks and
-- what pinging a database does are parameters, of @nestjs/terminus.
use complif_techinical_chall.Base.{String, List, [], ◌∷◌}
use complif_techinical_chall.Common.Exec.{Exec}

module _ {State Status Summary : Type 0}
    (health_check : List (Exec State Status) → Exec State Summary)
    (ping_check : String → Exec State Status) where
  unfoldable pub check : Exec State Summary
  check = health_check (ping_check "database" ∷ [])
