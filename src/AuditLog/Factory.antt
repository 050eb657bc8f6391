-- ===== src/AuditLog/Factory.antt =====
-- internal/auditlog/factory/factory.go: the choice between the two stores. Opening the database is
-- an argument: what postgres.Open returns for a connection string and a tenant.
use flux_lens.Base.{String, ◌==◌, if◌then◌else◌}

pub data Backend : Type 0 where
  memory postgres : Backend

-- What Open returns: the fresh chain, the store of the database, or the error of postgres.Open.
pub data Opened (P E : Type 0) : Type 0 where
  new_memory : Opened P E
  opened : P → Opened P E
  not_opened : E → Opened P E

pub data Connected (P E : Type 0) : Type 0 where
  connected : P → Connected P E
  refused : E → Connected P E

of_connection : {P E : Type 0} → Connected P E → Opened P E
of_connection (connected store) = opened store
of_connection (refused e) = not_opened e

unfoldable pub open_store :
    {P E : Type 0} → (String → String → Connected P E) → String → String → Opened P E
unfolding of_connection
open_store connect dsn tenant = if dsn == "" then new_memory else of_connection (connect dsn tenant)

-- BackendLabel, which tests the type of the store
unfoldable pub backend_label : Backend → String
backend_label memory = "memory"
backend_label postgres = "postgres"
