-- ===== src/Context.antt =====
-- What a context.Context carries into a call: the principal of internal/auth/principal.go, the reading
-- of the clock and whether the context is cancelled. One call sees one reading.
use rebuno.Prelude.{Bool, List, Option, String}
use rebuno.Domain.Records.{Time}

pub record Principal : Type 0 where
  pub agent_id : String
  pub admin : Bool
  pub scopes : List String
  pub client : Bool
  pub key_id : String
  pub user : String
  pub groups : List String

pub record Context : Type 0 where
  pub principal : Option Principal
  pub now : Time
  pub cancelled : Bool
