-- ===== src/Kernel/Sweeps.antt =====
-- internal/kernel/execution.go, AdmitQueued, and internal/kernel/lifecycle.go, Cleanup, without the
-- rate limiter, the chunks and the joined errors.
use rebuno.Prelude.{if◌then◌else◌, string_eq, ℕ_eq, ◌-◌, ◌==◌}
use rebuno.Action.{Action, caught, for_each, modify, ok, pure, reads, ◌>>=◌}
use rebuno.Context.{Context}
use rebuno.Domain.Records.{Time}
use rebuno.Kernel.Env.{Env}
use rebuno.Kernel.Execution.{admit_next}
use rebuno.Kernel.Keeps.{Keeping}
use rebuno.Kernel.Keeps.Calls.{keeping}
use rebuno.Kernel.Keeps.Endings.{admit_next-Keeping}
use rebuno.Memstore.Cleanup.{delete_executions_created_before, list_idle_sessions}
use rebuno.Memstore.Store.{Store}

-- AdmitQueued
unfoldable pub admit_queued : Env → Context → Action Store (Unit {0})
admit_queued env ctx = do
  sessions ← reads (λ s. ok (list_idle_sessions ctx.now s))
  for_each (λ session. caught (admit_next env ctx session) >>= λ _. pure tt) sessions

pub admit_queued-Keeping : (env : Env) (ctx : Context) → Keeping (admit_queued env ctx)
unfolding admit_queued
admit_queued-Keeping env ctx = search (keeping, admit_next-Keeping env ctx) depth 8

-- Cleanup: a retention of zero keeps everything
unfoldable pub cleanup : (retain : Time) → Context → Action Store (Unit {0})
cleanup retain ctx =
    if retain == 0 then pure tt else modify (delete_executions_created_before (ctx.now - retain))
