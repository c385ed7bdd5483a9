-- ===== src/Memstore/Resources.antt =====
-- internal/store/memstore/resources.go
use rebuno.Prelude.{
  Bool, List, String, [], filter, if◌then◌else◌, ltb, map, sort, string_eq, ℕ, ℕ_eq, ◌&&◌, ◌++◌,
  ◌==◌, ◌∷◌,
}
use rebuno.Action.{Action, ok}
use rebuno.Domain.Records.{Resource, ResourceCheckpoint, Uuid}
use rebuno.Memstore.Store.{Store}

abbrev same_resource : Resource → Resource → Bool
same_resource r x = x.execution_id == r.execution_id && x.key == r.key

-- the loop of putResourceLocked
unfoldable pub put_in : Resource → List Resource → List Resource
put_in r [] = r ∷ []
put_in r (x ∷ xs) = if same_resource r x then r ∷ xs else x ∷ put_in r xs

-- putResourceLocked
unfoldable pub put_resource : Resource → Action Store (Unit {0})
unfolding put_in
put_resource r s = (ok tt, record s { resources = put_in r s.resources })

-- listResourcesLocked
unfoldable pub list_resources : Uuid → Store → List Resource
list_resources exec_id s =
    sort (λ a b. ltb a.registered_seq b.registered_seq)
      (filter (λ r. r.execution_id == exec_id) s.resources)

-- AddCheckpoint
unfoldable pub add_checkpoint : ResourceCheckpoint → Action Store (Unit {0})
add_checkpoint c s = (ok tt, record s { checkpoints = s.checkpoints ++ (c ∷ []) })

-- listCheckpointsLocked
unfoldable pub list_checkpoints : Uuid → Store → List ResourceCheckpoint
list_checkpoints exec_id s =
    sort (λ a b. ltb a.covered_seq b.covered_seq)
      (filter (λ c. c.execution_id == exec_id) s.checkpoints)

abbrev pub invalidated : Uuid → String → ℕ → ResourceCheckpoint → ResourceCheckpoint
invalidated exec_id key seq c =
    if c.execution_id == exec_id && (c.key == key && c.invalidated_seq == 0)
    then record c { invalidated_seq = seq }
    else c

-- invalidateCheckpointsLocked
unfoldable pub invalidate_checkpoints : Uuid → String → ℕ → Action Store (Unit {0})
invalidate_checkpoints exec_id key seq s =
    (ok tt, record s { checkpoints = map (invalidated exec_id key seq) s.checkpoints })
