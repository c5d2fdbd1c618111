-- ===== src/Storage/Targets.antt =====
-- memory.go: the operations on targets.
use nexus_hunter_ai.Prelude.{String, none, some, List, Result, ok, err}
use nexus_hunter_ai.Prelude.Maps.{find, put, delete, values}
use nexus_hunter_ai.Models.{Target}
use nexus_hunter_ai.Storage.Data.{MemoryStorage, StorageError, looked_up, conflict}

unfoldable pub create : Target → MemoryStorage → Result StorageError MemoryStorage
create target m = elim (find m.targets target.id) [
  | some t ↦ err conflict
  | none ↦ ok (record m { targets = put m.targets target.id target })
]

unfoldable pub get_by_id : String → MemoryStorage → Result StorageError Target
get_by_id id m = looked_up (find m.targets id) ok

unfoldable pub list : MemoryStorage → List Target
list m = values m.targets

unfoldable pub update : Target → MemoryStorage → Result StorageError MemoryStorage
update target m =
    looked_up (find m.targets target.id)
      λ t. ok (record m { targets = put m.targets target.id target })

unfoldable pub delete_target : String → MemoryStorage → Result StorageError MemoryStorage
delete_target id m =
    looked_up (find m.targets id) λ t. ok (record m { targets = delete m.targets id })
