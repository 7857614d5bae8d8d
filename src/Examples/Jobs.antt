-- ===== src/Examples/Jobs.antt =====
-- The theorem on the background jobs at sample values.
use hzelmaim.Prelude.{◌≡◌, refl, map, [], ◌∷◌}
use hzelmaim.Models.Container.{ContainerRecord, ContainerState}
use hzelmaim.World.{◌>>=◌, pure, attempt, match_result, select, update, call}
use hzelmaim.Prelude.{order_by, insert_by}
use hzelmaim.Db.ContainerRepo
use hzelmaim.Jobs.StateSync.{should_update, reconcile, sync_container, sync_all, sync_once}
use hzelmaim.Jobs.StateSync.Pass.{Pass, sync_once_lem}
use hzelmaim.Examples.{sample_world, sample_db}

sync_once_lem_example : Pass sample_db (sync_once sample_world).1.db
sync_once_lem_example = sync_once_lem sample_world ((λ _. refl, tt), tt)

-- The stopped container, which Proxmox reports as running, is stored as running.
synced :
    map (λ (c : ContainerRecord). c.state) (sync_once sample_world).1.db.containers
    ≡ ContainerState.running ∷ []
unfolding sync_once sync_all sync_container reconcile should_update ContainerRepo.list_all
    ContainerRepo.update_state ◌>>=◌ pure attempt match_result select update call order_by insert_by
synced = refl
