-- ===== src/Services/ContainerService/Lifecycle.antt =====
-- `start`, `stop` and `restart`: what they may change, and when.
use hzelmaim.Prelude.{
  true, arith, ℕ, ◌≡◌, refl, sym, subst, ◌∙◌, some, String, List, [], ◌==◌, find_row, update_rows,
  ◌⊎◌, inl, inr,
}
use hzelmaim.Api.{Result}
use hzelmaim.Models.User.{Uuid, AuthenticatedUser}
use hzelmaim.Models.Audit.{AuditLogRecord}
use hzelmaim.Models.Container.{ContainerRecord, ContainerState, has, perm_view, perm_start_stop}
use hzelmaim.Models.Proxmox.{ContainerRuntimeStatus}
use hzelmaim.World.{tick, sent, World, Db, Effect, M, ◌>>=◌, ◌>>◌, call}
use hzelmaim.World.After.{After, After-bind, After-call, After-lift, After-select, After-update}
use hzelmaim.Db.ContainerRepo
use hzelmaim.Services.AuditService
use hzelmaim.Services.ContainerService.{
  get, require_permission, poll_for_state, start, stop, restart, store_and_reload,
  confirmed_running, confirmed_stopped,
}
use hzelmaim.Services.ContainerService.Access.{
  held, Untouched, Untouched-before, require_permission_lem, get_lem,
}
use hzelmaim.Services.ContainerService.Polling.{
  Monotone, Comes, comes, Comes-trans, Reported, Reported-widen, poll_for_state_lem,
}

-- The rows of `containers` with this one's state replaced.
abbrev with_state : Uuid → ContainerState → List ContainerRecord → List ContainerRecord
with_state id s = update_rows (λ c. c.id == id) (λ c. record c { state = s })

-- What was stored: nothing, or the state `target` after Proxmox answered `desired` for this
-- container between v and w', or `failed`.
pub data Stored (id : Uuid) (ctid : ℕ) (target : ContainerState) (desired : ContainerRuntimeStatus)
    (w v w' : World) : Type 0 where
  nothing : w'.db ≡ w.db → Stored id ctid target desired w v w'
  confirmed :
      (l : List AuditLogRecord)
      → Reported ctid v w' desired
      → w'.db ≡ record w.db { containers = with_state id target w.db.containers; audit_logs = l }
      → Stored id ctid target desired w v w'
  not_confirmed :
      (l : List AuditLogRecord)
      → w'.db ≡ record w.db {
        containers = with_state id ContainerState.failed w.db.containers;
        audit_logs = l;
      }
      → Stored id ctid target desired w v w'

-- A request that got as far as Proxmox: the container exists, the actor may view it and start and
-- stop it, and Proxmox was called for it before it was asked for the status.
pub record Managed (effect : ℕ → Effect) (actor : AuthenticatedUser) (id : Uuid)
    (target : ContainerState) (desired : ContainerRuntimeStatus) (w w' : World) : Type 0 where
  pub container : ContainerRecord
  pub found : find_row (λ c. c.id == id) w.db.containers ≡ some container
  pub may_view : has (held actor id w.db) perm_view ≡ true
  pub may_manage : has (held actor id w.db) perm_start_stop ≡ true
  pub called : World
  pub before_call : Comes w called
  pub after_call : Comes (sent (effect container.proxmox_ctid) called) w'
  pub stored :
      Stored id container.proxmox_ctid target desired w
        (sent (effect container.proxmox_ctid) called)
        w'

-- The common course of the three requests.
abbrev managing :
    (ℕ → Effect)
    → ContainerRuntimeStatus
    → (ContainerRuntimeStatus → ContainerState)
    → String
    → AuthenticatedUser
    → Uuid
    → M ContainerRecord
managing effect desired confirm action actor id = do
  container ← get actor id
  require_permission actor id perm_start_stop
  call {A = Unit {0}} (effect container.proxmox_ctid) (λ _ _. tt)
  actual ← poll_for_state container.proxmox_ctid desired
  store_and_reload actor id (confirm actual) action

module _ (target : ContainerState) (desired : ContainerRuntimeStatus)
    (confirm : ContainerRuntimeStatus → ContainerState) (right : confirm desired ≡ target)
    (wrong : confirm ContainerRuntimeStatus.unknown ≡ ContainerState.failed) (id : Uuid) where
  -- The end of a request that called Proxmox at u and whose wait ended at v.
  store_lem :
      (actor : AuthenticatedUser) (action : String) (ctid : ℕ) (s : ContainerRuntimeStatus)
      (w u v : World) (Q : Result ContainerRecord → World → Type 0)
      → v.db ≡ w.db
      → ((s ≡ ContainerRuntimeStatus.unknown) ⊎ ((s ≡ desired) × Reported ctid u v s))
      → ((r : Result ContainerRecord) (w' : World)
          → Comes v w'
          → Stored id ctid target desired w u w'
          → Q r w')
      → After (store_and_reload actor id (confirm s) action) v Q
  unfolding store_and_reload ContainerRepo.update_state ContainerRepo.get
  store_lem actor action ctid s w u v Q same outcome stored = After-bind _ v _ _ (
      After-update _ v _ (stored _ _ (comes [] refl (omega arith) refl) (nothing same)) (
        After-bind _ _ _ _ (
          AuditService.log_success_lem _ _ _ _ _ (λ l v' d e t m.
            let passed : Comes v (tick v') = comes [] e (omega (arith, m)) t in
            let done : (r : Result ContainerRecord) → Q r (tick v') =
              λ r. stored r (tick v') passed (ending l (tick v') d passed) in
            After-bind _ v' _ _ (
              After-select _ v' _ (done _)
                (After-lift _ (tick v') _ (λ _ _. done _) (λ _ _. done _)))))))
    where
      ending :
          (l : List AuditLogRecord) (w' : World)
          → w'.db
            ≡ record v.db { containers = with_state id (confirm s) v.db.containers; audit_logs = l }
          → Comes v w'
          → Stored id ctid target desired w u w'
      ending l w' d passed = elim outcome [
        | inl unknown ↦ not_confirmed l (rw (d, same, unknown, wrong) refl)
        | inr (e, r) ↦
            confirmed l
              (subst (Reported ctid u w') e
                (Reported-widen (comes [] refl (omega arith) refl) passed r))
              (rw (d, same, e, right) refl)
      ]

  managing_lem :
      (effect : ℕ → Effect) (action : String) (actor : AuthenticatedUser) (w : World)
      → Monotone w.env
      → After
          (managing effect desired confirm action actor id)
          w
          (λ _ w'. Untouched w w' ⊎ Managed effect actor id target desired w w')
  managing_lem effect action actor w mono = After-bind _ w _ _ (
      get_lem actor id w _ (λ _ w1 a. inl a)
        (λ container w1 a found view. After-bind _ w1 _ _ (
          require_permission_lem actor id perm_start_stop w1 _ (unfold has in refl)
            (λ _ w2 b. inl (Untouched-before w w1 w2 a b))
            (λ w2 b manage.
              let c = Untouched-before w w1 w2 a b in
              let ctid = container.proxmox_ctid in
              let u = sent (effect ctid) w2 in
              let managed : (w' : World)
                  → Comes u w'
                  → Stored id ctid target desired w u w'
                  → Managed effect actor id target desired w w' =
                λ w' after s. (record {
                  container = container;
                  found = found;
                  may_view = view;
                  may_manage =
                      subst (λ (d : Db). has (held actor id d) perm_start_stop ≡ true) a.db manage;
                  called = w2;
                  before_call = comes [] c.env c.steps c.trace;
                  after_call = after;
                  stored = s;
                }) in
              After-bind _ w2 _ _ (
                After-call _ w2 _ _
                  (λ _. inr (managed u (comes [] refl (omega arith) refl) (nothing c.db)))
                  (λ _. After-bind _ u _ _ (
                    poll_for_state_lem ctid desired u _ (subst Monotone (sym c.env) mono)
                      (λ s v wait.
                        store_lem actor action ctid s w u v _ (wait.db ∙ c.db) wait.outcome
                          (λ _ w' after st.
                            inr (managed w' (Comes-trans wait.passed after) st))))))))))

-- When time does not go back, `start` has no effect but for an actor who may view the container
-- and start and stop it. It then calls Proxmox to start that container, changes nothing in the
-- database but that container's state and the audit log, and stores `running` only if Proxmox, asked
-- for the status of that container after this call, answered running.
pub start_lem :
    (actor : AuthenticatedUser) (id : Uuid) (w : World)
    → Monotone w.env
    → Untouched w (start actor id w).1
      ⊎ Managed Effect.start_container actor id ContainerState.running
          ContainerRuntimeStatus.running w
          (start actor id w).1
unfolding start
start_lem actor id w mono =
    (managing_lem ContainerState.running ContainerRuntimeStatus.running confirmed_running refl refl
      id Effect.start_container "container.start" actor w mono).holds

-- When time does not go back, `stop` has no effect but for an actor who may view the container
-- and start and stop it. It then calls Proxmox to stop that container, changes nothing in the
-- database but that container's state and the audit log, and stores `stopped` only if Proxmox, asked
-- for the status of that container after this call, answered stopped.
pub stop_lem :
    (actor : AuthenticatedUser) (id : Uuid) (w : World)
    → Monotone w.env
    → Untouched w (stop actor id w).1
      ⊎ Managed Effect.stop_container actor id ContainerState.stopped ContainerRuntimeStatus.stopped
          w
          (stop actor id w).1
unfolding stop
stop_lem actor id w mono =
    (managing_lem ContainerState.stopped ContainerRuntimeStatus.stopped confirmed_stopped refl refl
      id Effect.stop_container "container.stop" actor w mono).holds

-- When time does not go back, `restart` has no effect but for an actor who may view the container
-- and start and stop it. It then calls Proxmox to restart that container, changes nothing in the
-- database but that container's state and the audit log, and stores `running` only if Proxmox, asked
-- for the status of that container after this call, answered running.
pub restart_lem :
    (actor : AuthenticatedUser) (id : Uuid) (w : World)
    → Monotone w.env
    → Untouched w (restart actor id w).1
      ⊎ Managed Effect.restart_container actor id ContainerState.running
          ContainerRuntimeStatus.running w
          (restart actor id w).1
unfolding restart
restart_lem actor id w mono =
    (managing_lem ContainerState.running ContainerRuntimeStatus.running confirmed_running refl refl
      id Effect.restart_container "container.restart" actor w mono).holds
