-- ===== src/Jobs/StateSync/Pass.antt =====
-- What one pass of the reconciliation may change.
use hzelmaim.Prelude.{
  ◌≡◌, refl, sym, ap, ◌∙◌, ◌⊎◌, inl, inr, Bool, true, false, ◌==◌, some, List, [], ◌∷◌, All,
  All-map_with, All-order_by, update_rows, if◌then◌else◌,
}
use hzelmaim.Models.User.{Uuid}
use hzelmaim.Models.Container.{ContainerRecord, ContainerState}
use hzelmaim.Models.Proxmox.{ContainerRuntimeStatus}
use hzelmaim.World.{World, Db}
use hzelmaim.World.After.{
  After, After-bind, After-attempt, After-select, After-match_ok, After-match_err, After-pure,
}
use hzelmaim.World.Keeps.{
  Keeps, After_of_Keeps, Keeps-update, Keeps-guard, Keeps-bind, Keeps-pure, Keeps-attempt,
  Keeps-call, Keeps-match_result,
}
use hzelmaim.Db.ContainerRepo
use hzelmaim.Db.ContainerRepo.{newest_first}
use hzelmaim.Jobs.StateSync.{
  observed, should_update, reconcile, sync_container, sync_all, sync_once,
}

-- A container before and after: only its state may differ, a new state is running or stopped, and
-- `provisioning` stays.
pub record Kept (o n : ContainerRecord) : Type 0 where
  pub same : n ≡ record o { state = n.state }
  pub state :
      (n.state ≡ o.state)
      ⊎ ((n.state ≡ ContainerState.running) ⊎ (n.state ≡ ContainerState.stopped))
  pub provisioning : o.state ≡ ContainerState.provisioning → n.state ≡ ContainerState.provisioning

-- Row by row.
abbrev pub Reconciled : List ContainerRecord → List ContainerRecord → Type 0
Reconciled [] [] = Unit
Reconciled (o ∷ os) (n ∷ ns) = Kept o n × Reconciled os ns
Reconciled _ _ = ⊥

Reconciled-refl : (os : List ContainerRecord) → Reconciled os os
Reconciled-refl [] = tt
Reconciled-refl (o ∷ os) =
    (record { same = refl; state = inl refl; provisioning = λ h. h }, Reconciled-refl os)

Kept-set :
    (b : Bool) (s : ContainerState) (o n : ContainerRecord)
    → ((s ≡ ContainerState.running) ⊎ (s ≡ ContainerState.stopped))
    → (b ≡ true → o.state ≡ ContainerState.provisioning → ⊥)
    → Kept o n
    → Kept o (if b then record n { state = s } else n)
Kept-set false s o n v h k = k
Kept-set true s o n v h k = record {
  same = ap (λ (r : ContainerRecord). record r { state = s }) k.same;
  state = inr v;
  provisioning = λ p. absurd (h refl p);
}

Reconciled-update :
    (id : Uuid) (s : ContainerState) (os ns : List ContainerRecord)
    → ((s ≡ ContainerState.running) ⊎ (s ≡ ContainerState.stopped))
    → All (λ o. (o.id == id) ≡ true → o.state ≡ ContainerState.provisioning → ⊥) os
    → Reconciled os ns
    → Reconciled os (update_rows (λ c. c.id == id) (λ c. record c { state = s }) ns)
Reconciled-update id s [] [] v h r = tt
Reconciled-update id s [] (n ∷ ns) v h r = absurd r
Reconciled-update id s (o ∷ os) [] v h r = absurd r
Reconciled-update id s (o ∷ os) (n ∷ ns) v h r = (
  Kept-set (n.id == id) s o n v (λ e. h.0 (rw (← ap (λ (c : ContainerRecord). c.id) r.0.same) e))
      r.0,
  Reconciled-update id s os ns v h.1 r.1,
)

-- The database differs from an earlier one in reconciled containers only.
pub record Pass (d0 d : Db) : Type 0 where
  pub only : d ≡ record d0 { containers = d.containers }
  pub rows : Reconciled d0.containers d.containers

-- Rows with the id of this one are this one.
abbrev pub OneRow : List ContainerRecord → ContainerRecord → Type 0
OneRow os c = All (λ o. (o.id == c.id) ≡ true → o ≡ c) os

observed_valid :
    (status : ContainerRuntimeStatus) (s : ContainerState)
    → observed status ≡ some s
    → (s ≡ ContainerState.running) ⊎ (s ≡ ContainerState.stopped)
observed_valid ContainerRuntimeStatus.running s h = inl (cc)
observed_valid ContainerRuntimeStatus.stopped s h = inr (cc)
observed_valid ContainerRuntimeStatus.unknown s h = absurd (cc)

not_provisioning :
    (a s : ContainerState) → should_update a s ≡ true → a ≡ ContainerState.provisioning → ⊥
unfolding should_update
not_provisioning ContainerState.provisioning s h p = absurd (cc)
not_provisioning ContainerState.running s h p = absurd (cc)
not_provisioning ContainerState.stopped s h p = absurd (cc)
not_provisioning ContainerState.failed s h p = absurd (cc)

module _ (d0 : Db) where
  update_state-Pass :
      (c : ContainerRecord) (s : ContainerState)
      → OneRow d0.containers c
      → ((s ≡ ContainerState.running) ⊎ (s ≡ ContainerState.stopped))
      → should_update c.state s ≡ true
      → Keeps (Pass d0) (ContainerRepo.update_state c.id s)
  unfolding ContainerRepo.update_state
  update_state-Pass c s one v u = Keeps-update _ λ d p. record {
    only =
        ap
          (λ (e : Db). record e {
            containers = update_rows (λ r. r.id == c.id) (λ r. record r { state = s }) d.containers;
          })
          p.only;
    rows =
        Reconciled-update c.id s d0.containers d.containers v
          (All-map_with _ _ d0.containers
            (λ o same e q.
              not_provisioning c.state s u
                (ap (λ (r : ContainerRecord). r.state) (sym (same e)) ∙ q))
            one)
          p.rows;
  }

  reconcile-Pass :
      (c : ContainerRecord) (status : ContainerRuntimeStatus)
      → OneRow d0.containers c
      → Keeps (Pass d0) (reconcile c (observed status))
  unfolding reconcile
  reconcile-Pass c ContainerRuntimeStatus.unknown one = Keeps-pure tt
  reconcile-Pass c ContainerRuntimeStatus.running one =
      Keeps-guard _ _ _
        (λ u.
          Keeps-bind _ _
            (Keeps-attempt _ (update_state-Pass c ContainerState.running one (inl refl) u))
            (λ _. Keeps-pure tt))
        (Keeps-pure tt)
  reconcile-Pass c ContainerRuntimeStatus.stopped one =
      Keeps-guard _ _ _
        (λ u.
          Keeps-bind _ _
            (Keeps-attempt _ (update_state-Pass c ContainerState.stopped one (inr refl) u))
            (λ _. Keeps-pure tt))
        (Keeps-pure tt)

  sync_container-Pass :
      (c : ContainerRecord) → OneRow d0.containers c → Keeps (Pass d0) (sync_container c)
  unfolding sync_container
  sync_container-Pass c one = Keeps-bind _ _ (Keeps-attempt _ (Keeps-call _ _)) (λ answer.
      Keeps-match_result answer _ _ (λ actual. reconcile-Pass c actual one) (λ _. Keeps-pure tt))

  sync_all-Pass :
      (cs : List ContainerRecord) → All (OneRow d0.containers) cs → Keeps (Pass d0) (sync_all cs)
  unfolding sync_all
  sync_all-Pass [] one = Keeps-pure tt
  sync_all-Pass (c ∷ cs) one =
      Keeps-bind _ _ (sync_container-Pass c one.0) (λ _. sync_all-Pass cs one.1)

sync_lem :
    (w : World)
    → All (OneRow w.db.containers) w.db.containers
    → After sync_once w (λ _ w'. Pass w.db w'.db)
unfolding sync_once ContainerRepo.list_all
sync_lem w one = After-bind _ w _ _ (
    After-attempt _ w _ (
      After-select _ w _ (After-match_err _ _ _ _ _ (After-pure _ _ _ start)) (
        After-match_ok _ _ _ _ _ (
          After_of_Keeps (Pass w.db)
            (sync_all-Pass w.db _ (All-order_by _ newest_first w.db.containers one)) start
            (λ d p. p)))))
  where
    start : Pass w.db w.db
    start = record { only = refl; rows = Reconciled-refl w.db.containers }

-- When no two containers share an id, one pass changes nothing in the database but states of
-- containers, whichever calls fail: each new state is running or stopped, and a container that is
-- being provisioned stays so.
pub sync_once_lem :
    (w : World) → All (OneRow w.db.containers) w.db.containers → Pass w.db (sync_once w).1.db
sync_once_lem w one = (sync_lem w one).holds
