-- ===== src/Services/WebhookService/Events.antt =====
-- Lemmas on the handling of an event, from its delivery row on.
use hzelmaim.Prelude.{
  suc, ◌≤◌, ◌≡◌, ◌⊎◌, refl, ap, sym, ◌∙◌, subst, Bool, false, not, ◌||◌, Option, none, some, List,
  [], ◌∷◌, ◌++◌, any, find_row, update_rows, inl, inr, arith, ◌==◌, ==_refl,
}
use hzelmaim.Prelude.Bytes.{Bytes, bytes_eq, bytes_eq_iff}
use hzelmaim.Api.{ok_or-some, ApiError, Result, ok, err, ok_or, internal, container_not_found}
use hzelmaim.Models.User.{Uuid, DateTime}
use hzelmaim.Models.Container.{ContainerRecord}
use hzelmaim.Models.DeliveryStatus.{DeliveryStatus, pending, running, skipped}
use hzelmaim.Models.Webhook.{WebhookConfig, WebhookDelivery, WebhookDeliveryRow}
use hzelmaim.World.{World, Db, M, ◌>>◌, pure, tick, clock}
use hzelmaim.World.After.{
  After, After-pure, After-bind, After-lift_bind, After-select, After-checked, After-update,
  After-new_v4, After-utc_now, After-if,
}
use hzelmaim.Webhooks.Provider.{WebhookEvent, WebhookEventType, is_ping, push}
use hzelmaim.Db.ContainerRepo
use hzelmaim.Db.WebhookRepo
use hzelmaim.Db.WebhookRepo.{to_row, set_status, delivery_conflict}
use hzelmaim.Services.WebhookService.{
  Deployment, Incoming, answered, spawned, skip, launch, deliver,
}
use hzelmaim.Services.WebhookService.Outcome.{
  Quiet, quiet_then, new_delivery, with_row, Spawned, Logged, NoDelivery, ticked, EventDone,
}

last_updated :
    (xs : List WebhookDeliveryRow) (x : WebhookDeliveryRow)
    (f : WebhookDeliveryRow → WebhookDeliveryRow)
    → any (λ (r : WebhookDeliveryRow). r.id == x.id) xs ≡ false
    → update_rows (λ r. r.id == x.id) f (xs ++ x ∷ []) ≡ xs ++ f x ∷ []
last_updated [] x f h = rw (==_refl x.id) refl
last_updated (y ∷ xs) x f h =
    let (a, b) = neither (y.id == x.id) (any (λ (r : WebhookDeliveryRow). r.id == x.id) xs) h in
    rw (a, last_updated xs x f b) refl
  where
    neither : (p q : Bool) → (p || q) ≡ false → (p ≡ false) × (q ≡ false)
    neither p q h = ground arith

left_false : (p q : Bool) → (p || q) ≡ false → p ≡ false
left_false p q h = ground arith

push_of : (t : WebhookEventType) → is_ping t ≡ false → t ≡ push
push_of WebhookEventType.push h = refl
push_of WebhookEventType.ping h = absurd (cc)

module _ (w : World) (config : WebhookConfig) (event : WebhookEvent) (now : DateTime)
    (fresh : any
        (λ (row : WebhookDeliveryRow). row.id == w.env.uuid w.steps)
        w.db.webhook_deliveries
      ≡ false) where
  abbrev id : Uuid
  id = w.env.uuid w.steps

  abbrev delivery_at : DeliveryStatus → WebhookDelivery
  delivery_at = new_delivery config event id now

  abbrev Q : Result Incoming → World → Type 0
  Q r w' = Quiet w w' × (NoDelivery w r w' ⊎ Logged w config event r w')

  -- The world once the row is stored.
  record Stored (v : World) : Type 0 where
    db : v.db ≡ with_row (delivery_at pending) w.db
    quiet : Quiet w v
    later : suc w.steps ≤ v.steps

  set_last :
      (s : DeliveryStatus)
      → record (with_row (delivery_at pending) w.db) {
        webhook_deliveries =
            update_rows
              (λ r. r.id == id)
              (set_status s none none)
              (with_row (delivery_at pending) w.db).webhook_deliveries;
      }
        ≡ with_row (delivery_at s) w.db
  unfolding set_status to_row
  set_last s =
      ap (λ (l : List WebhookDeliveryRow). record w.db { webhook_deliveries = l })
        (last_updated w.db.webhook_deliveries (to_row (delivery_at pending))
          (set_status s none none) fresh)

  logged :
      (s : DeliveryStatus) (r : Result Incoming) (w' : World)
      → ((s ≡ pending) ⊎ ((s ≡ running) ⊎ (s ≡ skipped)))
      → Quiet w w'
      → suc w.steps ≤ w'.steps
      → w'.db ≡ with_row (delivery_at s) w.db
      → ((task : Deployment)
          → r ≡ ok (spawned task)
          → (s ≡ running) × Spawned w config event id task)
      → Q r w'
  logged s r w' early q l d t = (
    q,
    inr (record {
      step = w.steps;
      step_during = (omega arith, l);
      now = now;
      status = s;
      status_early = early;
      fresh = fresh;
      stored = d;
      task_running = t;
    }),
  )

  mark_lem :
      (v : World) (s : DeliveryStatus) (rest : M Incoming)
      → Stored v
      → ((w' : World)
          → Quiet w w'
          → suc w.steps ≤ w'.steps
          → w'.db ≡ with_row (delivery_at s) w.db
          → After rest w' Q)
      → After (WebhookRepo.update_delivery_status id s none none >> rest) v Q
  unfolding WebhookRepo.update_delivery_status
  mark_lem v s rest st next =
      let q : Quiet w (tick v) = quiet_then st.quiet (ticked v) in
      After-bind _ v _ _ (
        After-update _ v _
          (logged pending (err internal) (tick v) (inl refl) q (omega (arith, st.later)) st.db
            (λ task e. absurd (cc)))
          (next _ (record { trace = q.trace; env = q.env; steps = q.steps })
            (omega (arith, st.later))
            (ap
                (λ (d : Db). record d {
                  webhook_deliveries =
                      update_rows (λ r. r.id == id) (set_status s none none) d.webhook_deliveries;
                })
                st.db
              ∙ set_last s)))

  skip_lem : (v : World) → Stored v → After (skip id) v Q
  skip_lem v st = mark_lem v skipped (pure answered) st λ w' q l d.
      After-pure Q w' answered
        (logged skipped (ok answered) w' (inr (inr refl)) q l d (λ task e. absurd (cc)))

  -- The container is looked up in the same table as before the row was stored.
  same_containers :
      (v : World) (found : Option ContainerRecord) (container : ContainerRecord)
      → Stored v
      → find_row (λ c. c.id == config.container_id) v.db.containers ≡ found
      → ok_or found container_not_found ≡ ok container
      → find_row (λ c. c.id == config.container_id) w.db.containers ≡ some container
  same_containers v none container st e h = absurd (cc)
  same_containers v (some c) container st e h =
      sym (ap (λ (d : Db). find_row (λ c. c.id == config.container_id) d.containers) st.db)
      ∙ (e ∙ ok_or-some (some c) container_not_found container h)

  spawned_task : (t u : Deployment) → ok (spawned t) ≡ ok (spawned u) → t ≡ u
  spawned_task t u h = ap task h
    where
      task : Result Incoming → Deployment
      task (ok (spawned u)) = u
      task _ = t

  launch_lem :
      (v : World)
      → Stored v
      → event.event_type ≡ push
      → event.branch ≡ config.branch
      → After (launch config (delivery_at pending)) v Q
  unfolding launch ContainerRepo.get
  launch_lem v st p b =
      let q : Quiet w (tick v) =
        quiet_then st.quiet (record { trace = refl; env = refl; steps = omega arith }) in
      let failed : (e : ApiError) → Q (err e) (tick v) = λ e.
        logged pending (err e) (tick v) (inl refl) q (omega (arith, st.later)) st.db
          (λ task h. absurd (cc)) in
      After-bind _ v _ _ (
        After-select _ v _ (failed internal) (
          After-lift_bind (λ e. failed e)
            λ container h.
              mark_lem (tick v) running _
                (record { db = st.db; quiet = q; later = omega (arith, st.later) })
                λ w' q' l d. After-pure Q w' _ (
                  logged running _ w' (inr (inl refl)) q' l d λ task e. (
                    refl,
                    subst (Spawned w config event id) (spawned_task _ task e) (record {
                      delivery_id = refl;
                      config_same = refl;
                      is_push = p;
                      on_branch = b;
                      container = container;
                      container_found = same_containers v _ container st refl h;
                      ctid = refl;
                    }),
                  ))))

same_text : (s t : Bytes) → not (bytes_eq s t) ≡ false → s ≡ t
same_text s t h = (bytes_eq_iff s t).0 (ground arith)

pub deliver_lem :
    (config : WebhookConfig) (event : WebhookEvent) (w : World)
    → After (deliver config event) w (EventDone w config event)
unfolding deliver WebhookRepo.create_delivery
deliver_lem config event w =
    let now = clock (tick w) in
    let v = tick (tick w) in
    let untold : Quiet w (tick v) =
      quiet_then (ticked w) (quiet_then (ticked (tick w)) (ticked v)) in
    After-bind _ w _ _ (
      After-new_v4 w _ (
        After-bind _ (tick w) _ _ (
          After-utc_now (tick w) _ (
            After-bind _ v _ _ (
              After-checked _ v
                (delivery_conflict (new_delivery config event (w.env.uuid w.steps) now pending)) _
                (untold, inl (refl, refl))
                λ free.
                  let fresh = left_false _ _ free in
                  let st : Stored w config event now fresh _ = record {
                    db = refl;
                    quiet = record { trace = refl; env = refl; steps = omega arith };
                    later = omega arith;
                  } in
                  After-if _ _ _ _ _ (λ _. skip_lem w config event now fresh _ st)
                    (λ (not_ping : is_ping event.event_type ≡ false).
                      After-if _ _ _ _ _ (λ _. skip_lem w config event now fresh _ st)
                        (λ (same : not (bytes_eq event.branch config.branch) ≡ false).
                          launch_lem w config event now fresh _ st (push_of _ not_ping)
                            (same_text event.branch config.branch same))))))))
