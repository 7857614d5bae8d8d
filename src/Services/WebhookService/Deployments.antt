-- ===== src/Services/WebhookService/Deployments.antt =====
-- What a deployment runs and how it ends.
use hzelmaim.Prelude.{
  ℕ, suc, ◌≡◌, ◌≢◌, ◌⊎◌, ◌↔◌, refl, ap, sym, ◌∙◌, false, Option, none, some, [], ◌∷◌, ◌++◌, All,
  update_rows, inl, inr, arith, ◌==◌, ==_iff, if◌then◌else◌, Bool-cases,
}
use hzelmaim.Prelude.Bytes.{Bytes, strip_prefix}
use hzelmaim.Prelude.Text.{codes}
use hzelmaim.Api.{ok_injective, ApiError, Result, ok, err}
use hzelmaim.Models.DeliveryStatus.{DeliveryStatus, succeeded, failed}
use hzelmaim.Models.Ssh.{ExecOutput}
use hzelmaim.Models.Webhook.{WebhookConfig, DeliveryError}
use hzelmaim.World.{World, M, ◌>>=◌, pure, attempt, utc_now, Effect, tick, sent, clock}
use hzelmaim.World.After.{
  After, After-pure, After-bind, After-attempt, After-call_told, After-update_told, After-utc_now,
}
use hzelmaim.Db.WebhookRepo
use hzelmaim.Db.WebhookRepo.{set_status}
use hzelmaim.Services.TerminalService.{exec_command, as_texts, drain, no_output}
use hzelmaim.Services.TerminalService.Output.{drain_lem, last_status, before_eof}
use hzelmaim.Services.WebhookService.{Deployment, deploy_command, outcome, run_deployment}
use hzelmaim.Services.WebhookService.Validation.{IsWorkingDir}

-- What follows an opening single quote of the shell: everything up to the next one, and the rest.
unfoldable pub quoted_word : Bytes → Option (Bytes × Bytes)
quoted_word [] = none
quoted_word (b ∷ s) = if b == 39 then some ([], s) else longer b (quoted_word s)
  where
    longer : ℕ → Option (Bytes × Bytes) → Option (Bytes × Bytes)
    longer b none = none
    longer b (some (word, rest)) = some (b ∷ word, rest)

-- The directory that a command line beginning with `cd '` changes to, and what follows it.
unfoldable pub cd_target : Bytes → Option (Bytes × Bytes)
cd_target s = target (strip_prefix (codes "cd '") s)
  where
    target : Option Bytes → Option (Bytes × Bytes)
    target none = none
    target (some rest) = quoted_word rest

not_quote : (b : ℕ) → b ≢ 39 → (b == 39) ≡ false
not_quote b h = ground arith

quoted_word-append :
    (word rest : Bytes)
    → All (λ b. (b ≢ 0) × (b ≢ 39)) word
    → quoted_word (word ++ 39 ∷ rest) ≡ some (word, rest)
unfolding quoted_word
quoted_word-append [] rest h = refl
quoted_word-append (b ∷ word) rest h = rw (not_quote b h.0.1, quoted_word-append word rest h.1) refl

pub cd_target-deploy_command :
    (c : WebhookConfig)
    → IsWorkingDir c.working_dir
    → cd_target (deploy_command c) ≡ some (c.working_dir, codes " && " ++ c.post_pull_cmd)
unfolding cd_target deploy_command strip_prefix
cd_target-deploy_command c h =
    quoted_word-append c.working_dir (codes " && " ++ c.post_pull_cmd) h.unquoted

-- SSH answers, and no exit status but 0 arrives last before the first EOF.
pub record RanWell (w : World) : Type 0 where
  pub connected : w.env.proxmox_fault w.steps ≡ none
  pub exited_zero : last_status 0 (before_eof (w.env.channel w.steps)) ≡ 0

-- The rows of the delivery carry the end of the deployment.
pub record Finished (task : Deployment) (w w' : World) : Type 0 where
  pub status : DeliveryStatus
  pub message : Option DeliveryError
  pub stored : w'.db ≡ record w.db {
    webhook_deliveries =
        update_rows
          (λ r. r.id == task.delivery.id)
          (set_status status message (some (clock (tick w))))
          w.db.webhook_deliveries;
  }
  pub final : (status ≡ succeeded) ⊎ (status ≡ failed)
  pub succeeded_iff : (status ≡ succeeded) ↔ RanWell w

exit_code_lem :
    (w : World)
    → (drain (w.env.channel w.steps) no_output).exit_code
      ≡ last_status 0 (before_eof (w.env.channel w.steps))
exit_code_lem w = ap (λ (o : ExecOutput). o.exit_code) (drain_lem (w.env.channel w.steps))

-- The status that a result stands for.
outcome_lem :
    (w : World) (result : Result ExecOutput)
    → ((e : ApiError) → result ≡ err e → ¬ RanWell w)
    → ((o : ExecOutput) → result ≡ ok o → RanWell w ↔ (o.exit_code ≡ 0))
    → (((outcome result).0 ≡ succeeded) ⊎ ((outcome result).0 ≡ failed))
      × (((outcome result).0 ≡ succeeded) ↔ RanWell w)
unfolding outcome
outcome_lem w (err e) h k = (inr refl, (λ s. absurd (cc), λ r. absurd (h e refl r)))
outcome_lem w (ok o) h k = elim (Bool-cases (o.exit_code == 0)) [
  | inl t ↦ rw t (inl refl, (λ _. (k o refl).1 ((==_iff o.exit_code 0).0 t), λ _. refl))
  | inr f ↦
      rw f (inr refl, (λ s. absurd (cc), λ r. absurd (let z = (k o refl).0 r in ground arith)))
]

module _ (task : Deployment) (w : World) where
  abbrev Ended : Result (Unit {0}) → World → Type 0
  Ended r w' =
      (r ≡ ok tt)
      × (w'.trace ≡ Effect.exec_deployment task.ctid (deploy_command task.config) ∷ w.trace)
      × ((w'.db ≡ w.db) ⊎ Finished task w w')
      × (w.env.db_fault (suc (suc w.steps)) ≡ false → Finished task w w')

  finished :
      (result : Result ExecOutput) (w' : World)
      → ((e : ApiError) → result ≡ err e → ¬ RanWell w)
      → ((o : ExecOutput) → result ≡ ok o → RanWell w ↔ (o.exit_code ≡ 0))
      → w'.db ≡ record w.db {
        webhook_deliveries =
            update_rows
              (λ r. r.id == task.delivery.id)
              (set_status (outcome result).0 (outcome result).1 (some (clock (tick w))))
              w.db.webhook_deliveries;
      }
      → Finished task w w'
  finished result w' h k stored = record {
    status = (outcome result).0;
    message = (outcome result).1;
    stored = stored;
    final = (outcome_lem w result h k).0;
    succeeded_iff = (outcome_lem w result h k).1;
  }

  -- The rest of the deployment, once the command has run.
  abbrev report : Result ExecOutput → M (Unit {0})
  report result = do
    completed_at ← utc_now
    _ ← attempt (
        WebhookRepo.update_delivery_status task.delivery.id (outcome result).0 (outcome result).1
          (some completed_at))
    pure tt

  report_lem :
      (result : Result ExecOutput)
      → ((e : ApiError) → result ≡ err e → ¬ RanWell w)
      → ((o : ExecOutput) → result ≡ ok o → RanWell w ↔ (o.exit_code ≡ 0))
      → After
          (report result)
          (sent (Effect.exec_deployment task.ctid (deploy_command task.config)) w)
          Ended
  unfolding WebhookRepo.update_delivery_status
  report_lem result h k = After-bind _ _ _ _ (
      After-utc_now _ _ (
        After-bind _ _ _ _ (
          After-attempt _ _ _ (
            After-update_told _ _ _
              (λ fault. After-pure _ _ _ (refl, refl, inl refl, λ answers. absurd (cc)))
              (λ _.
                After-pure _ _ _ (
                  refl,
                  refl,
                  inr (finished result _ h k refl),
                  λ _. finished result _ h k refl,
                ))))))

  ran_lem :
      w.env.proxmox_fault w.steps ≡ none
      → (o : ExecOutput) → ok (as_texts (drain (w.env.channel w.steps) no_output)) ≡ ok o
      → RanWell w ↔ (o.exit_code ≡ 0)
  ran_lem reached o e =
      let code : o.exit_code ≡ last_status 0 (before_eof (w.env.channel w.steps)) =
        sym (ap (λ (x : ExecOutput). x.exit_code) (ok_injective _ o e)) ∙ exit_code_lem w in
      (λ r. code ∙ r.exited_zero, λ z. record { connected = reached; exited_zero = sym code ∙ z })

  deployment_lem : After (run_deployment task) w Ended
  unfolding run_deployment exec_command
  deployment_lem = After-bind _ w _ _ (
      After-attempt _ w _ (
        After-call_told _ w _ _
          (λ x down.
            report_lem (err x) (λ e _ r. absurd (let up = r.connected in cc)) (λ o e. absurd (cc)))
          (λ reached.
            report_lem (ok (as_texts (drain (w.env.channel w.steps) no_output)))
              (λ e p. absurd (cc)) (ran_lem reached))))

-- A deployment never fails itself and runs exactly one command, the one of its configuration. It
-- changes nothing in the database but the rows of its delivery: these are stored as succeeded, if
-- SSH answered and the last exit status before the first EOF, when there is one, is 0, and as
-- failed otherwise.
pub run_deployment_lem :
    (task : Deployment) (w : World)
    → After (run_deployment task) w λ r w'.
      (r ≡ ok tt)
      × (w'.trace ≡ Effect.exec_deployment task.ctid (deploy_command task.config) ∷ w.trace)
      × ((w'.db ≡ w.db) ⊎ Finished task w w')
run_deployment_lem task w =
    let (answer, called, changed, told) = (deployment_lem task w).holds in
    record { holds = (answer, called, changed) }
