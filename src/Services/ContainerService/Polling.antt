-- ===== src/Services/ContainerService/Polling.antt =====
-- The loop that waits for Proxmox to report a state.
use hzelmaim.Prelude.{
  ℕ, zero, suc, ◌+◌, ◌-◌, ◌*◌, ◌≤◌, ◌≡◌, refl, ◌∙◌, true, false, Option, none, some, arith, leb,
  inl, inr, ◌⊎◌, List, [], ◌∷◌, ◌++◌, ap, sym,
}
use mathlib.Core.List.{append_assoc}
use hzelmaim.Api.{Result, ok, err}
use hzelmaim.Models.User.{DateTime}
use hzelmaim.Models.Proxmox.{ContainerRuntimeStatus, status_eq, status_eq_sound}
use hzelmaim.World.{World, Env, Effect, clock, tick, sent, pure}
use hzelmaim.World.After.{
  After, After-pure, After-bind, After-if, After-attempt, After-call, After-match_ok,
  After-match_err, After-weaken, After-sleep, After-utc_now, Next,
}
use hzelmaim.Services.ContainerService.{
  poll, poll_fuel, poll_for_state, or_unknown, state_poll_timeout, state_poll_interval,
}

-- Time does not go back.
abbrev pub Monotone : Env → Type 0
Monotone env = (n : ℕ) → env.time n ≤ env.time (suc n)

-- The second world comes after the first one: the calls made in between are `since`.
pub record Comes (w w' : World) : Type 0 where
  pub env : w'.env ≡ w.env
  pub steps : w.steps ≤ w'.steps
  pub since : List Effect
  pub trace : w'.trace ≡ since ++ w.trace

pub comes :
    {w w' : World} (since : List Effect)
    → w'.env ≡ w.env
    → w.steps ≤ w'.steps
    → w'.trace ≡ since ++ w.trace
    → Comes w w'
comes since e n t = record { env = e; steps = n; since = since; trace = t }

pub Comes-trans : {u v w : World} → Comes u v → Comes v w → Comes u w
Comes-trans {u} a b = record {
  env = b.env ∙ a.env;
  steps = omega (arith, a.steps, b.steps);
  since = b.since ++ a.since;
  trace =
      b.trace
      ∙ (ap (λ (t : List Effect). b.since ++ t) a.trace
          ∙ sym (append_assoc b.since a.since u.trace));
}

-- Between two worlds, Proxmox was asked for the status of this container, and answered this one.
pub record Reported (ctid : ℕ) (w w' : World) (s : ContainerRuntimeStatus) : Type 0 where
  pub asked : World
  pub after_start : Comes w asked
  pub before_end : Comes (sent (Effect.container_status ctid) asked) w'
  pub answered : w.env.proxmox_fault asked.steps ≡ none
  pub status : w.env.proxmox_status asked.steps ≡ s

pub Reported-widen :
    {ctid : ℕ} {u v v' u' : World} {s : ContainerRuntimeStatus}
    → Comes u v
    → Comes v' u'
    → Reported ctid v v' s
    → Reported ctid u u' s
Reported-widen a z r = record {
  asked = r.asked;
  after_start = Comes-trans a r.after_start;
  before_end = Comes-trans r.before_end z;
  answered = rw (← a.env) r.answered;
  status = rw (← a.env) r.status;
}

-- A wait of at most `budget` milliseconds of sleep that ends with `s`.
pub record Waited (ctid : ℕ) (desired s : ContainerRuntimeStatus) (budget : ℕ) (w w' : World)
    : Type 0 where
  pub db : w'.db ≡ w.db
  pub passed : Comes w w'
  pub slept : w'.slept ≤ w.slept + budget
  pub outcome : (s ≡ ContainerRuntimeStatus.unknown) ⊎ ((s ≡ desired) × Reported ctid w w' s)

-- A wait that ends with a status: it neither fails nor runs out of rounds.
abbrev pub Ends :
    ℕ → ContainerRuntimeStatus → ℕ → World → Result (Option ContainerRuntimeStatus) → World → Type 0
Ends ctid desired budget w (ok (some s)) w' = Waited ctid desired s budget w w'
Ends ctid desired budget w _ w' = ⊥

-- One more round before a wait.
later :
    (ctid : ℕ) (desired s : ContainerRuntimeStatus) (b b' : ℕ) (w v w' : World)
    → v.db ≡ w.db
    → Comes w v
    → v.slept + b ≤ w.slept + b'
    → Waited ctid desired s b v w'
    → Waited ctid desired s b' w w'
later ctid desired s b b' w v w' d c l h = record {
  db = h.db ∙ d;
  passed = Comes-trans c h.passed;
  slept = omega (arith, l, h.slept);
  outcome = elim h.outcome [
    | inl u ↦ inl u
    | inr (same, r) ↦ inr (same, Reported-widen c (comes [] refl (omega arith) refl) r)
  ];
}

gave_up :
    (ctid : ℕ) (desired : ContainerRuntimeStatus) (b : ℕ) (w w' : World)
    → w'.db ≡ w.db
    → Comes w w'
    → w'.slept ≡ w.slept
    → Waited ctid desired ContainerRuntimeStatus.unknown b w w'
gave_up ctid desired b w w' d c l = record {
  db = d;
  passed = c;
  slept = omega (arith, l);
  outcome = inl refl;
}

later-Ends :
    (ctid : ℕ) (desired : ContainerRuntimeStatus) (b b' : ℕ) (w v : World)
    → v.db ≡ w.db
    → Comes w v
    → v.slept + b ≤ w.slept + b'
    → (r : Result (Option ContainerRuntimeStatus)) (w' : World) → Ends ctid desired b v r w'
    → Ends ctid desired b' w r w'
later-Ends ctid desired b b' w v d c l (ok (some s)) w' h = later ctid desired s b b' w v w' d c l h
later-Ends ctid desired b b' w v d c l (ok none) w' h = absurd h
later-Ends ctid desired b b' w v d c l (err x) w' h = absurd h

-- The world after a round that sleeps.
abbrev slept_once : ℕ → World → World
slept_once ctid w = record w {
  steps = suc (suc (suc w.steps));
  trace = Effect.container_status ctid ∷ w.trace;
  slept = w.slept + state_poll_interval;
}

one_call : (ctid : ℕ) (w : World) → Comes w (sent (Effect.container_status ctid) w)
one_call ctid w = comes (Effect.container_status ctid ∷ []) refl (omega arith) refl

answer_now :
    {b : ℕ} (ctid : ℕ) (desired : ContainerRuntimeStatus) (w : World)
    → w.env.proxmox_fault w.steps ≡ none
    → status_eq (w.env.proxmox_status w.steps) desired ≡ true
    → Waited ctid desired (w.env.proxmox_status w.steps) b w (sent (Effect.container_status ctid) w)
answer_now ctid desired w answered reported = record {
  db = refl;
  passed = one_call ctid w;
  slept = omega arith;
  outcome = inr (
    status_eq_sound _ _ reported,
    record {
      asked = w;
      after_start = comes [] refl (omega arith) refl;
      before_end = comes [] refl (omega arith) refl;
      answered = answered;
      status = refl;
    },
  );
}

-- One round, given what follows it.
round :
    (k : ℕ) (start : DateTime) (ctid : ℕ) (desired : ContainerRuntimeStatus) (w : World)
    → (leb state_poll_timeout (w.env.time (suc w.steps) + w.slept - start) ≡ false
        → After
            (poll k start ctid desired)
            (slept_once ctid w)
            (Ends ctid desired (k * state_poll_interval) w))
    → After (poll (suc k) start ctid desired) w (Ends ctid desired (k * state_poll_interval) w)
unfolding poll
round k start ctid desired w rest =
    let v : World = sent (Effect.container_status ctid) w in
    After-bind _ w _ _ (
      After-attempt _ w _ (
        After-call _ w _ _
          (λ e. After-match_err _ v e _ _ (
            After-pure _ v _
              (gave_up ctid desired (k * state_poll_interval) w v refl (one_call ctid w) refl)))
          (λ answered. After-match_ok _ v _ _ _ (
            After-if _ v _ _ _
              (λ (reported : status_eq (w.env.proxmox_status w.steps) desired ≡ true).
                After-pure _ v _ (answer_now ctid desired w answered reported))
              (λ _. After-bind _ v _ _ (
                After-utc_now v _ (
                  After-if _ (tick v) _ _ _
                    (λ _. After-pure _ (tick v) _ (
                      gave_up ctid desired (k * state_poll_interval) w (tick v) refl
                        (Comes-trans (one_call ctid w) (comes [] refl (omega arith) refl)) refl))
                    (λ (early : leb state_poll_timeout (clock v - start) ≡ false).
                      After-bind _ (tick v) _ _ (After-sleep (tick v) _ _ (rest early))))))))))

-- With k rounds left after this one, the deadline is at most k sleeps away.
poll-Ends :
    (k : ℕ) (start : DateTime) (ctid : ℕ) (desired : ContainerRuntimeStatus) (w : World)
    → Monotone w.env
    → start + state_poll_timeout ≤ clock w + k * state_poll_interval
    → After (poll (suc k) start ctid desired) w (Ends ctid desired (k * state_poll_interval) w)
poll-Ends zero start ctid desired w mono near =
    round zero start ctid desired w λ early. absurd (ground (arith, mono w.steps))
poll-Ends (suc j) start ctid desired w mono near = round (suc j) start ctid desired w λ early.
    After-weaken _ _ _ _
      (later-Ends ctid desired (j * state_poll_interval) _ w (slept_once ctid w) refl
        (comes (Effect.container_status ctid ∷ []) refl (omega arith) refl) (omega arith))
      (poll-Ends j start ctid desired (slept_once ctid w) mono
        (omega (arith, near, mono w.steps, mono (suc w.steps), mono (suc (suc w.steps)))))

-- 61 rounds are enough.
pub poll_for_state_lem :
    (ctid : ℕ) (desired : ContainerRuntimeStatus) (w : World)
    (Q : Result ContainerRuntimeStatus → World → Type 0)
    → Monotone w.env
    → ((s : ContainerRuntimeStatus) (w' : World)
        → Waited ctid desired s state_poll_timeout w w'
        → Q (ok s) w')
    → After (poll_for_state ctid desired) w Q
unfolding poll_for_state
poll_for_state_lem ctid desired w Q mono ended = After-bind _ w _ _ (
    After-utc_now w _ (
      After-bind _ (tick w) _ _ (
        After-weaken _ (tick w) _ _ finish
          (poll-Ends 60 (clock w) ctid desired (tick w) mono (omega (arith, mono w.steps))))))
  where
    finish :
        (r : Result (Option ContainerRuntimeStatus)) (w' : World)
        → Ends ctid desired (60 * state_poll_interval) (tick w) r w'
        → Next (λ last. pure (or_unknown last)) Q r w'
    finish (ok (some s)) w' h = After-pure _ w' s (
        ended s w' (
          later ctid desired s _ _ w (tick w) w' refl (comes [] refl (omega arith) refl)
            (omega arith) h))
    finish (ok none) w' h = absurd h
    finish (err e) w' h = absurd h

-- When time does not go back, the 61 rounds given to `poll` are enough for its 120 seconds: it
-- ends with a status, the database is as it was, at most 120 seconds were slept, and the status
-- is unknown, or the desired one, which Proxmox answered for this container during the wait.
pub poll-enough_fuel :
    (ctid : ℕ) (desired : ContainerRuntimeStatus) (w : World)
    → Monotone w.env
    → Ends ctid desired state_poll_timeout w
        (poll poll_fuel (clock w) ctid desired w).0
        (poll poll_fuel (clock w) ctid desired w).1
poll-enough_fuel ctid desired w mono =
    (poll-Ends 60 (clock w) ctid desired w mono (omega arith)).holds
