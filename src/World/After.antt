-- ===== src/World/After.antt =====
-- What holds of the result and of the world after a handler, and one rule for each way to build a
-- handler. The rules are applied backwards, from the end of the handler to its beginning.
use hzelmaim.Prelude.{
  ℕ, ◌+◌, ◌≡◌, refl, Bool, true, false, Option, none, some, if◌then◌else◌, Bool-cases, Option-cases,
  inl, inr,
}
use hzelmaim.Api.{ApiError, Result, ok, err, internal}
use hzelmaim.Models.User.{Uuid, DateTime}
use hzelmaim.World.{
  World, Env, Db, Effect, M, ◌>>=◌, continue, pure, lift, attempt, select, execute,
  execute_returning, update, match_result, utc_now, new_v4, call, tick, sent, clock, sleep,
}

pub record After {A : Type 0} (m : M A) (w : World) (Q : Result A → World → Type 0) : Type 0 where
  pub holds : Q (m w).0 (m w).1

-- The condition between a call and what follows it.
abbrev pub Next :
    {A B : Type 0} → (A → M B) → (Result B → World → Type 0) → Result A → World → Type 0
Next f Q (ok a) w = After (f a) w Q
Next f Q (err e) w = Q (err e) w

module _ {A : Type 0} (Q : Result A → World → Type 0) (w : World) where
  pub After-pure : (a : A) → Q (ok a) w → After (pure a) w Q
  unfolding pure
  After-pure a h = record { holds = h }

  pub After-lift :
      (r : Result A)
      → ((a : A) → r ≡ ok a → Q (ok a) w)
      → ((e : ApiError) → r ≡ err e → Q (err e) w)
      → After (lift r) w Q
  unfolding lift
  After-lift (ok a) h k = record { holds = h a refl }
  After-lift (err e) h k = record { holds = k e refl }

  pub After-passed : (a : A) → Q (ok a) w → After (lift (ok a)) w Q
  unfolding lift
  After-passed a h = record { holds = h }

  pub After-refused : (e : ApiError) → Q (err e) w → After (lift (err e)) w Q
  unfolding lift
  After-refused e h = record { holds = h }

  pub After-select :
      (f : Db → A) → Q (err internal) (tick w) → Q (ok (f w.db)) (tick w) → After (select f) w Q
  unfolding select
  After-select f h k = record {
    holds = elim (Bool-cases (w.env.db_fault w.steps)) [ inl e ↦ rw e h | inr e ↦ rw e k ];
  }

  -- With the answer of the database in the conditions.
  pub After-select_told :
      (f : Db → A)
      → (w.env.db_fault w.steps ≡ true → Q (err internal) (tick w))
      → (w.env.db_fault w.steps ≡ false → Q (ok (f w.db)) (tick w))
      → After (select f) w Q
  unfolding select
  After-select_told f h k = record {
    holds = elim (Bool-cases (w.env.db_fault w.steps)) [ inl e ↦ rw e (h e) | inr e ↦ rw e (k e) ];
  }

  pub After-execute_returning :
      (f : Db → A × Db)
      → Q (err internal) (tick w)
      → Q (ok (f w.db).0) (record (tick w) { db = (f w.db).1 })
      → After (execute_returning f) w Q
  unfolding execute_returning
  After-execute_returning f h k = record {
    holds = elim (Bool-cases (w.env.db_fault w.steps)) [ inl e ↦ rw e h | inr e ↦ rw e k ];
  }

  pub After-call :
      (e : Effect) (f : Env → ℕ → A)
      → ((x : ApiError) → Q (err x) (sent e w))
      → (w.env.proxmox_fault w.steps ≡ none → Q (ok (f w.env w.steps)) (sent e w))
      → After (call e f) w Q
  unfolding call
  After-call e f h k = record {
    holds = elim (Option-cases (w.env.proxmox_fault w.steps)) [
      | inl p ↦ rw p (k p)
      | inr (x, p) ↦ rw p (h x)
    ];
  }

  -- With the error of the environment in the condition.
  pub After-call_told :
      (e : Effect) (f : Env → ℕ → A)
      → ((x : ApiError) → w.env.proxmox_fault w.steps ≡ some x → Q (err x) (sent e w))
      → (w.env.proxmox_fault w.steps ≡ none → Q (ok (f w.env w.steps)) (sent e w))
      → After (call e f) w Q
  unfolding call
  After-call_told e f h k = record {
    holds = elim (Option-cases (w.env.proxmox_fault w.steps)) [
      | inl p ↦ rw p (k p)
      | inr (x, p) ↦ rw p (h x p)
    ];
  }

  pub After-match_result :
      {B : Type 0} (r : Result B) (f : B → M A) (g : ApiError → M A)
      → ((b : B) → r ≡ ok b → After (f b) w Q)
      → ((e : ApiError) → r ≡ err e → After (g e) w Q)
      → After (match_result r f g) w Q
  unfolding match_result
  After-match_result (ok b) f g h k = h b refl
  After-match_result (err e) f g h k = k e refl

  pub After-match_ok :
      {B : Type 0} (b : B) (f : B → M A) (g : ApiError → M A)
      → After (f b) w Q
      → After (match_result (ok b) f g) w Q
  unfolding match_result
  After-match_ok b f g h = h

  pub After-match_err :
      {B : Type 0} (e : ApiError) (f : B → M A) (g : ApiError → M A)
      → After (g e) w Q
      → After (match_result (err e) f g) w Q
  unfolding match_result
  After-match_err e f g h = h

  pub After-weaken :
      (m : M A) (R : Result A → World → Type 0)
      → ((r : Result A) (w' : World) → R r w' → Q r w')
      → After m w R
      → After m w Q
  After-weaken m R f h = record { holds = f _ _ h.holds }

  pub After-if :
      (b : Bool) (m n : M A)
      → (b ≡ true → After m w Q)
      → (b ≡ false → After n w Q)
      → After (if b then m else n) w Q
  After-if true m n h k = h refl
  After-if false m n h k = k refl

module _ {A B : Type 0} (Q : Result B → World → Type 0) (w : World) where
  pub After-bind : (m : M A) (f : A → M B) → After m w (Next f Q) → After (m >>= f) w Q
  unfolding ◌>>=◌
  After-bind m f h = record { holds = run ((m w).0) ((m w).1) h.holds }
    where
      run : (r : Result A) (w' : World) → Next f Q r w' → Q (continue f r w').0 (continue f r w').1
      run (ok a) w' k = k.holds
      run (err e) w' k = k

-- A check in front of the rest.
pub After-lift_bind :
    {A B : Type 0} {r : Result A} {f : A → M B} {w : World} {Q : Result B → World → Type 0}
    → ((e : ApiError) → Q (err e) w)
    → ((a : A) → r ≡ ok a → After (f a) w Q)
    → After (lift r >>= f) w Q
After-lift_bind {r = r} {f} {w} {Q} failed passed =
    After-bind Q w (lift r) f (After-lift _ w r passed (λ e _. failed e))

-- A check that is passed, in front of the rest.
pub After-ok_bind :
    {A B : Type 0} (Q : Result B → World → Type 0) (w : World) (a : A) (f : A → M B)
    → After (f a) w Q
    → After (lift (ok a) >>= f) w Q
After-ok_bind Q w a f h = After-bind Q w (lift (ok a)) f (After-passed _ w a h)

-- A check in front of the rest, with its error in the condition.
pub After-lift_bind_told :
    {A B : Type 0} {r : Result A} {f : A → M B} {w : World} {Q : Result B → World → Type 0}
    → ((e : ApiError) → r ≡ err e → Q (err e) w)
    → ((a : A) → r ≡ ok a → After (f a) w Q)
    → After (lift r >>= f) w Q
After-lift_bind_told {r = r} {f} {w} {Q} failed passed =
    After-bind Q w (lift r) f (After-lift _ w r passed failed)

module _ {A : Type 0} (Q : Result (Result A) → World → Type 0) (w : World) where
  pub After-attempt : (m : M A) → After m w (λ r w'. Q (ok r) w') → After (attempt m) w Q
  unfolding attempt
  After-attempt m h = record { holds = h.holds }

module _ (Q : Result (Unit {0}) → World → Type 0) (w : World) where
  pub After-checked :
      (c : Db → Bool) (f : Db → Db)
      → Q (err internal) (tick w)
      → (c w.db ≡ false → Q (ok tt) (record (tick w) { db = f w.db }))
      → After (execute (λ d. if c d then none else some (f d))) w Q
  unfolding execute
  After-checked c f h k = record {
    holds = elim (Bool-cases (w.env.db_fault w.steps)) [
      | inl e ↦ rw e h
      | inr e ↦ elim (Bool-cases (c w.db)) [ inl p ↦ rw (e, p) h | inr p ↦ rw (e, p) (k p) ]
    ];
  }

  pub After-execute :
      (f : Db → Option Db)
      → Q (err internal) (tick w)
      → ((d : Db) → f w.db ≡ some d → Q (ok tt) (record (tick w) { db = d }))
      → After (execute f) w Q
  unfolding execute
  After-execute f h k = record {
    holds = elim (Bool-cases (w.env.db_fault w.steps)) [
      | inl e ↦ rw e h
      | inr e ↦ elim (Option-cases (f w.db)) [
        | inl p ↦ rw (e, p) h
        | inr (d, p) ↦ rw (e, p) (k d p)
      ]
    ];
  }

module _ (Q : Result (Unit {0}) → World → Type 0) (w : World) where
  pub After-update :
      (f : Db → Db)
      → Q (err internal) (tick w)
      → Q (ok tt) (record (tick w) { db = f w.db })
      → After (update f) w Q
  unfolding update
  After-update f h k = record {
    holds = elim (Bool-cases (w.env.db_fault w.steps)) [ inl e ↦ rw e h | inr e ↦ rw e k ];
  }

  -- With the answer of the database in the conditions.
  pub After-update_told :
      (f : Db → Db)
      → (w.env.db_fault w.steps ≡ true → Q (err internal) (tick w))
      → (w.env.db_fault w.steps ≡ false → Q (ok tt) (record (tick w) { db = f w.db }))
      → After (update f) w Q
  unfolding update
  After-update_told f h k = record {
    holds = elim (Bool-cases (w.env.db_fault w.steps)) [ inl e ↦ rw e (h e) | inr e ↦ rw e (k e) ];
  }

module _ (w : World) where
  pub After-utc_now :
      (Q : Result DateTime → World → Type 0) → Q (ok (clock w)) (tick w) → After utc_now w Q
  unfolding utc_now
  After-utc_now Q h = record { holds = h }

  pub After-new_v4 :
      (Q : Result Uuid → World → Type 0) → Q (ok (w.env.uuid w.steps)) (tick w) → After new_v4 w Q
  unfolding new_v4
  After-new_v4 Q h = record { holds = h }

  pub After-sleep :
      (Q : Result (Unit {0}) → World → Type 0) (ms : ℕ)
      → Q (ok tt) (record (tick w) { slept = w.slept + ms })
      → After (sleep ms) w Q
  unfolding sleep
  After-sleep Q ms h = record { holds = h }

pub ruleset after_rules = (
  After-pure, After-lift, After-select, After-execute, After-execute_returning, After-call,
  After-if, After-bind, After-attempt, After-update, After-checked, After-match_result,
  After-utc_now, After-new_v4, After-sleep,
)
