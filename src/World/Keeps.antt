-- ===== src/World/Keeps.antt =====
-- Handlers that keep a property of the database, whether they answer or fail: one rule for each way
-- to build a handler.
use hzelmaim.Prelude.{
  ℕ, ◌≡◌, refl, subst, Bool, true, false, Option, none, some, if◌then◌else◌, if_some,
}
use hzelmaim.Api.{ApiError, Result, ok, err}
use hzelmaim.World.{
  World, Env, Db, Effect, M, ◌>>=◌, continue, pure, lift, attempt, select, execute,
  execute_returning, update, match_result, utc_now, new_v4, call, sleep,
}
use hzelmaim.World.After.{
  After, After-bind, Next, After-select, After-execute, After-execute_returning, After-update,
  After-call,
}

pub record Keeps {A : Type 0} (P : Db → Type 0) (m : M A) : Type 0 where
  pub at : (w : World) → P w.db → P (m w).1.db

module _ {A : Type 0} {P : Db → Type 0} where
  pub Keeps-pure : (a : A) → Keeps P (pure a)
  unfolding pure
  Keeps-pure a = record { at = λ w h. h }

  pub Keeps-lift : (r : Result A) → Keeps P (lift r)
  unfolding lift
  Keeps-lift r = record { at = λ w h. h }

  pub Keeps-select : (f : Db → A) → Keeps P (select f)
  Keeps-select f = record { at = λ w h. (After-select (λ _ w'. P w'.db) w f h h).holds }

  pub Keeps-call : (e : Effect) (f : Env → ℕ → A) → Keeps P (call e f)
  Keeps-call e f = record {
    at = λ w h. (After-call (λ _ w'. P w'.db) w e f (λ _. h) (λ _. h)).holds;
  }

  pub Keeps-execute_returning :
      (f : Db → A × Db) → ((d : Db) → P d → P (f d).1) → Keeps P (execute_returning f)
  Keeps-execute_returning f k = record {
    at = λ w h. (After-execute_returning (λ _ w'. P w'.db) w f h (k w.db h)).holds;
  }

  pub Keeps-if : (b : Bool) (m n : M A) → Keeps P m → Keeps P n → Keeps P (if b then m else n)
  Keeps-if true m n km kn = km
  Keeps-if false m n km kn = kn

  pub Keeps-guard :
      (b : Bool) (m n : M A) → (b ≡ true → Keeps P m) → Keeps P n → Keeps P (if b then m else n)
  Keeps-guard true m n km kn = km refl
  Keeps-guard false m n km kn = kn

module _ {A B : Type 0} {P : Db → Type 0} where
  pub Keeps-bind :
      (m : M A) (f : A → M B) → Keeps P m → ((a : A) → Keeps P (f a)) → Keeps P (m >>= f)
  unfolding ◌>>=◌
  Keeps-bind m f km kf = record { at = λ w h. run ((m w).0) ((m w).1) (km.at w h) }
    where
      run : (r : Result A) (w' : World) → P w'.db → P (continue f r w').1.db
      run (ok a) w' h = (kf a).at w' h
      run (err e) w' h = h

  pub Keeps-match_result :
      (r : Result A) (f : A → M B) (g : ApiError → M B)
      → ((a : A) → Keeps P (f a))
      → ((e : ApiError) → Keeps P (g e))
      → Keeps P (match_result r f g)
  unfolding match_result
  Keeps-match_result (ok a) f g kf kg = kf a
  Keeps-match_result (err e) f g kf kg = kg e

  -- A check in front of the rest.
  pub Keeps-lift_bind :
      (r : Result A) (f : A → M B) → ((a : A) → r ≡ ok a → Keeps P (f a)) → Keeps P (lift r >>= f)
  unfolding ◌>>=◌ lift
  Keeps-lift_bind (ok a) f kf = kf a refl
  Keeps-lift_bind (err e) f kf = record { at = λ w h. h }

module _ {A : Type 0} {P : Db → Type 0} where
  pub Keeps-attempt : (m : M A) → Keeps P m → Keeps P (attempt m)
  unfolding attempt
  Keeps-attempt m km = record { at = λ w h. km.at w h }

module _ {P : Db → Type 0} where
  pub Keeps-update : (f : Db → Db) → ((d : Db) → P d → P (f d)) → Keeps P (update f)
  Keeps-update f k = record { at = λ w h. (After-update (λ _ w'. P w'.db) w f h (k w.db h)).holds }

  pub Keeps-execute :
      (f : Db → Option Db) → ((d e : Db) → f d ≡ some e → P d → P e) → Keeps P (execute f)
  Keeps-execute f k = record {
    at = λ w h. (After-execute (λ _ w'. P w'.db) w f h (λ e p. k w.db e p h)).holds;
  }

  -- A statement that is refused when its constraint `c` is violated.
  pub Keeps-checked :
      (c : Db → Bool) (f : Db → Db)
      → ((d : Db) → c d ≡ false → P d → P (f d))
      → Keeps P (execute (λ d. if c d then none else some (f d)))
  Keeps-checked c f k =
      Keeps-execute _
        λ d e p h. let (passed, same) = if_some (c d) (f d) e p in subst P same (k d passed h)

  pub Keeps-utc_now : Keeps P utc_now
  unfolding utc_now
  Keeps-utc_now = record { at = λ w h. h }

  pub Keeps-new_v4 : Keeps P new_v4
  unfolding new_v4
  Keeps-new_v4 = record { at = λ w h. h }

  pub Keeps-sleep : (ms : ℕ) → Keeps P (sleep ms)
  unfolding sleep
  Keeps-sleep ms = record { at = λ w h. h }

-- A kept property, as what holds after the handler.
pub After_of_Keeps :
    {A : Type 0} (P : Db → Type 0) {Q : Db → Type 0} {m : M A} {w : World}
    → Keeps P m
    → P w.db
    → ((d : Db) → P d → Q d)
    → After m w (λ _ w'. Q w'.db)
After_of_Keeps P k h f = record { holds = f _ (k.at _ h) }

-- A part that only reads, in front of the rest.
pub After-read_bind :
    {A B : Type 0} {m : M A} {f : A → M B} {w : World} {Q : Result B → World → Type 0}
    → Keeps (λ d. d ≡ w.db) m
    → ((e : ApiError) (w' : World) → w'.db ≡ w.db → Q (err e) w')
    → ((a : A) (w' : World) → w'.db ≡ w.db → After (f a) w' Q)
    → After (m >>= f) w Q
After-read_bind {m = m} {f} {w} {Q} k failed rest =
    After-bind Q w m f (record { holds = next ((m w).0) ((m w).1) (k.at w refl) })
  where
    next : (r : Result _) (w' : World) → w'.db ≡ w.db → Next f Q r w'
    next (ok a) w' same = rest a w' same
    next (err e) w' same = failed e w' same

-- A part after which the property holds, in front of a rest that keeps it.
pub After_then_Keeps :
    {A B : Type 0} (P : Db → Type 0) {m : M A} {f : A → M B} {w : World}
    → After m w (λ _ w'. P w'.db)
    → ((a : A) → Keeps P (f a))
    → After (m >>= f) w (λ _ w'. P w'.db)
After_then_Keeps P {m} {f} {w} h k =
    After-bind _ w m f (record { holds = next ((m w).0) ((m w).1) h.holds })
  where
    next : (r : Result _) (w' : World) → P w'.db → Next f (λ _ v. P v.db) r w'
    next (ok a) w' p = After_of_Keeps P (k a) p (λ d q. q)
    next (err e) w' p = p

pub ruleset keeps_rules = (
  Keeps-pure, Keeps-lift, Keeps-select, Keeps-call, Keeps-if, Keeps-bind, Keeps-match_result,
  Keeps-attempt, Keeps-utc_now, Keeps-new_v4, Keeps-sleep,
)
