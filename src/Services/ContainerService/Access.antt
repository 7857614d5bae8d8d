-- ===== src/Services/ContainerService/Access.antt =====
-- The permissions that an actor holds on a container, and what the permission checks guarantee.
use hzelmaim.Prelude.{
  ◌∙◌, ◌≤◌, ℕ, ◌≡◌, Bool, not, false, refl, true, some, find_row, if◌then◌else◌, inl, inr,
  Bool-cases, arith, subst, ◌==◌,
}
use hzelmaim.Api.{ApiError, Result, ok, err}
use hzelmaim.Models.User.{Uuid, AuthenticatedUser, effective_role, is_admin}
use hzelmaim.Models.Container.{ContainerRecord, has, preset_owner, perm_view}
use hzelmaim.World.{World, Db, tick}
use hzelmaim.World.After.{After, After-pure, After-lift, After-select, After-bind, After-if}
use hzelmaim.Db.ContainerRepo
use hzelmaim.Db.ContainerRepo.{permissions_or_zero, is_of}
use hzelmaim.Services.ContainerService.{require_permission, get_permissions_for_user, get}

-- All permissions for an administrator, otherwise those of the actor's row on the container.
abbrev pub held : AuthenticatedUser → Uuid → Db → ℕ
held actor container_id d =
    if is_admin (effective_role actor)
    then preset_owner
    else permissions_or_zero (find_row (is_of container_id actor.user_id) d.ownerships)

-- Nothing has changed but the count of interactions, and nothing has been called.
pub record Untouched (w w' : World) : Type 0 where
  pub db : w'.db ≡ w.db
  pub trace : w'.trace ≡ w.trace
  pub env : w'.env ≡ w.env
  pub steps : w.steps ≤ w'.steps

pub Untouched-before : (w v w' : World) → Untouched w v → Untouched v w' → Untouched w w'
Untouched-before w v w' a b = record {
  db = b.db ∙ a.db;
  trace = b.trace ∙ a.trace;
  env = b.env ∙ a.env;
  steps = omega (arith, a.steps, b.steps);
}

pub untouched : (w : World) → Untouched w w
untouched w = record { db = refl; trace = refl; env = refl; steps = omega arith }

pub ticked : (w : World) → Untouched w (tick w)
ticked w = record { db = refl; trace = refl; env = refl; steps = omega arith }

accepted : {b : Bool} → not b ≡ false → b ≡ true
accepted {b = true} h = refl
accepted {b = false} h = absurd (cc)

pub require_permission_lem :
    (actor : AuthenticatedUser) (c : Uuid) (flag : ℕ) (w : World)
    (Q : Result (Unit {0}) → World → Type 0)
    → has preset_owner flag ≡ true
    → ((e : ApiError) (w' : World) → Untouched w w' → Q (err e) w')
    → ((w' : World) → Untouched w w' → has (held actor c w.db) flag ≡ true → Q (ok tt) w')
    → After (require_permission actor c flag) w Q
unfolding require_permission ContainerRepo.get_permissions
require_permission_lem actor c flag w Q all refused passed =
    elim (Bool-cases (is_admin (effective_role actor))) [
      | inl a ↦ rw a (After-pure Q w tt (passed w (untouched w) (rw a all)))
      | inr a ↦ rw a (
          After-bind _ _ _ _ (
            After-select _ _ _ (refused _ _ (ticked w)) (
              After-if _ _ _ _ _
                (λ _. After-lift _ _ _ (λ _ p. absurd (cc)) (λ e _. refused e _ (ticked w)))
                (λ h. After-pure _ _ _ (passed _ (ticked w) (rw a (accepted h)))))))
    ]

pub get_permissions_for_user_lem :
    (actor : AuthenticatedUser) (c : Uuid) (w : World) (Q : Result ℕ → World → Type 0)
    → ((e : ApiError) (w' : World) → Untouched w w' → Q (err e) w')
    → ((w' : World) → Untouched w w' → Q (ok (held actor c w.db)) w')
    → After (get_permissions_for_user actor c) w Q
unfolding get_permissions_for_user ContainerRepo.get_permissions
get_permissions_for_user_lem actor c w Q refused answered =
    elim (Bool-cases (is_admin (effective_role actor))) [
      | inl a ↦
          rw a (
            After-pure Q w _ (subst (λ (p : ℕ). Q (ok p) w) (rw a refl) (answered w (untouched w))))
      | inr a ↦ rw a (
          After-select Q w _ (refused _ _ (ticked w))
            (subst (λ (p : ℕ). Q (ok p) (tick w)) (rw a refl) (answered (tick w) (ticked w))))
    ]

-- A container that is found, and that the actor may view.
pub get_lem :
    (actor : AuthenticatedUser) (id : Uuid) (w : World)
    (Q : Result ContainerRecord → World → Type 0)
    → ((e : ApiError) (w' : World) → Untouched w w' → Q (err e) w')
    → ((container : ContainerRecord) (w' : World)
        → Untouched w w'
        → find_row (λ c. c.id == id) w.db.containers ≡ some container
        → has (held actor id w.db) perm_view ≡ true
        → Q (ok container) w')
    → After (get actor id) w Q
unfolding get ContainerRepo.get has
get_lem actor id w Q refused found = After-bind _ _ _ _ (
    After-select _ _ _ (refused _ _ (ticked w)) (
      After-bind _ _ _ _ (
        After-lift _ _ _
          (λ container e. After-bind _ _ _ _ (
            require_permission_lem actor id perm_view _ _ refl
              (λ x w' u. refused x w' (Untouched-before w (tick w) w' (ticked w) u))
              (λ w' u h. After-pure _ _ _ (
                found container w' (Untouched-before w (tick w) w' (ticked w) u) (ground arith)
                  h))))
          (λ x _. refused x _ (ticked w)))))
