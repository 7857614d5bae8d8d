-- ===== src/Services/ContainerService/Responses.antt =====
-- Answers to invitations: which permissions they grant.
use hzelmaim.Prelude.{
  ℕ, ◌≡◌, refl, ◌∙◌, Bool, true, false, not, ◌&&◌, ◌||◌, some, List, [], ◌∷◌, ◌++◌, String, any,
  ◌==◌, ==_iff, str_eq, find_row, update_rows, Bool-cases, inl, inr, arith, if◌then◌else◌,
}
use hzelmaim.Api.{Result, ok, err}
use hzelmaim.Models.User.{Uuid, DateTime, AuthenticatedUser}
use hzelmaim.Models.Container.{ContainerInvitation, ContainerOwnership}
use hzelmaim.World.{World, Db}
use hzelmaim.World.After.{
  After, After-lift, After-select, After-bind, After-if, After-refused, After-update, After-utc_now,
}
use hzelmaim.Db.ContainerRepo
use hzelmaim.Db.ContainerRepo.{permissions_or_zero, is_of, grant, granted_ownership}
use hzelmaim.Services.ContainerService.{respond_to_invitation}

-- The permissions that the rows give a user on a container.
abbrev pub permissions_of : Uuid → Uuid → List ContainerOwnership → ℕ
permissions_of c u os = permissions_or_zero (find_row (is_of c u) os)

-- A row added at the end is found last.
found_before :
    (c u : Uuid) (os : List ContainerOwnership) (o : ContainerOwnership)
    → is_of c u o ≡ false
    → permissions_of c u (os ++ o ∷ []) ≡ permissions_of c u os
found_before c u [] o h = rw h refl
found_before c u (x ∷ os) o h = elim (Bool-cases (is_of c u x)) [
  | inl t ↦ rw t refl
  | inr f ↦ rw f (found_before c u os o h)
]

found_last :
    (c u : Uuid) (os : List ContainerOwnership) (o : ContainerOwnership)
    → any (is_of c u) os ≡ false
    → is_of c u o ≡ true
    → permissions_of c u (os ++ o ∷ []) ≡ o.permissions
found_last c u [] o n h = rw h refl
found_last c u (x ∷ os) o n h = elim (Bool-cases (is_of c u x)) [
  | inl t ↦ absurd (ground arith)
  | inr f ↦ rw f (found_last c u os o (ground arith) h)
]

-- A grant changes nobody else's permissions, nor those of a user who has a row.
pub grant_others :
    (c u : Uuid) (p : ℕ) (os : List ContainerOwnership) (c' u' : Uuid)
    → (c == c' && u == u') ≡ false
    → permissions_of c' u' (grant c u p os) ≡ permissions_of c' u' os
unfolding granted_ownership
grant_others c u p os c' u' h = elim (Bool-cases (any (is_of c u) os)) [
  | inl t ↦ rw t refl
  | inr f ↦ rw f (found_before c' u' os (granted_ownership c u p) h)
]

pub grant_new :
    (c u : Uuid) (p : ℕ) (os : List ContainerOwnership)
    → permissions_of c u (grant c u p os)
      ≡ (if any (is_of c u) os then permissions_of c u os else p)
unfolding granted_ownership
grant_new c u p os = elim (Bool-cases (any (is_of c u) os)) [
  | inl t ↦ rw t refl
  | inr f ↦ rw f (found_last c u os (granted_ownership c u p) f (ground arith))
]

-- An answer that was stored. Only the addressee gives it; it is recorded in the invitation, leaves
-- the permissions of everybody else on every container alone, and gives the addressee those of the
-- invitation if the answer is `accepted` and there was no row yet. Nothing else is changed.
pub record Answered (actor : AuthenticatedUser) (id : Uuid) (response : String) (d d' : Db)
    : Type 0 where
  pub inv : ContainerInvitation
  pub found : find_row (λ i. i.id == id) d.container_invitations ≡ some inv
  pub addressee : inv.user_id ≡ actor.user_id
  pub known : (str_eq response "accepted" || str_eq response "declined") ≡ true
  pub others :
      (c u : Uuid)
      → (inv.container_id == c && actor.user_id == u) ≡ false
      → permissions_of c u d'.ownerships ≡ permissions_of c u d.ownerships
  pub own : permissions_of inv.container_id actor.user_id d'.ownerships ≡ (
      if str_eq response "accepted" && not (any (is_of inv.container_id actor.user_id) d.ownerships)
      then inv.permissions
      else permissions_of inv.container_id actor.user_id d.ownerships)
  pub now : DateTime
  pub recorded :
      d'.container_invitations
      ≡ update_rows
          (λ i. i.id == id)
          (λ i. record i { responded_at = some now; response = some response })
          d.container_invitations
  pub else_same :
      record d' { container_invitations = []; ownerships = [] }
      ≡ record d { container_invitations = []; ownerships = [] }

abbrev pub ResponseOutcome :
    AuthenticatedUser → Uuid → String → Db → Result (Unit {0}) → Db → Type 0
ResponseOutcome actor id response d (ok t) d' = Answered actor id response d d'
ResponseOutcome actor id response d (err e) d' = d' ≡ d

-- The rows after an answer.
abbrev answered_rows : Bool → Uuid → Uuid → ℕ → List ContainerOwnership → List ContainerOwnership
answered_rows accepted c u p os = if accepted then grant c u p os else os

rows_others :
    (accepted : Bool) (c u : Uuid) (p : ℕ) (os : List ContainerOwnership) (c' u' : Uuid)
    → (c == c' && u == u') ≡ false
    → permissions_of c' u' (answered_rows accepted c u p os) ≡ permissions_of c' u' os
rows_others true c u p os c' u' h = grant_others c u p os c' u' h
rows_others false c u p os c' u' h = refl

rows_own :
    (accepted : Bool) (c u : Uuid) (p : ℕ) (os : List ContainerOwnership)
    → permissions_of c u (answered_rows accepted c u p os)
      ≡ (if accepted && not (any (is_of c u) os) then p else permissions_of c u os)
rows_own false c u p os = refl
rows_own true c u p os = elim (Bool-cases (any (is_of c u) os)) [
  | inl t ↦ grant_new c u p os ∙ rw t refl
  | inr f ↦ grant_new c u p os ∙ rw f refl
]

respond_lem :
    (actor : AuthenticatedUser) (id : Uuid) (response : String) (w : World)
    → After
        (respond_to_invitation actor id response)
        w
        (λ r w'. ResponseOutcome actor id response w.db r w'.db)
unfolding respond_to_invitation ContainerRepo.get_container_invitation
    ContainerRepo.respond_to_container_invitation
respond_lem actor id response w =
    After-if _ _ _ _ _ (λ _. After-refused _ _ _ refl)
      (λ (known : (not (str_eq response "accepted") && not (str_eq response "declined")) ≡ false).
        After-bind _ _ _ _ (
          After-select _ _ _ refl (
            After-bind _ _ _ _ (
              After-lift _ _ _
                (λ inv found.
                  After-if _ _ _ _ _ (λ _. After-refused _ _ _ refl)
                    (λ (mine : not (inv.user_id == actor.user_id) ≡ false). After-bind _ _ _ _ (
                      After-utc_now _ _ (
                        After-update _ _ _ refl (record {
                          inv = inv;
                          found = ground arith;
                          addressee = (==_iff _ _).0 (ground arith);
                          known = ground arith;
                          others = λ c u h.
                              rows_others (str_eq response "accepted") inv.container_id
                                actor.user_id inv.permissions w.db.ownerships c u h;
                          own =
                              rows_own (str_eq response "accepted") inv.container_id actor.user_id
                                inv.permissions w.db.ownerships;
                          now = _;
                          recorded = refl;
                          else_same = refl;
                        })))))
                (λ _ _. refl)))))

-- `respond_to_invitation` either fails and leaves the database as it was, or is given by the
-- addressee of the invitation with a known answer: then the answer and its time are stored in the
-- rows of this id, the addressee's permissions on the container become those of the invitation
-- when the answer is `accepted` and the addressee had no row there, every other permission of
-- every user stays as it was, and no other table is changed.
pub respond_to_invitation_lem :
    (actor : AuthenticatedUser) (id : Uuid) (response : String) (w : World)
    → ResponseOutcome actor id response w.db
        (respond_to_invitation actor id response w).0
        (respond_to_invitation actor id response w).1.db
respond_to_invitation_lem actor id response w = (respond_lem actor id response w).holds
