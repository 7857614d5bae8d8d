-- ===== src/Services/ContainerService/Sharing.antt =====
-- Invitations: what an actor can give away.
use hzelmaim.Prelude.{
  ℕ, ◌≡◌, refl, ◌∙◌, ap, true, false, not, none, [], ◌∷◌, ◌++◌, String, any, bit_and, bit_and_comm,
  bit_and_assoc, bit_and_one, ==_iff, ◌==◌, arith,
}
use hzelmaim.Api.{Result, ok, err}
use hzelmaim.Models.User.{Uuid, AuthenticatedUser}
use hzelmaim.Models.Container.{ContainerInvitation, has, perm_view, perm_share}
use hzelmaim.World.{World, Db}
use hzelmaim.World.After.{
  After, After-pure, After-lift, After-select, After-bind, After-if, After-refused, After-checked,
  After-new_v4, After-utc_now,
}
use hzelmaim.Db.ContainerRepo
use hzelmaim.Db.ContainerRepo.{invitation_conflict}
use hzelmaim.Services.ContainerService.{invite_by_email}
use hzelmaim.Services.ContainerService.Access.{
  held, require_permission_lem, get_permissions_for_user_lem,
}

-- Every flag of p is one of q.
abbrev pub Within : ℕ → ℕ → Type 0
Within p q = (flag : ℕ) → has p flag ≡ true → has q flag ≡ true

-- The test of the source, `permissions & held == permissions`.
Within-of_mask : (p q : ℕ) → bit_and p q ≡ p → Within p q
unfolding has
Within-of_mask p q e flag h =
    let h' : bit_and p flag ≡ flag = (==_iff _ _).0 h in
    (==_iff (bit_and q flag) flag).1 (cc (bit_and_assoc q p flag, bit_and_comm q p, e, h'))

-- What an invitation that was sent is: the database has gained it and nothing else, no other
-- invitation was there for the same user and container, and the inviter holds PERM_SHARE and every permission in it.
pub record Invited (actor : AuthenticatedUser) (c : Uuid) (p : ℕ) (d d' : Db)
    (inv : ContainerInvitation) : Type 0 where
  pub added : d' ≡ record d { container_invitations = d.container_invitations ++ inv ∷ [] }
  pub fresh : any (invitation_conflict inv) d.container_invitations ≡ false
  pub of_container : inv.container_id ≡ c
  pub by_actor : inv.invited_by ≡ actor.user_id
  pub unanswered : inv.response ≡ none
  pub grants : inv.permissions ≡ p
  pub may_share : has (held actor c d) perm_share ≡ true
  pub views : has p perm_view ≡ true
  pub within : Within p (held actor c d)

view_of_mask : (p : ℕ) → (bit_and p perm_view == 0) ≡ false → has p perm_view ≡ true
unfolding has
view_of_mask p h = ground (arith, bit_and_one p)

invited :
    (actor : AuthenticatedUser) (c : Uuid) (inv : ContainerInvitation) (d d1 d2 : Db)
    → d1 ≡ d
    → d2 ≡ d1
    → inv.container_id ≡ c
    → inv.invited_by ≡ actor.user_id
    → inv.response ≡ none
    → has (held actor c d) perm_share ≡ true
    → (bit_and inv.permissions perm_view == 0) ≡ false
    → not (bit_and inv.permissions (held actor c d1) == inv.permissions) ≡ false
    → any (invitation_conflict inv) d2.container_invitations ≡ false
    → Invited actor c inv.permissions d
        (record d2 { container_invitations = d2.container_invitations ++ inv ∷ [] })
        inv
invited actor c inv d d1 d2 u v of_container by_actor unanswered share view mask fresh = record {
  added =
      ap (λ (d : Db). record d { container_invitations = d.container_invitations ++ inv ∷ [] })
        (v ∙ u);
  fresh = rw (← u, ← v) fresh;
  of_container = of_container;
  by_actor = by_actor;
  unanswered = unanswered;
  grants = refl;
  may_share = share;
  views = view_of_mask inv.permissions view;
  within = Within-of_mask inv.permissions (held actor c d) (rw (← u) (ground arith));
}

-- What `invite_by_email` comes to: an invitation, or an error that leaves the database as it was.
abbrev pub InviteOutcome :
    AuthenticatedUser → Uuid → ℕ → Db → Result ContainerInvitation → Db → Type 0
InviteOutcome actor c p d (ok inv) d' = Invited actor c p d d' inv
InviteOutcome actor c p d (err e) d' = d' ≡ d

invite_lem :
    (actor : AuthenticatedUser) (c : Uuid) (email : String) (p : ℕ) (w : World)
    → After (invite_by_email actor c email p) w (λ r w'. InviteOutcome actor c p w.db r w'.db)
unfolding invite_by_email has ContainerRepo.find_user_by_email
    ContainerRepo.create_container_invitation
invite_lem actor c email p w = After-bind _ _ _ _ (
    require_permission_lem actor c perm_share w _ refl (λ e w1 u. u.db)
      (λ w1 u share.
        After-if _ _ _ _ _ (λ _. After-refused _ _ _ u.db)
          (λ (view : (bit_and p perm_view == 0) ≡ false). After-bind _ _ _ _ (
            get_permissions_for_user_lem actor c w1 _ (λ e w2 v. v.db ∙ u.db)
              (λ w2 v.
                After-if _ _ _ _ _ (λ _. After-refused _ _ _ (v.db ∙ u.db))
                  (λ (mask : not (bit_and p (held actor c w1.db) == p) ≡ false).
                    After-bind _ _ _ _ (
                      After-select _ _ _ (v.db ∙ u.db) (
                        After-bind _ _ _ _ (
                          After-lift _ _ _
                            (λ user_id _. After-bind _ _ _ _ (
                              After-new_v4 _ _ (
                                After-bind _ _ _ _ (
                                  After-utc_now _ _ (
                                    After-bind _ _ _ _ (
                                      After-checked _ _ _ _ (v.db ∙ u.db) (λ fresh.
                                        After-pure _ _ _ (
                                          invited actor c _ w.db w1.db w2.db u.db v.db refl refl
                                            refl share view mask fresh))))))))
                            (λ _ _. v.db ∙ u.db))))))))))

-- `invite_by_email` either fails and leaves the database as it was, or adds one unanswered
-- invitation and nothing else: it gives PERM_VIEW and only permissions that the inviter, who has
-- PERM_SHARE, holds on the container when the request begins, and the user had no invitation to it.
pub invite_by_email_lem :
    (actor : AuthenticatedUser) (c : Uuid) (email : String) (p : ℕ) (w : World)
    → InviteOutcome actor c p w.db
        (invite_by_email actor c email p w).0
        (invite_by_email actor c email p w).1.db
invite_by_email_lem actor c email p w = (invite_lem actor c email p w).holds
