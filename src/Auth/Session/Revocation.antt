-- ===== src/Auth/Session/Revocation.antt =====
-- A revoked session stays revoked.
use hzelmaim.Prelude.{
  ◌≡◌, ◌≢◌, refl, sym, ap, ◌∙◌, Bool, true, false, Option, some, List, [], ◌∷◌, find_row,
  find_row_sound, subst, ==_iff, update_rows, any, find_column, find_column-snoc,
  find_column_of_row, ◌==◌, inl, inr, Bool-cases,
}
use hzelmaim.Prelude.Bytes.{Bytes}
use hzelmaim.Api.{Result, ok, ok_injective}
use hzelmaim.Api.Headers.{HeaderMap}
use hzelmaim.Models.User.{Uuid, DateTime}
use hzelmaim.Models.Session.{SessionRecord}
use hzelmaim.World.{World, Db, clock}
use hzelmaim.World.After.{After, After-bind, After-update, After-utc_now, After-bind}
use hzelmaim.World.Keeps.{
  Keeps, Keeps-bind, Keeps-utc_now, Keeps-update, Keeps-checked, keeps_rules,
}
use hzelmaim.Auth.Session.{
  AuthenticatedSession, is_some, admit, authenticate_headers, revoke_session,
}
use hzelmaim.Auth.Session.Validity.{Authenticated, refused, admitted, authenticate_headers_lem}
use hzelmaim.Db.AuthStore
use hzelmaim.Db.AuthStore.{session_conflict}

-- The first session of this id is revoked.
abbrev pub Revoked : Uuid → Db → Type 0
Revoked id d =
    find_column (λ (s : SessionRecord). is_some s.revoked_at) (λ s. s.id == id) d.sessions
    ≡ some true

-- An update that keeps the key and revokes at most more.
Revoked-update_rows :
    (id : Uuid) (q : SessionRecord → Bool) (f : SessionRecord → SessionRecord)
    (xs : List SessionRecord)
    → ((s : SessionRecord) → (f s).id ≡ s.id)
    → ((s : SessionRecord) → is_some s.revoked_at ≡ true → is_some (f s).revoked_at ≡ true)
    → find_column (λ (s : SessionRecord). is_some s.revoked_at) (λ s. s.id == id) xs ≡ some true
    → find_column
        (λ (s : SessionRecord). is_some s.revoked_at)
        (λ s. s.id == id)
        (update_rows q f xs)
      ≡ some true
unfolding find_column
Revoked-update_rows id q f [] same more h = absurd (cc)
Revoked-update_rows id q f (s ∷ xs) same more h = elim (Bool-cases (s.id == id)) [
  | inl m ↦
      let r : is_some s.revoked_at ≡ true = cc (rw m at h) in
      elim (Bool-cases (q s)) [
        | inl t ↦ rw (t, same s, m, more s r) refl
        | inr t ↦ rw (t, m, r) refl
      ]
  | inr m ↦
      let rest = Revoked-update_rows id q f xs same more (rw m at h) in
      elim (Bool-cases (q s)) [ inl t ↦ rw (t, same s, m) rest | inr t ↦ rw (t, m) rest ]
]

-- Logins, requests with a cookie, and logouts.
pub data SessionAction : Type 0 where
  login : SessionRecord → SessionAction
  request : HeaderMap → SessionAction
  log_out : Uuid → SessionAction

create_session-Revoked :
    (id : Uuid) (r : SessionRecord) → Keeps (Revoked id) (AuthStore.create_session r)
unfolding AuthStore.create_session
create_session-Revoked id r =
    Keeps-checked (λ d. session_conflict r d.sessions d.users) _
      λ d _ h. find_column-snoc _ _ d.sessions _ true h

revoke_session-Revoked : (id other : Uuid) → Keeps (Revoked id) (revoke_session other)
unfolding revoke_session AuthStore.revoke_session
revoke_session-Revoked id other = Keeps-bind _ _ Keeps-utc_now λ now.
    Keeps-update _
      λ d h. Revoked-update_rows id (λ s. s.id == other) _ d.sessions (λ s. refl) (λ s r. refl) h

touch_session-Revoked : (id other : Uuid) → Keeps (Revoked id) (AuthStore.touch_session other)
unfolding AuthStore.touch_session
touch_session-Revoked id other = Keeps-bind _ _ Keeps-utc_now λ now.
    Keeps-update _
      λ d h. Revoked-update_rows id (λ s. s.id == other) _ d.sessions (λ s. refl) (λ s r. r) h

module _ (parse_uuid : Bytes → Option Uuid) (cookie_name : Bytes) where
  authenticate_headers-Revoked :
      (id : Uuid) (headers : HeaderMap)
      → Keeps (Revoked id) (authenticate_headers parse_uuid cookie_name headers)
  unfolding authenticate_headers admit AuthStore.get_session AuthStore.get_user
  authenticate_headers-Revoked id headers = search (keeps_rules, touch_session-Revoked) depth 40

  unfoldable pub act : SessionAction → World → World
  act (login r) w = (AuthStore.create_session r w).1
  act (request headers) w = (authenticate_headers parse_uuid cookie_name headers w).1
  act (log_out id) w = (revoke_session id w).1

  unfoldable pub act_all : List SessionAction → World → World
  act_all [] w = w
  act_all (a ∷ acts) w = act_all acts (act a w)

  act-Revoked :
      (id : Uuid) (a : SessionAction) (w : World) → Revoked id w.db → Revoked id (act a w).db
  unfolding act
  act-Revoked id (login r) = (create_session-Revoked id r).at
  act-Revoked id (request headers) = (authenticate_headers-Revoked id headers).at
  act-Revoked id (log_out other) = (revoke_session-Revoked id other).at

  act_all-Revoked :
      (id : Uuid) (acts : List SessionAction) (w : World)
      → Revoked id w.db
      → Revoked id (act_all acts w).db
  unfolding act_all
  act_all-Revoked id [] w h = h
  act_all-Revoked id (a ∷ acts) w h = act_all-Revoked id acts (act a w) (act-Revoked id a w h)

  dead :
      (id : Uuid) (headers : HeaderMap) (w : World)
      → Revoked id w.db
      → (r : Result AuthenticatedSession) (w' : World)
      → Authenticated parse_uuid cookie_name headers w r w'
      → (s : AuthenticatedSession) → r ≡ ok s
      → s.user.session_id ≢ some id
  dead id headers w h r w' (refused still gone) s e = λ k. absurd (cc)
  dead id headers w h r w' (admitted {s = s'} token sid row now cookie parsed live stored) s e =
      λ k.
        let of_row : s'.user.session_id ≡ some row.id = live.identity.session_id in
        let same : s' ≡ s = ok_injective s' s e in
        let asked : row.id ≡ id =
          some_id row.id id
            (sym of_row ∙ (ap (λ (x : AuthenticatedSession). x.user.session_id) same ∙ k)) in
        let key : row.id ≡ sid =
          (==_iff row.id sid).0 (find_row_sound _ w.db.sessions row live.row_found) in
        let here : find_row (λ (x : SessionRecord). x.id == id) w.db.sessions ≡ some row =
          subst (λ (i : Uuid). find_row (λ (x : SessionRecord). x.id == i) w.db.sessions ≡ some row)
            (sym key ∙ asked) live.row_found in
        let open_row : Option.some false ≡ some true =
          sym (
            subst
              (λ (o : Option DateTime).
                find_column (λ (x : SessionRecord). is_some x.revoked_at) (λ x. x.id == id)
                  w.db.sessions
                ≡ some (is_some o))
              live.not_revoked
              (find_column_of_row (λ (x : SessionRecord). is_some x.revoked_at) _ w.db.sessions row
                here))
          ∙ h in
        cc
    where
      some_id : (a b : Uuid) → some a ≡ some b → a ≡ b
      some_id a b e = cc

-- The statement revokes every row of the id.
all_revoked :
    (id : Uuid) (now : DateTime) (xs : List SessionRecord)
    → any (λ (s : SessionRecord). s.id == id) xs ≡ true
    → find_column
        (λ (s : SessionRecord). is_some s.revoked_at)
        (λ s. s.id == id)
        (update_rows (λ s. s.id == id) (λ s. record s { revoked_at = some now }) xs)
      ≡ some true
unfolding find_column
all_revoked id now [] h = absurd (cc)
all_revoked id now (s ∷ xs) h = elim (Bool-cases (s.id == id)) [
  | inl t ↦ rw (t, t) refl
  | inr f ↦ rw (f, f) (all_revoked id now xs (rw f at h))
]

revoke_session_lem :
    (id : Uuid) (w : World)
    → any (λ (s : SessionRecord). s.id == id) w.db.sessions ≡ true
    → After (revoke_session id) w (λ r w'. (r ≡ ok tt) → Revoked id w'.db)
unfolding revoke_session AuthStore.revoke_session
revoke_session_lem id w present = After-bind _ w _ _ (
    After-utc_now w _
      (After-update _ _ _ (λ e. absurd (cc)) (λ e. all_revoked id (clock w) w.db.sessions present)))

-- Once a stored session is revoked, no request with any cookie is answered as that session, after
-- any logins, requests and logouts, whichever calls fail.
pub revoked_for_good :
    (parse_uuid : Bytes → Option Uuid) (cookie_name : Bytes) (id : Uuid) (w : World)
    (acts : List SessionAction) (headers : HeaderMap) (s : AuthenticatedSession)
    → any (λ (r : SessionRecord). r.id == id) w.db.sessions ≡ true
    → (revoke_session id w).0 ≡ ok tt
    → (authenticate_headers parse_uuid cookie_name headers
        (act_all parse_uuid cookie_name acts (revoke_session id w).1)).0
      ≡ ok s
    → s.user.session_id ≢ some id
revoked_for_good parse_uuid cookie_name id w acts headers s present done answered =
    let v = act_all parse_uuid cookie_name acts (revoke_session id w).1 in
    dead parse_uuid cookie_name id headers v
      (act_all-Revoked parse_uuid cookie_name id acts (revoke_session id w).1
        ((revoke_session_lem id w present).holds done))
      _ _ (authenticate_headers_lem parse_uuid cookie_name headers v).holds s answered
