-- ===== src/Handlers/Oauth/Replay.antt =====
-- The single use of authorization codes.
use hzelmaim.Prelude.{String, ◌+◌, ◌≡◌, ◌≢◌, sym, ◌∙◌, subst, true, some, List}
use hzelmaim.Prelude.Bytes.{Bytes, bytes_eq}
use hzelmaim.Prelude.Text.{codes}
use hzelmaim.Api.{Result, ok, err, ok_injective}
use hzelmaim.Models.User.{Uuid}
use hzelmaim.Models.Oauth.{OauthApplication}
use hzelmaim.World.{World, Db, tick}
use hzelmaim.Auth.Resolver.{AuthConfig}
use hzelmaim.Db.OauthCodeRepo.{is_usable}
use hzelmaim.Handlers.Oauth.{TokenRequest, TokenPair, sha256_hex, token}
use hzelmaim.Handlers.Oauth.Issue.{Told}
use hzelmaim.Handlers.Oauth.Grants.{Granted, TokenIssued, by_code, by_refresh, token_lem}
use hzelmaim.Handlers.Oauth.Codes.{
  Spent, UniqueHashes, Spent-mark, stored_of_usable, spent_by_consume, unusable,
}
use hzelmaim.Handlers.Oauth.Requests.{OauthRequest, ask_all, ask_all-Spent}

told_at :
    {A : Type 0} (P : A → World → Type 0) (r : Result A) (w : World) (a : A)
    → Told P r w
    → r ≡ ok a
    → P a w
told_at P (ok b) w a p e = subst (λ (x : _). P x w) (ok_injective b a e) p
told_at P (err x) w a p e = absurd (cc)

some_injective : {A : Type 0} (a b : A) → some a ≡ some b → a ≡ b
some_injective a b e = cc

module _ (c : AuthConfig) (app : OauthApplication) (body : TokenRequest) (raw_code : Bytes) where
  abbrev hash : Bytes
  hash = sha256_hex c raw_code

  -- A code grant uses up its code.
  granted-spends :
      (w : World) (grant : Uuid × Bytes) (d : Db)
      → UniqueHashes w.db
      → bytes_eq body.grant_type (codes "authorization_code") ≡ true
      → body.code ≡ some raw_code
      → Granted c app body w grant d
      → Spent hash d
  granted-spends w grant d unique kind given (by_refresh raw_rt now row other a b e f g issued) =
      absurd (cc)
  granted-spends w grant d unique kind given
        (by_code raw uri step row k code asked later found of_app same_uri of_user issued) =
      let same : raw ≡ raw_code = some_injective raw raw_code (sym code ∙ given) in
      subst (λ (x : Bytes). Spent (sha256_hex c x) d) same
        (subst (λ (x : Db). Spent (sha256_hex c raw) x) (sym issued.added)
          (
            (Spent-mark (sha256_hex c raw)
                  (is_usable (sha256_hex c raw) (w.env.time step + w.slept))
                  (w.env.time step + w.slept) w.db.oauth_authorization_codes).0
                ∙ stored_of_usable (sha256_hex c raw) (w.env.time step + w.slept)
                    w.db.oauth_authorization_codes row found,
            spent_by_consume (sha256_hex c raw) (w.env.time step + w.slept)
                w.db.oauth_authorization_codes row unique found,
          ))

  -- A code that is used up is not granted.
  not_granted_again :
      (w : World) (grant : Uuid × Bytes) (d : Db)
      → Spent hash w.db
      → bytes_eq body.grant_type (codes "authorization_code") ≡ true
      → body.code ≡ some raw_code
      → Granted c app body w grant d
      → ⊥
  not_granted_again w grant d spent kind given (by_refresh raw_rt now row other a b e f g issued) =
      absurd (cc)
  not_granted_again w grant d spent kind given
        (by_code raw uri step row k code asked later found of_app same_uri of_user issued) =
      let same : raw_code ≡ raw = some_injective raw_code raw (sym given ∙ code) in
      unusable (sha256_hex c raw) (w.env.time step + w.slept) w.db.oauth_authorization_codes row
        (subst (λ (x : Bytes). Spent (sha256_hex c x) w.db) same spent).1 found

-- When the hashes of the stored codes differ, a code that was exchanged once is never exchanged
-- again by any client, after any requests to the provider, whichever calls fail.
pub exchanged_once :
    (c : AuthConfig) (encode : Bytes → Bytes) (id_text : Uuid → String) (first later : TokenRequest)
    (raw_code random random' : Bytes) (pair pair' : TokenPair) (requests : List OauthRequest)
    (w : World)
    → UniqueHashes w.db
    → bytes_eq first.grant_type (codes "authorization_code") ≡ true
    → first.code ≡ some raw_code
    → (token c id_text first random w).0 ≡ ok pair
    → bytes_eq later.grant_type (codes "authorization_code") ≡ true
    → later.code ≡ some raw_code
    → (token c id_text later random'
        (ask_all c encode id_text requests (token c id_text first random w).1)).0
      ≢ ok pair'
exchanged_once c encode id_text first later raw_code random random' pair pair' requests w unique
      kind given done kind' given' =
    λ again.
      let v = ask_all c encode id_text requests (token c id_text first random w).1 in
      let issued =
        told_at (TokenIssued c id_text first w) _ _ pair (token_lem c id_text first random w).holds
          done in
      let reissued =
        told_at (TokenIssued c id_text later v) _ _ pair'
          (token_lem c id_text later random' v).holds again in
      not_granted_again c reissued.app later raw_code (tick v) _ _
        (ask_all-Spent c encode id_text (sha256_hex c raw_code) requests _
          (granted-spends c issued.app first raw_code (tick w) _ _ unique kind given issued.grant))
        kind' given' reissued.grant
