-- ===== src/Handlers/Oauth/Consent.antt =====
-- The way to the consent page (`authorize_get` of
-- backend/src/api/handlers/oauth.rs). The text of a client's id is a parameter.
use hzelmaim.Prelude.{◌&&◌, [], ◌∷◌, ◌++◌, ◌==◌, if◌then◌else◌}
use hzelmaim.Prelude.Bytes.{Bytes}
use hzelmaim.Prelude.Text.{codes, is_empty}
use hzelmaim.Models.User.{Uuid}
use hzelmaim.World.{M, ◌>>=◌, pure}
use hzelmaim.Handlers.Oauth.{validate_authorize_params}

-- `trim_end_matches('/')`
abbrev trim_end_slashes : Bytes → Bytes
trim_end_slashes [] = []
trim_end_slashes (b ∷ s) =
    let rest = trim_end_slashes s in if b == 47 && is_empty rest then [] else b ∷ rest

unfoldable pub authorize_get :
    (Bytes → Bytes) → (Uuid → Bytes) → Bytes → Uuid → Bytes → Bytes → Bytes → M Bytes
authorize_get encode id_text public_base_url client_id redirect_uri response_type state = do
  app ← validate_authorize_params response_type client_id redirect_uri
  pure (
      trim_end_slashes public_base_url
      ++ (codes "/oauth/consent?client_id="
          ++ (id_text client_id
              ++ (codes "&redirect_uri="
                  ++ (encode redirect_uri
                      ++ (codes "&state="
                          ++ (encode state
                              ++ (codes "&response_type=" ++ encode response_type))))))))
