-- ===== src/Tests/Auths.antt =====
-- Runs of the theorems on authentication.
use epica.Prelude.{
  string_eq, nat_eq, list_eq, ℕ, ◌≡◌, ◌↔◌, ◌⊎◌, true, false, some, [], ◌∷◌, ◌++◌, ok, err,
}
use epica.Mcp.Auth.{Jwt, JwtClaims, AuthConfig, hs256, Request, check_auth, bearer}
use epica.Mcp.Authorized.{check_auth_iff, IsExempt, Presents}

abbrev claims : JwtClaims
claims = record { sub = []; exp = 9; iat = 0; scope = [] }

-- Every token is taken for valid.
instance abbrev toy_jwt : Jwt
toy_jwt = record {
  Key = Unit;
  JwtError = ℕ;
  describe = λ e. [];
  from_secret = λ s. tt;
  from_rsa_pem = λ s. err 0;
  decode_hs256 = λ t k a i. ok claims;
  decode_rs256 = λ t k a i. err 0;
}

abbrev config : AuthConfig
config = record { algorithm = hs256 []; audience = []; issuer = []; disabled = false }

abbrev with_token : Request
with_token = record { path = 47 ∷ []; authorization = some (bearer ++ 1 ∷ 2 ∷ []) }

check_auth_iff_example : (check_auth with_token config ≡ ok tt) ↔ (
    (config.disabled ≡ true)
    ⊎ (IsExempt with_token.path ⊎ Presents with_token.authorization config))
check_auth_iff_example = check_auth_iff with_token config
