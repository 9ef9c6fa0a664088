-- ===== src/Mcp/Auth.antt =====
-- crates/epica-mcp/src/auth.rs: `check_auth`. Text is its bytes; `jsonwebtoken` is an interface. A request
-- is its path and its Authorization header, if that is there and readable.
use Prim.Native.Char.{code}
use epica.Prelude.{
  nat_beq, if◌then◌else◌, string_eq, nat_eq, ◌==◌, list_eq, Result, map_err, ℕ, Bool, true, false,
  ◌||◌, Option, none, some, List, [], ◌∷◌, ◌++◌, map, ok, err,
}
use epica.Ledger.Defs.{Bytes}

pub record JwtClaims : Type 0 where
  pub sub : Bytes
  pub exp : ℕ
  pub iat : ℕ
  pub scope : List Bytes

pub data JwtAlgorithm : Type 0 where
  hs256 : Bytes → JwtAlgorithm
  rs256 : Bytes → Bytes → JwtAlgorithm

pub record AuthConfig : Type 0 where
  pub algorithm : JwtAlgorithm
  pub audience : Bytes
  pub issuer : Bytes
  pub disabled : Bool

pub record Request : Type 0 where
  pub path : Bytes
  pub authorization : Option Bytes

-- The answer is 401 in both cases.
pub data Unauthorized : Type 0 where
  missing_token : Unauthorized
  invalid_token : Bytes → Unauthorized

-- `decode` under a validation that pins the algorithm, the audience and the issuer.
pub record Jwt : Type 1 where
  pub Key : Type 0
  pub JwtError : Type 0
  pub describe : JwtError → Bytes
  pub from_secret : Bytes → Key
  pub from_rsa_pem : Bytes → Result JwtError Key
  pub decode_hs256 : Bytes → Key → Bytes → Bytes → Result JwtError JwtClaims
  pub decode_rs256 : Bytes → Key → Bytes → Bytes → Result JwtError JwtClaims

abbrev pub well_known : Bytes
well_known =
    map code ("/" ∷ "." ∷ "w" ∷ "e" ∷ "l" ∷ "l" ∷ "-" ∷ "k" ∷ "n" ∷ "o" ∷ "w" ∷ "n" ∷ "/" ∷ [])

abbrev pub health : Bytes
health = map code ("/" ∷ "h" ∷ "e" ∷ "a" ∷ "l" ∷ "t" ∷ "h" ∷ [])

abbrev pub ready : Bytes
ready = map code ("/" ∷ "r" ∷ "e" ∷ "a" ∷ "d" ∷ "y" ∷ [])

abbrev pub metrics : Bytes
metrics = map code ("/" ∷ "m" ∷ "e" ∷ "t" ∷ "r" ∷ "i" ∷ "c" ∷ "s" ∷ [])

abbrev pub bearer : Bytes
bearer = map code ("B" ∷ "e" ∷ "a" ∷ "r" ∷ "e" ∷ "r" ∷ " " ∷ [])

unfoldable pub strip_prefix : Bytes → Bytes → Option Bytes
strip_prefix [] s = some s
strip_prefix (c ∷ cs) [] = none
strip_prefix (c ∷ cs) (d ∷ s) = let rest = strip_prefix cs s in if nat_beq c d then rest else none

unfoldable pub starts_with : Bytes → Bytes → Bool
starts_with [] s = true
starts_with (c ∷ cs) [] = false
starts_with (c ∷ cs) (d ∷ s) = let rest = starts_with cs s in if nat_beq c d then rest else false

unfoldable pub is_exempt : Bytes → Bool
is_exempt path = starts_with well_known path || path == health || path == ready || path == metrics

abbrev invalid_pem : Bytes
invalid_pem = map code (
    "i" ∷ "n" ∷ "v" ∷ "a" ∷ "l" ∷ "i" ∷ "d" ∷ " " ∷ "R" ∷ "S" ∷ "A" ∷ " " ∷ "p" ∷ "u" ∷ "b" ∷ "l"
    ∷ "i" ∷ "c" ∷ " " ∷ "k" ∷ "e" ∷ "y" ∷ " " ∷ "P" ∷ "E" ∷ "M" ∷ ":" ∷ " " ∷ [])

module _ ⦃jw : Jwt⦄ where
  abbrev invalid_jwt : jw.JwtError → Bytes
  invalid_jwt e =
      map code ("i" ∷ "n" ∷ "v" ∷ "a" ∷ "l" ∷ "i" ∷ "d" ∷ " " ∷ "J" ∷ "W" ∷ "T" ∷ ":" ∷ " " ∷ [])
      ++ jw.describe e

  unfoldable pub validate_jwt : Bytes → AuthConfig → Result Bytes JwtClaims
  validate_jwt token c = elim c.algorithm [
    | hs256 secret ↦
        map_err invalid_jwt (jw.decode_hs256 token (jw.from_secret secret) c.audience c.issuer)
    | rs256 pem kid ↦ elim (jw.from_rsa_pem pem) [
      | err e ↦ err (invalid_pem ++ jw.describe e)
      | ok key ↦ map_err invalid_jwt (jw.decode_rs256 token key c.audience c.issuer)
    ]
  ]

  unfoldable pub check_token : Option Bytes → AuthConfig → Result Unauthorized (Unit {0})
  check_token none c = err missing_token
  check_token (some v) c = elim (strip_prefix bearer v) [
    | none ↦ err missing_token
    | some token ↦ elim (validate_jwt token c) [ ok claims ↦ ok tt | err e ↦ err (invalid_token e) ]
  ]

  unfoldable pub check_auth : Request → AuthConfig → Result Unauthorized (Unit {0})
  check_auth r c =
      if c.disabled
      then ok tt
      else if is_exempt r.path
      then ok tt
      else check_token r.authorization c
