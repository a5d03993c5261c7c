-- ===== src/Auth/Issue.antt =====
-- The command `issue` of src/main.rs: a token for the claims that its arguments give. The arguments are
-- taken as clap has parsed them; `sign_with` signs with the key of 32 bytes.
use nano_rpc_gateway.Prelude.{
  ℕ, ◌+◌, ◌^◌, String, Bool, true, false, not, List, [], ◌∷◌, Option, none, some, length, ltb, ◌==◌,
  if◌then◌else◌,
}
use nano_rpc_gateway.Prelude.Result.{Result, ok, err, ◌>>=◌, ◌>>◌, fail_if}
use nano_rpc_gateway.Json.{Value, Fields, object, string, insert, end}
use nano_rpc_gateway.Json.Macro.{int, insert_all}
use nano_rpc_gateway.Auth.{Crypto, sign_paseto}

abbrev pub overflow_error : String
overflow_error = "token TTL overflows the expiry timestamp"

-- `now.checked_add(ttl)`, on 64 bits; no expiry is asked for by the flag.
unfoldable pub expiry : Bool → ℕ → ℕ → Result String (Option ℕ)
expiry true ttl now = ok none
expiry false ttl now =
    if ltb (now + ttl) (2 ^ 64) then ok (some (now + ttl)) else err overflow_error

abbrev claim_members : String → String → ℕ → List (String × Value)
claim_members scope subject now =
    ("aud", string "nano-rpc-gateway")
    ∷ ("sub", string subject)
    ∷ ("scope", string scope)
    ∷ ("iat", int now)
    ∷ []

abbrev with_expiry : Option ℕ → Fields → Value
with_expiry none fs = object fs
with_expiry (some t) fs = object (insert "exp" (int t) fs)

unfoldable pub issued_claims : String → String → ℕ → Option ℕ → Value
unfolding insert_all insert
issued_claims scope subject now expires_at =
    with_expiry expires_at (insert_all (claim_members scope subject now) end)

module _ (crypto : Crypto) (sign_with : List ℕ → List ℕ → List ℕ) where
  abbrev pub signed_token : List ℕ → Value → Result String String
  signed_token bytes claims = ok (sign_paseto crypto (sign_with bytes) claims)

  abbrev pub token_from : List ℕ → String → String → ℕ → Option ℕ → Result String String
  token_from bytes scope subject now expires_at =
      signed_token bytes (issued_claims scope subject now expires_at)

  abbrev pub token_for : String → Bool → ℕ → String → ℕ → List ℕ → Result String String
  token_for scope no_expiry ttl subject now bytes = do
    fail_if (not (length bytes == 32)) "secret key must be 32 bytes"
    expiry no_expiry ttl now >>= token_from bytes scope subject now

  unfoldable pub issue : String → String → Bool → ℕ → String → ℕ → Result String String
  unfolding expiry issued_claims sign_paseto
  issue secret scope no_expiry ttl subject now =
      crypto.decode secret >>= token_for scope no_expiry ttl subject now
