-- ===== src/Auth.antt =====
-- Authorization of src/lib.rs: PASETO v4.public tokens, and the check of a request's header. Bytes
-- are numbers below 256. Base64, Ed25519 and the reading of JSON are the interface `Crypto`.
pub mod Encoding
pub mod Claims
pub mod Tokens
pub mod Scopes
pub mod Issue
pub mod Issued
use text.Mathlib.Text.{◌==◌ as str_eq}
use nano_rpc_gateway.Prelude.{
  ℕ, zero, suc, ◌-◌, ◌/◌, ◌%◌, ◌^◌, String, Bool, true, false, not, ◌||◌, List, [], ◌∷◌, ◌++◌,
  Option, none, some, length, take, drop, ltb, ◌==◌,
}
use nano_rpc_gateway.Prelude.Text.{codes, strip_prefix}
use nano_rpc_gateway.Prelude.Result.{Result, ok, err, ◌>>=◌, ◌>>◌, ok_or, fail_if, map_err, is_ok}
use nano_rpc_gateway.Json.{Value, as_u64, member, member_str, is_some_and, is_none_or, unwrap_or}
use nano_rpc_gateway.Error.{GatewayError, auth}
use nano_rpc_gateway.Registry.{Scope, base, common, work, control}
use nano_rpc_gateway.Validate.Params.{is_one_of}

pub record Crypto : Type 1 where
  pub VerifyingKey : Type 0
  pub Signature : Type 0
  -- `URL_SAFE_NO_PAD.decode` and `encode`
  pub decode : String → Result String (List ℕ)
  pub encode : List ℕ → String
  -- `VerifyingKey::from_bytes`, of 32 bytes
  pub key_from_bytes : List ℕ → Result String VerifyingKey
  -- `Signature::from_slice`
  pub signature_from_slice : List ℕ → Result String Signature
  -- `key.verify(message, signature).is_ok()`
  pub verify : VerifyingKey → List ℕ → Signature → Bool
  -- `serde_json::from_slice` and `to_vec`
  pub from_slice : List ℕ → Result String Value
  pub to_vec : Value → List ℕ

-- The low bytes of a number, the lowest first.
unfoldable pub le_bytes : ℕ → ℕ → List ℕ
le_bytes zero n = []
le_bytes (suc k) n = n % 256 ∷ le_bytes k (n / 256)

-- `(n as u64).to_le_bytes()`
abbrev pub le64 : ℕ → List ℕ
le64 n = le_bytes 8 (n % 2 ^ 64)

-- The loop of `pae`.
unfoldable pub pae_parts : List (List ℕ) → List ℕ
pae_parts [] = []
pae_parts (part ∷ parts) = le64 (length part) ++ (part ++ pae_parts parts)

unfoldable pub pae : List (List ℕ) → List ℕ
unfolding pae_parts
pae parts = le64 (length parts) ++ pae_parts parts

-- The message that is signed for a payload.
abbrev pub signed_message : List ℕ → List ℕ
signed_message payload = pae (codes "v4.public" ∷ payload ∷ [] ∷ [] ∷ [])

-- The `match` on the scope of the method, over the scope of the token.
unfoldable pub is_allowed : Scope → String → Bool
is_allowed base token_scope = true
is_allowed common token_scope = is_one_of ("common" ∷ "work" ∷ "control" ∷ []) token_scope
is_allowed work token_scope = is_one_of ("work" ∷ "control" ∷ []) token_scope
is_allowed control token_scope = str_eq token_scope "control"

-- A present expiry that is no timestamp, or one before `now`, in seconds.
abbrev pub is_expired : ℕ → Value → Bool
is_expired now claims =
    is_some_and (member claims "exp") (λ exp. is_none_or (as_u64 exp) (λ t. ltb t now))

abbrev pub is_audience : Option String → Bool
is_audience none = false
is_audience (some aud) = str_eq aud "nano-rpc-gateway"

module _ (crypto : Crypto) where
  abbrev key_of_bytes : List ℕ → Result GatewayError crypto.VerifyingKey
  key_of_bytes bytes = do
    fail_if (not (length bytes == 32)) (auth "public key must be 32 bytes")
    map_err auth (crypto.key_from_bytes bytes)

  unfoldable pub parse_public_key : String → Result GatewayError crypto.VerifyingKey
  parse_public_key value = do bytes ← map_err auth (crypto.decode value); key_of_bytes bytes

  -- The checks of the claims, which are made once the signature holds.
  unfoldable pub check_claims : ℕ → Scope → Value → Result GatewayError Value
  unfolding is_allowed
  check_claims now scope claims = do
    fail_if (is_expired now claims) (auth "expired token")
    fail_if (not (is_allowed scope (unwrap_or (member_str claims "scope") "")))
        (auth "scope denied")
    fail_if (not (is_audience (member_str claims "aud"))) (auth "audience denied")
    ok claims

  -- The payload and the signature of a token.
  unfoldable pub check_signature :
      crypto.VerifyingKey → List ℕ → List ℕ → Result GatewayError (Unit {0})
  unfolding pae
  check_signature key payload tail = do
    signature ← map_err auth (crypto.signature_from_slice tail)
    fail_if (not (crypto.verify key (signed_message payload) signature)) (auth "invalid signature")

  unfoldable pub verify_paseto :
      ℕ → String → crypto.VerifyingKey → Scope → Result GatewayError Value
  unfolding check_claims check_signature
  verify_paseto now token key scope = do
    encoded ← ok_or (strip_prefix token "v4.public.") (auth "unsupported token version")
    bytes ← map_err auth (crypto.decode encoded)
    fail_if (ltb (length bytes) 64) (auth "truncated token")
    let split = length bytes - 64
    let payload = take split bytes
    check_signature key payload (drop split bytes)
    claims ← map_err auth (crypto.from_slice payload)
    check_claims now scope claims

  -- `sign_paseto`, with `sign` for the signing key.
  unfoldable pub sign_paseto : (List ℕ → List ℕ) → Value → String
  unfolding pae
  sign_paseto sign claims =
      let payload = crypto.to_vec claims in
      Prim.Native.String.◌++◌ "v4.public."
        (crypto.encode (payload ++ sign (signed_message payload)))

  abbrev check_bearer : ℕ → crypto.VerifyingKey → Scope → Option String → Bool
  check_bearer now key scope none = false
  check_bearer now key scope (some token) = is_ok (verify_paseto now token key scope)

  abbrev check_header : ℕ → crypto.VerifyingKey → Scope → Option String → Bool
  check_header now key scope none = false
  check_header now key scope (some value) =
      check_bearer now key scope (strip_prefix value "Bearer ")

  -- `authorized`, over the text of the request's Authorization header.
  unfoldable pub authorized : ℕ → Option crypto.VerifyingKey → Option String → Scope → Bool
  unfolding verify_paseto
  authorized now none header scope = false
  authorized now (some key) header scope = check_header now key scope header
