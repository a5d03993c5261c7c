-- ===== src/Auth/Tokens.antt =====
-- The tokens that `verify_paseto` takes and `sign_paseto` makes.
use Prim.Native.String.{◌++◌ as string_append}
use nano_rpc_gateway.Prelude.{
  All, All-append, ◌<◌, ℕ, ◌-◌, String, true, false, not, List, ◌++◌, ◌≡◌, refl, ◌↔◌, arith, sym,
  ap, subst, ◌∙◌, length, take, drop, take-drop, take-append, drop-append, length-drop,
  length-append, ltb,
}
use nano_rpc_gateway.Prelude.Text.{strip_prefix, strip_prefix_iff}
use nano_rpc_gateway.Prelude.Result.{
  Result, ok, ◌>>=◌, ◌>>◌, ok_or, fail_if, map_err, >>=_ok_iff, >>_ok_iff, fail_if_iff, ok_or_iff,
  map_err_iff,
}
use nano_rpc_gateway.Json.{Value}
use nano_rpc_gateway.Error.{GatewayError, auth}
use nano_rpc_gateway.Registry.{Scope}
use nano_rpc_gateway.Auth.{
  Crypto, signed_message, check_claims, check_signature, verify_paseto, sign_paseto,
}
use nano_rpc_gateway.Auth.Claims.{Grants, not_iff, check_claims_iff}

module _ (crypto : Crypto) where
  -- A token made of a payload and of a signature of it by the key, of 64 bytes.
  pub record Signed (key : crypto.VerifyingKey) (token : String) (claims : Value) : Type 0 where
    pub encoded : String
    pub payload : List ℕ
    pub tail : List ℕ
    pub signature : crypto.Signature
    pub version : token ≡ string_append "v4.public." encoded
    pub decoded : crypto.decode encoded ≡ ok (payload ++ tail)
    pub tail_length : length tail ≡ 64
    pub tail_signature : crypto.signature_from_slice tail ≡ ok signature
    pub verified : crypto.verify key (signed_message payload) signature ≡ true
    pub parsed : crypto.from_slice payload ≡ ok claims

  check_signature_iff :
      (key : crypto.VerifyingKey) (payload tail : List ℕ)
      → (check_signature crypto key payload tail ≡ ok tt) ↔ (
          (s : crypto.Signature) × (crypto.signature_from_slice tail ≡ ok s)
          × (crypto.verify key (signed_message payload) s ≡ true))
  unfolding check_signature
  check_signature_iff key payload tail =
      let a =
        >>=_ok_iff (map_err auth (crypto.signature_from_slice tail))
          (λ s.
            fail_if (not (crypto.verify key (signed_message payload) s)) (auth "invalid signature"))
          tt in
      (
        λ h.
            let (s, e, f) = a.0 h in
            (s, (map_err_iff auth _ s).0 e, (not_iff _).0 ((fail_if_iff _ _).0 f)),
        λ (s, e, f). a.1 (s, (map_err_iff auth _ s).1 e, (fail_if_iff _ _).1 ((not_iff _).1 f)),
      )

  -- The checks on the bytes of a token.
  abbrev after_decoding : ℕ → crypto.VerifyingKey → Scope → List ℕ → Result GatewayError Value
  after_decoding now key scope bytes = do
    fail_if (ltb (length bytes) 64) (auth "truncated token")
    let split = length bytes - 64
    let payload = take split bytes
    check_signature crypto key payload (drop split bytes)
    claims ← map_err auth (crypto.from_slice payload)
    check_claims crypto now scope claims

  -- Bytes that are a payload and a signature of it.
  record SignedBytes (key : crypto.VerifyingKey) (bytes : List ℕ) (claims : Value) : Type 0 where
    payload : List ℕ
    tail : List ℕ
    signature : crypto.Signature
    whole : bytes ≡ payload ++ tail
    tail_length : length tail ≡ 64
    tail_signature : crypto.signature_from_slice tail ≡ ok signature
    verified : crypto.verify key (signed_message payload) signature ≡ true
    parsed : crypto.from_slice payload ≡ ok claims

  after_decoding-SignedBytes :
      (now : ℕ) (key : crypto.VerifyingKey) (scope : Scope) (bytes : List ℕ) (z : Value)
      → after_decoding now key scope bytes ≡ ok z
      → SignedBytes key bytes z × Grants now scope z
  after_decoding-SignedBytes now key scope bytes z h =
      let split = length bytes - 64 in
      let payload = take split bytes in
      let (long, h2) =
        (>>_ok_iff (fail_if (ltb (length bytes) 64) (auth "truncated token")) _ z).0 h in
      let (signed, h3) =
        (>>_ok_iff (check_signature crypto key payload (drop split bytes)) _ z).0 h2 in
      let (s, e, f) = (check_signature_iff key payload (drop split bytes)).0 signed in
      let (claims, parsed, checked) =
        (>>=_ok_iff (map_err auth (crypto.from_slice payload)) (check_claims crypto now scope) z).0
          h3 in
      let (grants, same) = (check_claims_iff crypto now scope claims z).0 checked in
      let enough = (fail_if_iff (ltb (length bytes) 64) _).0 long in
      (
        record {
          payload = payload;
          tail = drop split bytes;
          signature = s;
          whole = sym (take-drop split bytes);
          tail_length = ground (arith, length-drop split bytes);
          tail_signature = e;
          verified = f;
          parsed = (map_err_iff auth _ claims).0 parsed ∙ ap ok same;
        },
        subst (Grants now scope) same grants,
      )

  SignedBytes-after_decoding :
      (now : ℕ) (key : crypto.VerifyingKey) (scope : Scope) (payload tail : List ℕ) (z : Value)
      (s : crypto.Signature)
      → length tail ≡ 64
      → crypto.signature_from_slice tail ≡ ok s
      → crypto.verify key (signed_message payload) s ≡ true
      → crypto.from_slice payload ≡ ok z
      → Grants now scope z
      → after_decoding now key scope (payload ++ tail) ≡ ok z
  SignedBytes-after_decoding now key scope payload tail z s n e f p g =
      let bytes = payload ++ tail in
      let total = length-append payload tail in
      let split : length bytes - 64 ≡ length payload = omega (arith, total, n) in
      let long : ltb (length bytes) 64 ≡ false = ground (arith, total, n) in
      let front : take (length bytes - 64) bytes ≡ payload =
        ap (λ k. take k bytes) split ∙ take-append payload tail in
      let back : drop (length bytes - 64) bytes ≡ tail =
        ap (λ k. drop k bytes) split ∙ drop-append payload tail in
      let signed = (check_signature_iff key payload tail).1 (s, e, f) in
      let granted = (check_claims_iff crypto now scope z z).1 (g, refl) in
      rw (long, front, back, signed, p) granted

  verify_paseto-Signed :
      (now : ℕ) (token : String) (key : crypto.VerifyingKey) (scope : Scope) (claims : Value)
      → verify_paseto crypto now token key scope ≡ ok claims
      → Signed key token claims × Grants now scope claims
  unfolding verify_paseto
  verify_paseto-Signed now token key scope claims h =
      let (encoded, prefix, h2) =
        (>>=_ok_iff (ok_or (strip_prefix token "v4.public.") (auth "unsupported token version"))
            (λ e. map_err auth (crypto.decode e) >>= after_decoding now key scope) claims).0
          h in
      let (bytes, decoded, h3) =
        (>>=_ok_iff (map_err auth (crypto.decode encoded)) (after_decoding now key scope) claims).0
          h2 in
      let (b, grants) = after_decoding-SignedBytes now key scope bytes claims h3 in
      (
        record {
          encoded = encoded;
          payload = b.payload;
          tail = b.tail;
          signature = b.signature;
          version =
              (strip_prefix_iff token "v4.public." encoded).0 ((ok_or_iff _ _ encoded).0 prefix);
          decoded = (map_err_iff auth _ bytes).0 decoded ∙ ap ok b.whole;
          tail_length = b.tail_length;
          tail_signature = b.tail_signature;
          verified = b.verified;
          parsed = b.parsed;
        },
        grants,
      )

  Signed-verify_paseto :
      (now : ℕ) (token : String) (key : crypto.VerifyingKey) (scope : Scope) (claims : Value)
      → Signed key token claims
      → Grants now scope claims
      → verify_paseto crypto now token key scope ≡ ok claims
  unfolding verify_paseto
  Signed-verify_paseto now token key scope claims s g =
      let stripped = (strip_prefix_iff token "v4.public." s.encoded).1 s.version in
      let bytes =
        SignedBytes-after_decoding now key scope s.payload s.tail claims s.signature s.tail_length
          s.tail_signature s.verified s.parsed g in
      rw (stripped, s.decoded) bytes

  -- A token is taken, with its claims, exactly when it is `v4.public.` and the encoding of a payload
  -- and a 64-byte signature of that payload by the key, and the claims in the payload have not
  -- expired, name the gateway as their audience, and carry a scope that allows the method's.
  pub verify_paseto_iff :
      (now : ℕ) (token : String) (key : crypto.VerifyingKey) (scope : Scope) (claims : Value)
      → (verify_paseto crypto now token key scope ≡ ok claims)
        ↔ (Signed key token claims × Grants now scope claims)
  verify_paseto_iff now token key scope claims = (
    verify_paseto-Signed now token key scope claims,
    λ (s, g). Signed-verify_paseto now token key scope claims s g,
  )

  -- What the libraries promise of a pair of keys and of claims: bytes that are encoded are decoded,
  -- what is signed is verified, and claims that are printed are read back.
  pub record Pair (sign : List ℕ → List ℕ) (key : crypto.VerifyingKey) (claims : Value)
      : Type 0 where
    pub decode-encode :
        (bytes : List ℕ) → All (λ b. b < 256) bytes → crypto.decode (crypto.encode bytes) ≡ ok bytes
    pub sign-bytes : (message : List ℕ) → All (λ b. b < 256) (sign message)
    pub length-sign : (message : List ℕ) → length (sign message) ≡ 64
    pub signature : List ℕ → crypto.Signature
    pub from_slice-sign :
        (message : List ℕ) → crypto.signature_from_slice (sign message) ≡ ok (signature message)
    pub verify-sign : (message : List ℕ) → crypto.verify key message (signature message) ≡ true
    pub to_vec-bytes : All (λ b. b < 256) (crypto.to_vec claims)
    pub from_slice-to_vec : crypto.from_slice (crypto.to_vec claims) ≡ ok claims

  -- A token that the gateway signs with one key of a pair is taken with the other, for the scopes
  -- and the time that its claims grant.
  pub verify_paseto-sign_paseto :
      (sign : List ℕ → List ℕ) (key : crypto.VerifyingKey) (now : ℕ) (scope : Scope)
      (claims : Value)
      → Pair sign key claims
      → Grants now scope claims
      → verify_paseto crypto now (sign_paseto crypto sign claims) key scope ≡ ok claims
  unfolding sign_paseto
  verify_paseto-sign_paseto sign key now scope claims pair g =
      let payload = crypto.to_vec claims in
      let message = signed_message payload in
      Signed-verify_paseto now (sign_paseto crypto sign claims) key scope claims
        (record {
          encoded = crypto.encode (payload ++ sign message);
          payload = payload;
          tail = sign message;
          signature = pair.signature message;
          version = refl;
          decoded =
              pair.decode-encode (payload ++ sign message)
                (All-append _ payload (sign message) pair.to_vec-bytes (pair.sign-bytes message));
          tail_length = pair.length-sign message;
          tail_signature = pair.from_slice-sign message;
          verified = pair.verify-sign message;
          parsed = pair.from_slice-to_vec;
        })
        g
