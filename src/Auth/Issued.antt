-- ===== src/Auth/Issued.antt =====
-- What the tokens of the command `issue` are taken for.
use mathlib.Core.Option.{some-injective}
use nano_rpc_gateway.Prelude.{
  ℕ, ◌+◌, ◌^◌, ◌≤◌, ◌<◌, String, Bool, true, false, not, List, Option, none, some, ◌≡◌, refl, ◌↔◌,
  arith, length, ◌==◌, ltb, if◌then◌else◌, ap, sym, ◌∙◌, subst,
}
use nano_rpc_gateway.Prelude.Result.{ok, err, ◌>>=◌, ◌>>◌, fail_if}
use nano_rpc_gateway.Json.{member, member_str, unwrap_or}
use nano_rpc_gateway.Registry.{Scope}
use nano_rpc_gateway.Auth.{Crypto, verify_paseto, sign_paseto}
use nano_rpc_gateway.Auth.Claims.{Allowed, Unexpired, Grants}
use nano_rpc_gateway.Auth.Tokens.{Pair, verify_paseto_iff, verify_paseto-sign_paseto}
use nano_rpc_gateway.Auth.Issue.{
  overflow_error, expiry, issued_claims, token_from, token_for, issue,
}

-- The second at which a token is used, against its expiry.
abbrev pub Lasts : ℕ → Option ℕ → Type 0
Lasts at none = Unit
Lasts at (some t) = at ≤ t

issued-Unexpired :
    (at : ℕ) (scope subject : String) (now : ℕ) (expires_at : Option ℕ)
    → Unexpired at (member (issued_claims scope subject now expires_at) "exp") ↔ Lasts at expires_at
unfolding member issued_claims
issued-Unexpired at scope subject now none = (λ _. tt, λ _. tt)
issued-Unexpired at scope subject now (some t) =
    (λ (u, same, h). omega (arith, h, some-injective _ _ same), λ h. (t, refl, h))

issued-scope :
    (scope subject : String) (now : ℕ) (expires_at : Option ℕ)
    → member_str (issued_claims scope subject now expires_at) "scope" ≡ some scope
unfolding member_str issued_claims
issued-scope scope subject now none = refl
issued-scope scope subject now (some t) = refl

issued-aud :
    (scope subject : String) (now : ℕ) (expires_at : Option ℕ)
    → member_str (issued_claims scope subject now expires_at) "aud" ≡ some "nano-rpc-gateway"
unfolding member_str issued_claims
issued-aud scope subject now none = refl
issued-aud scope subject now (some t) = refl

-- The expiry that the arguments ask for.
abbrev pub Expires : Bool → ℕ → ℕ → Option ℕ → Type 0
Expires true ttl now expires_at = expires_at ≡ none
Expires false ttl now expires_at = (now + ttl < 2 ^ 64) × (expires_at ≡ some (now + ttl))

Expires-expiry :
    (no_expiry : Bool) (ttl now : ℕ) (expires_at : Option ℕ)
    → Expires no_expiry ttl now expires_at
    → expiry no_expiry ttl now ≡ ok expires_at
unfolding expiry
Expires-expiry true ttl now expires_at e = ap ok (sym e)
Expires-expiry false ttl now expires_at (fits, e) =
    let below : ltb (now + ttl) (2 ^ 64) ≡ true = ground (arith, fits) in
    ap (λ b. if b then ok (some (now + ttl)) else err overflow_error) below ∙ ap ok (sym e)

module _ (crypto : Crypto) (sign_with : List ℕ → List ℕ → List ℕ) where
  -- A secret of 32 bytes and an expiry that is in range give the token of the claims.
  issue-sign_paseto :
      (secret scope : String) (no_expiry : Bool) (ttl : ℕ) (subject : String) (now : ℕ)
      (bytes : List ℕ) (expires_at : Option ℕ)
      → crypto.decode secret ≡ ok bytes
      → length bytes ≡ 32
      → Expires no_expiry ttl now expires_at
      → issue crypto sign_with secret scope no_expiry ttl subject now
        ≡ ok (sign_paseto crypto (sign_with bytes) (issued_claims scope subject now expires_at))
  unfolding issue
  issue-sign_paseto secret scope no_expiry ttl subject now bytes expires_at read size expires =
      let full : (length bytes == 32) ≡ true = ground (arith, size) in
      ap (λ r. r >>= token_for crypto sign_with scope no_expiry ttl subject now) read
      ∙ ap
          (λ b.
            fail_if (not b) "secret key must be 32 bytes"
            >> (expiry no_expiry ttl now >>= token_from crypto sign_with bytes scope subject now))
          full
      ∙ ap (λ r. r >>= token_from crypto sign_with bytes scope subject now)
          (Expires-expiry no_expiry ttl now expires_at expires)

  Grants-issued :
      (at : ℕ) (method_scope : Scope) (scope subject : String) (now : ℕ) (expires_at : Option ℕ)
      → Grants at method_scope (issued_claims scope subject now expires_at)
        ↔ (Lasts at expires_at × Allowed method_scope scope)
  Grants-issued at method_scope scope subject now expires_at =
      let same = issued-scope scope subject now expires_at in
      let lasting = issued-Unexpired at scope subject now expires_at in
      (
        λ g. (
          lasting.0 g.unexpired,
          subst (λ s. Allowed method_scope (unwrap_or s "")) same g.allowed,
        ),
        λ (lasts, allowed). record {
          unexpired = lasting.1 lasts;
          allowed = subst (λ s. Allowed method_scope (unwrap_or s "")) (sym same) allowed;
          audience = issued-aud scope subject now expires_at;
        },
      )

  -- From a secret of 32 bytes, and an expiry in range, the command makes a token; with the public key of
  -- the pair, the gateway takes that token at a second for a method exactly when the token has no
  -- expiry or that second is not past it, and the scope it was issued for allows the method.
  pub issue-verify_paseto_iff :
      (secret scope : String) (no_expiry : Bool) (ttl : ℕ) (subject : String) (now : ℕ)
      (bytes : List ℕ) (expires_at : Option ℕ) (key : crypto.VerifyingKey)
      → crypto.decode secret ≡ ok bytes
      → length bytes ≡ 32
      → Expires no_expiry ttl now expires_at
      → Pair crypto (sign_with bytes) key (issued_claims scope subject now expires_at)
      → (token : String) × (issue crypto sign_with secret scope no_expiry ttl subject now
          ≡ ok token)
        × ((at : ℕ) (method_scope : Scope)
            → (verify_paseto crypto at token key method_scope
                ≡ ok (issued_claims scope subject now expires_at))
              ↔ (Lasts at expires_at × Allowed method_scope scope))
  issue-verify_paseto_iff secret scope no_expiry ttl subject now bytes expires_at key read size
        expires pair =
      let claims = issued_claims scope subject now expires_at in
      let token = sign_paseto crypto (sign_with bytes) claims in
      (
        token,
        issue-sign_paseto secret scope no_expiry ttl subject now bytes expires_at read size expires,
        λ at method_scope.
            let granted = Grants-issued at method_scope scope subject now expires_at in
            (
              λ taken.
                  granted.0 ((verify_paseto_iff crypto at token key method_scope claims).0 taken).1,
              λ fits.
                  verify_paseto-sign_paseto crypto (sign_with bytes) key at method_scope claims pair
                    (granted.1 fits),
            ),
      )
