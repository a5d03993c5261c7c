-- ===== src/Auth/Claims.antt =====
-- What a token's claims grant.
use nano_rpc_gateway.Prelude.{
  ℕ, ◌≤◌, String, Bool, true, false, not, [], ◌∷◌, Option, none, some, ◌≡◌, refl, ◌↔◌, arith,
  eq_iff, ap, ltb,
}
use nano_rpc_gateway.Prelude.Result.{
  Result, ok, ◌>>◌, fail_if, ok-injective, >>_ok_iff, fail_if_iff,
}
use nano_rpc_gateway.Json.{Value, as_u64, member, member_str, unwrap_or, is_some_and, is_none_or}
use nano_rpc_gateway.Error.{GatewayError, auth}
use nano_rpc_gateway.Registry.{Scope, base, common, work, control}
use nano_rpc_gateway.Validate.Params.Shapes.{OneOf, is_one_of_iff}
use nano_rpc_gateway.Auth.{Crypto, is_allowed, is_expired, is_audience, check_claims}

-- The scopes of a token that allow a method of the given scope.
abbrev pub Allowed : Scope → String → Type 0
Allowed base token_scope = Unit
Allowed common token_scope = OneOf ("common" ∷ "work" ∷ "control" ∷ []) token_scope
Allowed work token_scope = OneOf ("work" ∷ "control" ∷ []) token_scope
Allowed control token_scope = token_scope ≡ "control"

pub is_allowed_iff : (scope : Scope) (s : String) → (is_allowed scope s ≡ true) ↔ Allowed scope s
unfolding is_allowed
is_allowed_iff base s = (λ _. tt, λ _. refl)
is_allowed_iff common s = is_one_of_iff ("common" ∷ "work" ∷ "control" ∷ []) s
is_allowed_iff work s = is_one_of_iff ("work" ∷ "control" ∷ []) s
is_allowed_iff control s = ground (arith, eq_iff s "control")

-- An expiry that is there is a timestamp, and not a past one.
abbrev pub Unexpired : ℕ → Option Value → Type 0
Unexpired now none = Unit
Unexpired now (some exp) = (t : ℕ) × (as_u64 exp ≡ some t) × (now ≤ t)

-- Claims that grant a call of a method of the given scope, at the given second.
pub record Grants (now : ℕ) (scope : Scope) (claims : Value) : Type 0 where
  pub unexpired : Unexpired now (member claims "exp")
  pub allowed : Allowed scope (unwrap_or (member_str claims "scope") "")
  pub audience : member_str claims "aud" ≡ some "nano-rpc-gateway"

is_none_or_iff :
    (now : ℕ) (carried : Option ℕ)
    → (is_none_or carried (λ t. ltb t now) ≡ false) ↔ ((t : ℕ) × (carried ≡ some t) × (now ≤ t))
is_none_or_iff now none = (λ h. cc, λ (t, e, h). cc)
is_none_or_iff now (some t) = (λ h. (t, refl, ground arith), λ (u, e, h). ground arith)

is_expired_iff :
    (now : ℕ) (claims : Value)
    → (is_expired now claims ≡ false) ↔ Unexpired now (member claims "exp")
is_expired_iff now claims = go (member claims "exp")
  where
    go :
        (carried : Option Value)
        → (is_some_and carried (λ exp. is_none_or (as_u64 exp) (λ t. ltb t now)) ≡ false)
          ↔ Unexpired now carried
    go none = (λ _. tt, λ _. refl)
    go (some exp) = is_none_or_iff now (as_u64 exp)

is_audience_iff :
    (carried : Option String) → (is_audience carried ≡ true) ↔ (carried ≡ some "nano-rpc-gateway")
is_audience_iff none = (λ h. cc, λ h. cc)
is_audience_iff (some aud) = ground (arith, eq_iff aud "nano-rpc-gateway")

pub not_iff : (b : Bool) → (not b ≡ false) ↔ (b ≡ true)
not_iff true = (λ _. refl, λ _. refl)
not_iff false = (λ h. cc, λ h. cc)

module _ (crypto : Crypto) where
  pub check_claims_iff :
      (now : ℕ) (scope : Scope) (claims z : Value)
      → (check_claims crypto now scope claims ≡ ok z) ↔ (Grants now scope claims × (claims ≡ z))
  unfolding check_claims
  check_claims_iff now scope claims z =
      let seen = unwrap_or (member_str claims "scope") "" in
      let aud = member_str claims "aud" in
      let last : Result GatewayError Value = ok claims in
      let third = fail_if (not (is_audience aud)) (auth "audience denied") >> last in
      let second = fail_if (not (is_allowed scope seen)) (auth "scope denied") >> third in
      let a = >>_ok_iff (fail_if (is_expired now claims) (auth "expired token")) second z in
      let b = >>_ok_iff (fail_if (not (is_allowed scope seen)) (auth "scope denied")) third z in
      let c = >>_ok_iff (fail_if (not (is_audience aud)) (auth "audience denied")) last z in
      (
        λ h.
            let (p, h2) = a.0 h in
            let (q, h3) = b.0 h2 in
            let (r, h4) = c.0 h3 in
            (
              record {
                unexpired = (is_expired_iff now claims).0 ((fail_if_iff _ _).0 p);
                allowed = (is_allowed_iff scope seen).0 ((not_iff _).0 ((fail_if_iff _ _).0 q));
                audience = (is_audience_iff aud).0 ((not_iff _).0 ((fail_if_iff _ _).0 r));
              },
              ok-injective h4,
            ),
        λ (g, e). a.1 (
          (fail_if_iff _ _).1 ((is_expired_iff now claims).1 g.unexpired),
          b.1 (
            (fail_if_iff _ _).1 ((not_iff _).1 ((is_allowed_iff scope seen).1 g.allowed)),
            c.1 ((fail_if_iff _ _).1 ((not_iff _).1 ((is_audience_iff aud).1 g.audience)), ap ok e),
          ),
        ),
      )
