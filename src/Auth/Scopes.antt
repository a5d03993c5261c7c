-- ===== src/Auth/Scopes.antt =====
-- The order of the scopes, and how a token for one passes for another.
use nano_rpc_gateway.Prelude.{ℕ, ◌≤◌, arith, String, ◌≡◌, inl, inr}
use nano_rpc_gateway.Prelude.Result.{ok}
use nano_rpc_gateway.Json.{Value, member_str, unwrap_or}
use nano_rpc_gateway.Registry.{Scope, base, common, work, control}
use nano_rpc_gateway.Auth.{Crypto, verify_paseto}
use nano_rpc_gateway.Auth.Claims.{Allowed}
use nano_rpc_gateway.Auth.Tokens.{verify_paseto_iff}

-- Base below common below work below control.
abbrev pub level : Scope → ℕ
level base = 0
level common = 1
level work = 2
level control = 3

Allowed-anti :
    (lower higher : Scope) (s : String)
    → level lower ≤ level higher
    → Allowed higher s
    → Allowed lower s
Allowed-anti base higher s h a = tt
Allowed-anti common base s h a = absurd (omega arith)
Allowed-anti common common s h a = a
Allowed-anti common work s h a = inr a
Allowed-anti common control s h a = inr (inr (inl a))
Allowed-anti work base s h a = absurd (omega arith)
Allowed-anti work common s h a = absurd (omega arith)
Allowed-anti work work s h a = a
Allowed-anti work control s h a = inr (inl a)
Allowed-anti control base s h a = absurd (omega arith)
Allowed-anti control common s h a = absurd (omega arith)
Allowed-anti control work s h a = absurd (omega arith)
Allowed-anti control control s h a = a

-- A token that is taken for methods of one scope is taken, with the same claims and at the same
-- time, for those of every lower one: base below common below work below control.
pub verify_paseto-anti :
    (crypto : Crypto) (now : ℕ) (token : String) (key : crypto.VerifyingKey) (lower higher : Scope)
    (claims : Value)
    → level lower ≤ level higher
    → verify_paseto crypto now token key higher ≡ ok claims
    → verify_paseto crypto now token key lower ≡ ok claims
verify_paseto-anti crypto now token key lower higher claims h taken =
    let (s, g) = (verify_paseto_iff crypto now token key higher claims).0 taken in
    (verify_paseto_iff crypto now token key lower claims).1 (
      s,
      record {
        unexpired = g.unexpired;
        allowed = Allowed-anti lower higher (unwrap_or (member_str claims "scope") "") h g.allowed;
        audience = g.audience;
      },
    )
