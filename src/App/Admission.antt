-- ===== src/App/Admission.antt =====
-- Which requests get past the checks of `dispatch`.
use text.Mathlib.Text.{◌==◌ as str_eq}
use nano_rpc_gateway.Prelude.{
  String, Bool, true, false, not, ◌&&◌, ◌||◌, Option, none, some, ◌≡◌, refl, ◌↔◌, inl, inr, arith,
  eq_iff, ap, sym, subst, ◌∙◌, Bool-cases,
}
use nano_rpc_gateway.Prelude.Text.{is_blank}
use nano_rpc_gateway.Prelude.Result.{
  ok, ok_or, fail_if, map_err, ok-injective, >>=_ok_iff, >>_ok_iff, fail_if_iff, ok_or_iff,
  map_err_iff,
}
use nano_rpc_gateway.Json.{
  Value, null, string, number, object, end, is_some_and, unwrap_or, bool, array,
}
use nano_rpc_gateway.Rpc.{RpcRequest}
use nano_rpc_gateway.Registry.{
  Scope, MethodSpec, base, common, work, control, registry, find_method, is_work, is_control,
}
use nano_rpc_gateway.Validate.Params.{validate_params}
use nano_rpc_gateway.Auth.Claims.{not_iff}
use nano_rpc_gateway.App.{Config, World}
use nano_rpc_gateway.App.Dispatch.{is_id, needs_auth, admit_method, admit}

-- No id, which is a present `null`, or one that is a text, a number or `null`.
abbrev pub IsId : Option Value → Type 0
IsId none = Unit
IsId (some null) = Unit
IsId (some (string _)) = Unit
IsId (some (number _)) = Unit
IsId (some _) = ⊥

-- The scopes whose methods are called by authorized callers only.
abbrev pub NeedsAuth : Config → Scope → Type 0
NeedsAuth config base = ⊥
NeedsAuth config common = config.require_common_auth ≡ true
NeedsAuth config work = Unit
NeedsAuth config control = Unit

-- The scopes that the configuration switches on.
abbrev pub Enabled : Config → Scope → Type 0
Enabled config base = Unit
Enabled config common = Unit
Enabled config work = config.allow_work ≡ true
Enabled config control = config.allow_control ≡ true

pub record Admitted (config : Config) (check : Scope → Bool) (request : RpcRequest)
    (spec : MethodSpec) (params : Value) : Type 0 where
  pub version : request.jsonrpc ≡ "2.0"
  pub present : request.id_present ≡ true
  pub id : IsId request.id
  pub listed : find_method request.method registry ≡ some spec
  pub enabled : Enabled config spec.scope
  pub authorized : NeedsAuth config spec.scope → check spec.scope ≡ true
  pub valid : validate_params spec.name params ≡ ok tt
  pub given : params ≡ unwrap_or request.params (object end)

is_id_iff : (id : Option Value) → (is_some_and id (λ v. not (is_id v)) ≡ false) ↔ IsId id
is_id_iff none = ground arith
is_id_iff (some null) = ground arith
is_id_iff (some (string _)) = ground arith
is_id_iff (some (number _)) = ground arith
is_id_iff (some (bool _)) = ground arith
is_id_iff (some (array _)) = ground arith
is_id_iff (some (object _)) = ground arith

Enabled-iff :
    (config : Config) (scope : Scope)
    → (((is_work scope && not config.allow_work) ≡ false)
        × ((is_control scope && not config.allow_control) ≡ false))
      ↔ Enabled config scope
Enabled-iff config base = (λ _. tt, λ _. (refl, refl))
Enabled-iff config common = (λ _. tt, λ _. (refl, refl))
Enabled-iff config work = ground arith
Enabled-iff config control = ground arith

auth_iff :
    (config : Config) (scope : Scope) (checked : Bool)
    → ((needs_auth config scope && not checked) ≡ false) ↔ (NeedsAuth config scope → checked ≡ true)
auth_iff config base checked = ground arith
auth_iff config common checked = ground arith
auth_iff config work checked = ground arith
auth_iff config control checked = ground arith

is_blank_of : (s : String) → str_eq s "" ≡ false → is_blank s ≡ false
is_blank_of String.[] h = cc
is_blank_of (String.◌∷◌ c s) h = refl

-- The method `rpc.discover` and the empty name are not in the registry.
listed-ne :
    (method name : String) (spec : MethodSpec)
    → find_method name registry ≡ none
    → find_method method registry ≡ some spec
    → str_eq method name ≡ false
listed-ne method name spec missing found = elim (Bool-cases (str_eq method name)) [
  | inl same ↦
      let e = (eq_iff method name).0 same in
      let gone : find_method method registry ≡ none = rw e missing in cc
  | inr other ↦ other
]

-- What is asked of a method and its parameters.
abbrev Passes : Config → (Scope → Bool) → MethodSpec × Value → Type 0
Passes config check (spec, params) =
    Enabled config spec.scope
    × (NeedsAuth config spec.scope → check spec.scope ≡ true)
    × (validate_params spec.name params ≡ ok tt)

module _ (config : Config) (w : World) (check : Scope → Bool) where
  admit_method_iff :
      (id : Option Value) (spec : MethodSpec) (params : Value) (z : MethodSpec × Value)
      → (admit_method config w check id spec params ≡ ok z) ↔ (
          Enabled config spec.scope
          × (NeedsAuth config spec.scope → check spec.scope ≡ true)
          × (validate_params spec.name params ≡ ok tt)
          × ((spec, params) ≡ z))
  admit_method_iff id spec params z = (
    λ h.
        let (a, h2) =
          (>>_ok_iff (fail_if (is_work spec.scope && not config.allow_work) _) _ z).0 h in
        let (b, h3) =
          (>>_ok_iff (fail_if (is_control spec.scope && not config.allow_control) _) _ z).0 h2 in
        let (c, h4) =
          (>>_ok_iff (fail_if (needs_auth config spec.scope && not (check spec.scope)) _) _ z).0
            h3 in
        let (d, h5) = (>>_ok_iff (map_err _ (validate_params spec.name params)) _ z).0 h4 in
        (
          (Enabled-iff config spec.scope).0 ((fail_if_iff _ _).0 a, (fail_if_iff _ _).0 b),
          (auth_iff config spec.scope (check spec.scope)).0 ((fail_if_iff _ _).0 c),
          (map_err_iff _ _ tt).0 d,
          ok-injective h5,
        ),
    λ (e, f, g, k).
        let (a, b) = (Enabled-iff config spec.scope).1 e in
        let c = (auth_iff config spec.scope (check spec.scope)).1 f in rw (a, b, c, g) (ap ok k),
  )

  admit-Admitted :
      (request : RpcRequest) (spec : MethodSpec) (params : Value)
      → admit config w check request ≡ ok (spec, params)
      → Admitted config check request spec params
  unfolding admit
  admit-Admitted request spec params h =
      let z : MethodSpec × Value = (spec, params) in
      let (a, h2) =
        (>>_ok_iff (fail_if (not (str_eq request.jsonrpc "2.0") || is_blank request.method) _) _
            z).0
          h in
      let (b, h3) =
        (>>_ok_iff (fail_if (request.id_present && is_some_and request.id (λ id. not (is_id id))) _)
            _ z).0
          h2 in
      let (c, h4) = (>>_ok_iff (fail_if (not request.id_present) _) _ z).0 h3 in
      let (d, h5) = (>>_ok_iff (fail_if (str_eq request.method "rpc.discover") _) _ z).0 h4 in
      let (found, listed, h6) =
        (>>=_ok_iff (ok_or (find_method request.method registry) _)
            (λ s. admit_method config w check request.id s (unwrap_or request.params (object end)))
            z).0
          h5 in
      let (enabled, authorized, valid, same) =
        (admit_method_iff request.id found (unwrap_or request.params (object end)) z).0 h6 in
      let (enabled', authorized', valid') =
        subst (Passes config check) same (enabled, authorized, valid) in
      let spec_same : found ≡ spec = ap (λ (x : MethodSpec × Value). x.0) same in
      let a' = (fail_if_iff _ _).0 a in
      let b' = (fail_if_iff _ _).0 b in
      let present = (not_iff request.id_present).0 ((fail_if_iff _ _).0 c) in
      record {
        version = ground (arith, eq_iff request.jsonrpc "2.0", a');
        present = present;
        id = (is_id_iff request.id).0 (rw present at b');
        listed = (ok_or_iff _ _ found).0 listed ∙ ap some spec_same;
        enabled = enabled';
        authorized = authorized';
        valid = valid';
        given = ap (λ (x : MethodSpec × Value). x.1) (sym same);
      }

  Admitted-admit :
      (request : RpcRequest) (spec : MethodSpec) (params : Value)
      → Admitted config check request spec params
      → admit config w check request ≡ ok (spec, params)
  unfolding admit find_method registry
  Admitted-admit request spec params r =
      let version = (eq_iff request.jsonrpc "2.0").1 r.version in
      let undiscovered = listed-ne request.method "rpc.discover" spec refl r.listed in
      let unnamed = listed-ne request.method "" spec refl r.listed in
      let named : is_blank request.method ≡ false = is_blank_of request.method unnamed in
      let id = (is_id_iff request.id).1 r.id in
      let present = r.present in
      let listed = r.listed in
      let rest =
        (admit_method_iff request.id spec params (spec, params)).1
          (r.enabled, r.authorized, r.valid, refl) in
      rw (version, named, present, id, undiscovered, listed, sym r.given) rest

  -- A request gets past the checks, as a call of a method with parameters, exactly when it is of
  -- JSON-RPC 2.0, has an id that is a text, a number or `null`, names a method of the registry
  -- whose scope is switched on, comes from an authorized caller where the scope needs one, and its
  -- parameters, or none, are valid for the method.
  pub admit_iff :
      (request : RpcRequest) (spec : MethodSpec) (params : Value)
      → (admit config w check request ≡ ok (spec, params))
        ↔ Admitted config check request spec params
  admit_iff request spec params =
      (admit-Admitted request spec params, Admitted-admit request spec params)
