-- ===== src/App/Refusals.antt =====
-- The answers that the checks of `dispatch` give by themselves.
use text.Mathlib.Text.{◌==◌ as str_eq}
use nano_rpc_gateway.Prelude.{
  String, Bool, true, false, not, ◌&&◌, ◌||◌, Option, none, some, ◌≡◌, refl, inl, inr, arith, ◌==◌,
  eq_iff, Bool-cases,
}
use nano_rpc_gateway.Prelude.Text.{is_blank}
use nano_rpc_gateway.Prelude.Int.{ℤ, pos, negsuc}
use nano_rpc_gateway.Prelude.Result.{Result, ok, err, ◌>>=◌, ◌>>◌, ok_or, fail_if, map_err}
use nano_rpc_gateway.Json.{Value, is_some_and}
use nano_rpc_gateway.Rpc.{
  RpcRequest, response_ok, response_err, unauthorized, invalid_params_code, invalid_request_code,
}
use nano_rpc_gateway.Registry.{Scope, MethodSpec, registry, find_method, is_work, is_control}
use nano_rpc_gateway.Validate.Params.{validate_params}
use nano_rpc_gateway.App.{Config, World}
use nano_rpc_gateway.App.Dispatch.{Answer, is_id, discover_answer, needs_auth, admit_method, admit}

-- Every error that the result can be has the property.
abbrev pub EveryErr : {E A : Type 0} → (E → Type 0) → Result E A → Type 0
EveryErr P (ok _) = Unit
EveryErr P (err e) = P e

module _ {E : Type 0} (P : E → Type 0) where
  every-fail_if : (b : Bool) (e : E) → (b ≡ true → P e) → EveryErr P (fail_if b e)
  every-fail_if true e h = h refl
  every-fail_if false e h = tt

  every->> :
      {A : Type 0} (m : Result E (Unit {0})) (k : Result E A)
      → EveryErr P m
      → EveryErr P k
      → EveryErr P (m >> k)
  every->> (ok _) k h g = g
  every->> (err e) k h g = h

  every->>= :
      {A B : Type 0} (m : Result E A) (f : A → Result E B)
      → EveryErr P m
      → ((a : A) → EveryErr P (f a))
      → EveryErr P (m >>= f)
  every->>= (ok a) f h g = g a
  every->>= (err e) f h g = h

  every-ok_or : {A : Type 0} (o : Option A) (e : E) → P e → EveryErr P (ok_or o e)
  every-ok_or none e h = h
  every-ok_or (some a) e h = tt

  every-map_err :
      {F A : Type 0} (f : F → E) (r : Result F A) → ((x : F) → P (f x)) → EveryErr P (map_err f r)
  every-map_err f (ok a) h = tt
  every-map_err f (err x) h = h x

abbrev pub is_node_code : ℤ → Bool
is_node_code (pos n) = false
is_node_code (negsuc n) = n == 31999

-- What holds of each such answer to a request holds of all of them.
module _ (config : Config) (w : World) (check : Scope → Bool) (request : RpcRequest)
    (P : Answer → Type 0)
    (refused : (code : ℤ) (message : String)
      → is_node_code code ≡ false
      → P (ok (response_err request.id code message)))
    (absent : (message : String)
      → request.id_present ≡ false
      → P (ok (response_err none invalid_request_code message)))
    (denied : P (err unauthorized))
    (discovered : request.method ≡ "rpc.discover"
      → P (ok (response_ok request.id w.document))) where
  every-admit_method :
      (spec : MethodSpec) (params : Value)
      → EveryErr P (admit_method config w check request.id spec params)
  every-admit_method spec params =
      every->> P (fail_if (is_work spec.scope && not config.allow_work) _) _
        (every-fail_if P _ _ (λ _. refused _ _ refl))
        (every->> P (fail_if (is_control spec.scope && not config.allow_control) _) _
          (every-fail_if P _ _ (λ _. refused _ _ refl))
          (every->> P (fail_if (needs_auth config spec.scope && not (check spec.scope)) _) _
            (every-fail_if P _ _ (λ _. denied))
            (every->> P (map_err _ (validate_params spec.name params)) _
              (every-map_err P (λ m. ok (response_err request.id invalid_params_code m))
                (validate_params spec.name params) (λ m. refused invalid_params_code m refl))
              tt)))

  every-discover :
      str_eq request.method "rpc.discover" ≡ true → P (discover_answer config w request.id)
  every-discover named = elim (Bool-cases config.enable_discovery) [
    | inl on ↦ rw on (discovered ((eq_iff request.method "rpc.discover").0 named))
    | inr off ↦ rw off (refused _ _ refl)
  ]

  pub every-admit : EveryErr P (admit config w check request)
  unfolding admit
  every-admit =
      every->> P (fail_if (not (str_eq request.jsonrpc "2.0") || is_blank request.method) _) _
        (every-fail_if P _ _ (λ _. refused _ _ refl))
        (every->> P
          (fail_if (request.id_present && is_some_and request.id (λ id. not (is_id id))) _) _
          (every-fail_if P _ _ (λ _. refused _ _ refl))
          (every->> P (fail_if (not request.id_present) _) _
            (every-fail_if P _ _ (λ missing. absent _ (ground arith)))
            (every->> P (fail_if (str_eq request.method "rpc.discover") _) _
              (every-fail_if P _ _ every-discover)
              (every->>= P (ok_or (find_method request.method registry) _) _
                (every-ok_or P _ _ (refused _ _ refl)) (λ spec. every-admit_method spec _)))))
