-- ===== src/Handlers/Requests.antt =====
-- Which bodies hold a request, and the answers that the others get.
use Prim.Native.String
use Prim.Native.String.{String}
use nano_rpc_gateway.Prelude.Int.{ℤ, negsuc}
use nano_rpc_gateway.Prelude.{
  ℕ, Bool, true, false, List, ◌≡◌, refl, inl, inr, ◌⊎◌, ap, ◌↔◌, arith, All, [], ◌∷◌, ◌++◌,
  Bool-cases, ◌∙◌, none, some,
}
use nano_rpc_gateway.Prelude.Result.{Result, ok, err, Result-cases}
use nano_rpc_gateway.Json.{Value, null, is_object, member}
use nano_rpc_gateway.Bridge.{is_present}
use nano_rpc_gateway.Rpc.{RpcRequest, RpcResponse}
use nano_rpc_gateway.Registry.{Scope}
use nano_rpc_gateway.App.{AppState, Config, World}
use nano_rpc_gateway.App.Dispatch.{dispatch}
use nano_rpc_gateway.Handlers.Metrics.{Metrics, count_request}
use nano_rpc_gateway.Handlers.Call.{
  Readers, is_ascii_whitespace, is_batch, first_byte, batch_refusal, parse_refusal, object_refusal,
  request_refusal, read_value, read_request, answer_request, rpc_handler,
}

-- Whitespace of ASCII, less the vertical tab.
abbrev IsSpace : ℕ → Type 0
IsSpace b = (b ≡ 32) ⊎ ((b ≡ 9) ⊎ ((b ≡ 10) ⊎ ((b ≡ 12) ⊎ (b ≡ 13))))

-- The body is an opening bracket, after whitespace at most.
abbrev pub IsBatch : List ℕ → Type 0
IsBatch body =
    (spaces : List ℕ) × (rest : List ℕ) × (body ≡ spaces ++ b'[' ∷ rest) × All IsSpace spaces

first_byte-IsBatch : (body : List ℕ) → is_batch (first_byte body) ≡ true → IsBatch body
unfolding first_byte
first_byte-IsBatch [] h = absurd cc
first_byte-IsBatch (b ∷ bs) h = elim (Bool-cases (is_ascii_whitespace b)) [
  | inl white ↦
      let (spaces, rest, parts, all_white) = first_byte-IsBatch bs (rw white at h) in
      (b ∷ spaces, rest, ap (λ l. b ∷ l) parts, (ground (arith, white), all_white))
  | inr black ↦
      let opens : b ≡ b'[' = ground (arith, (rw black at h)) in ([], bs, ap (λ c. c ∷ bs) opens, tt)
]

IsBatch-first_byte :
    (spaces rest : List ℕ)
    → All IsSpace spaces
    → is_batch (first_byte (spaces ++ b'[' ∷ rest)) ≡ true
unfolding first_byte
IsBatch-first_byte [] rest h = refl
IsBatch-first_byte (b ∷ spaces) rest (white, later) =
    let space : is_ascii_whitespace b ≡ true = ground (arith, white) in
    rw space (IsBatch-first_byte spaces rest later)

-- A body that is no batch is told apart by its first byte.
first_byte_iff : (body : List ℕ) → (is_batch (first_byte body) ≡ false) ↔ (¬ IsBatch body)
first_byte_iff body = (
  λ h (spaces, rest, parts, white).
      let opens : is_batch (first_byte body) ≡ true =
        ap (λ l. is_batch (first_byte l)) parts ∙ IsBatch-first_byte spaces rest white in
      cc (opens, h),
  λ h. elim (Bool-cases (is_batch (first_byte body))) [
    | inl opens ↦ absurd (h (first_byte-IsBatch body opens))
    | inr single ↦ single
  ],
)

-- A body holds a request if it is no batch, is JSON, and the value is an object with the members of a
-- request; whether the request carries an id is read from that object.
abbrev pub HoldsRequest : Readers → List ℕ → RpcRequest → Type 0
HoldsRequest r body request =
    (¬ IsBatch body)
    × ((value : Value) × (read : RpcRequest) × (r.from_slice body ≡ ok value)
        × (is_object value ≡ true)
        × (r.from_value value ≡ ok read)
        × (request ≡ record read { id_present = is_present (member value "id") }))

-- A response with a null id and without a result, whose error has the code and the message.
abbrev pub Says : RpcResponse → ℤ → String → Type 0
Says response code message = response ≡ record {
  jsonrpc = "2.0";
  result = none;
  error = some (record { code = code; message = message; details = none });
  id = null;
}

-- The error response to a body that holds no request.
abbrev pub RefusedWith : Readers → List ℕ → RpcResponse → Type 0
RefusedWith r body response =
    (IsBatch body × (Says response (negsuc 32599) "Batch requests are not supported"))
    ⊎ ((¬ IsBatch body)
        × (((e : String) × (r.from_slice body ≡ err e)
              × (Says response (negsuc 32699) (String.◌++◌ "Parse error: " e)))
            ⊎ ((value : Value) × (r.from_slice body ≡ ok value)
                × (((is_object value ≡ false) × (Says response (negsuc 32599) "Invalid Request"))
                    ⊎ ((e : String) × (is_object value ≡ true)
                        × (r.from_value value ≡ err e)
                        × (Says response (negsuc 32599) (String.◌++◌ "Invalid Request: " e)))))))

read_value-either :
    (r : Readers) (value : Value)
    → ((read : RpcRequest) × (is_object value ≡ true)
        × (r.from_value value ≡ ok read)
        × (read_value r value ≡ ok (record read { id_present = is_present (member value "id") })))
      ⊎ ((response : RpcResponse) × (read_value r value ≡ err response)
          × (((is_object value ≡ false) × Says response (negsuc 32599) "Invalid Request")
              ⊎ ((e : String) × (is_object value ≡ true)
                  × (r.from_value value ≡ err e)
                  × Says response (negsuc 32599) (String.◌++◌ "Invalid Request: " e))))
unfolding read_value
read_value-either r value = elim (Bool-cases (is_object value)) [
  | inl an ↦ elim (Result-cases (r.from_value value)) [
    | inl (read, given) ↦ inl (read, an, given, rw (an, given) refl)
    | inr (e, given) ↦ inr (request_refusal e, rw (an, given) refl, inr (e, an, given, refl))
  ]
  | inr no_object ↦ inr (object_refusal, rw no_object refl, inl (no_object, refl))
]

read_request-either :
    (r : Readers) (body : List ℕ)
    → ((request : RpcRequest) × (read_request r body ≡ ok request) × HoldsRequest r body request)
      ⊎ ((response : RpcResponse) × (read_request r body ≡ err response)
          × RefusedWith r body response)
unfolding read_request
read_request-either r body = elim (Bool-cases (is_batch (first_byte body))) [
  | inl opens ↦ inr (batch_refusal, rw opens refl, inl (first_byte-IsBatch body opens, refl))
  | inr single ↦
      let alone = (first_byte_iff body).0 single in
      elim (Result-cases (r.from_slice body)) [
        | inr (e, broken) ↦
            inr (parse_refusal e, rw (single, broken) refl, inr (alone, inl (e, broken, refl)))
        | inl (value, parsed) ↦ elim (read_value-either r value) [
          | inl (read, an, given, same) ↦ inl (
            record read { id_present = is_present (member value "id") },
            rw (single, parsed) same,
            (alone, (value, read, parsed, an, given, refl)),
          )
          | inr (response, same, why) ↦
              inr (response, rw (single, parsed) same, inr (alone, inr (value, parsed, why)))
        ]
      ]
]

-- Every call goes one of two ways. Its body is no batch and is a JSON object with the members of a
-- request: the answer and the state are those of the dispatch of that request, which carries an id
-- if the object does. Or the answer is an error response with a null id, and the state stays: for a
-- body whose first byte past whitespace opens a list, that batches are not supported; for another
-- that is not JSON, -32700 with the text of the parser; for a value that is no object, that the
-- request is invalid; and for an object without the members of a request, that with the text of the
-- reader.
pub rpc_handler-RefusedWith :
    (r : Readers) (config : Config) (w : World) (check : Scope → Bool) (elapsed : ℕ) (body : List ℕ)
    (s : AppState) (m : Metrics)
    → ((request : RpcRequest) × HoldsRequest r body request
        × ((rpc_handler r config w check elapsed body s m).0
            ≡ (dispatch config w check request s).0)
        × ((rpc_handler r config w check elapsed body s m).1.0
            ≡ (dispatch config w check request s).1))
      ⊎ ((response : RpcResponse) × RefusedWith r body response
          × ((rpc_handler r config w check elapsed body s m).0 ≡ ok response)
          × ((rpc_handler r config w check elapsed body s m).1.0 ≡ s))
unfolding rpc_handler
rpc_handler-RefusedWith r config w check elapsed body s m =
    let answered =
      λ (q : Result RpcResponse RpcRequest). answer_request config w check q s (count_request m) in
    elim (read_request-either r body) [
      | inl (request, h, held) ↦
          inl (request, held, ap (λ q. (answered q).0) h, ap (λ q. (answered q).1.0) h)
      | inr (response, h, why) ↦
          inr (response, why, ap (λ q. (answered q).0) h, ap (λ q. (answered q).1.0) h)
    ]
