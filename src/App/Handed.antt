-- ===== src/App/Handed.antt =====
-- Which errors hand a message on as the node's, and that the checks of a generation hand on none.
use mathlib.Core.Option.{some-injective}
use nano_rpc_gateway.Prelude.{
  ℕ, String, not, List, [], ◌∷◌, Option, none, some, ◌≡◌, refl, inl, inr, ap, ◌∙◌,
}
use nano_rpc_gateway.Prelude.Text.{codes}
use nano_rpc_gateway.Prelude.Result.{
  Result, err, Errs, Errs-ok, Errs-ok_or, Errs->>, Errs->>=, Errs-fail_if,
}
use nano_rpc_gateway.Json.{Value, member, member_str, and_then, Number}
use nano_rpc_gateway.Error.{GatewayError, node_rejected, node_rate_limited, invalid_request}
use nano_rpc_gateway.Upstream.Client.Laws.{NodeSaid}
use nano_rpc_gateway.Guards.{is_block_hash}
use nano_rpc_gateway.App.{World}
use nano_rpc_gateway.App.Work.{
  prepare, decode_work_hash, decode_pairs, threshold_from, as_number, from_str_radix_16,
}

-- The message that an error hands on as the node's.
abbrev pub node_message : GatewayError → Option String
node_message (node_rejected m) = some m
node_message (node_rate_limited m) = some m
node_message _ = none

-- A message that the error hands on as the node's has the property.
abbrev pub Hands : (String → Type 0) → GatewayError → Type 0
Hands P e = (m : String) → node_message e ≡ some m → P m

pub Hands-NodeSaid :
    (P : String → Type 0) (r : Result GatewayError Value) (m : String)
    → Errs (Hands P) r
    → NodeSaid r m
    → P m
Hands-NodeSaid P r m h (inl said) = h.each (node_rejected m) said m refl
Hands-NodeSaid P r m h (inr said) = h.each (node_rate_limited m) said m refl

module _ (P : String → Type 0) where
  Hands-from :
      (r : Result GatewayError Value) (e : GatewayError)
      → ((m : String) → NodeSaid r m → P m)
      → r ≡ err e
      → Hands P e
  Hands-from r (node_rejected m) h same n given =
      h n (inl (same ∙ ap (λ k. err (node_rejected k)) (some-injective _ _ given)))
  Hands-from r (node_rate_limited m) h same n given =
      h n (inr (same ∙ ap (λ k. err (node_rate_limited k)) (some-injective _ _ given)))
  Hands-from r _ h same n given = absurd cc

  pub NodeSaid-Hands :
      (r : Result GatewayError Value) → ((m : String) → NodeSaid r m → P m) → Errs (Hands P) r
  NodeSaid-Hands r h = record { each = λ e same. Hands-from r e h same }

  -- A check of a parameter hands nothing on.
  Hands-invalid : (message : String) → Hands P (invalid_request message)
  Hands-invalid message m given = absurd cc

  decode_pairs-Errs : (cs : List ℕ) → Errs (Hands P) (decode_pairs cs)
  unfolding decode_pairs
  decode_pairs-Errs [] = Errs-ok (Hands P) []
  decode_pairs-Errs (c ∷ []) = Errs-ok (Hands P) []
  decode_pairs-Errs (c ∷ d ∷ rest) =
      let later = decode_pairs-Errs rest in
      Errs->>= (Hands P) _ _ (Errs-ok_or (Hands P) _ _ (Hands-invalid "invalid parameter: hash"))
        (λ byte. Errs->>= (Hands P) _ _ later (λ bytes. Errs-ok (Hands P) _))

  threshold_from-Errs :
      (w : World) (difficulty : Option String) (multiplier : Option Number)
      → Errs (Hands P) (threshold_from w difficulty multiplier)
  unfolding from_str_radix_16
  threshold_from-Errs w (some difficulty) multiplier =
      Errs-ok_or (Hands P) _ _ (Hands-invalid "invalid parameter: difficulty")
  threshold_from-Errs w none (some multiplier) = Errs-ok (Hands P) _
  threshold_from-Errs w none none = Errs-ok (Hands P) _

  pub prepare-Errs : (w : World) (params : Value) → Errs (Hands P) (prepare w params)
  unfolding prepare decode_work_hash
  prepare-Errs w params =
      Errs->>= (Hands P) _ _
        (Errs-ok_or (Hands P) (member_str params "hash")
          (invalid_request "missing required parameter: hash")
          (Hands-invalid "missing required parameter: hash"))
        (λ hash.
          Errs->>= (Hands P) _ _
            (Errs->> (Hands P) _ _
              (Errs-fail_if (Hands P) (not (is_block_hash hash))
                (invalid_request "invalid parameter: hash must be 64 hexadecimal characters")
                (Hands-invalid "invalid parameter: hash must be 64 hexadecimal characters"))
              (decode_pairs-Errs (codes hash)))
            (λ bytes.
              Errs->>= (Hands P) _ _
                (threshold_from-Errs w (member_str params "difficulty")
                  (and_then (member params "multiplier") as_number))
                (λ t. Errs-ok (Hands P) (hash, bytes, t))))

pub Hands-map :
    (P Q : String → Type 0) (r : Result GatewayError Value)
    → ((m : String) → P m → Q m)
    → Errs (Hands P) r
    → Errs (Hands Q) r
Hands-map P Q r f h = record { each = λ e same m given. f m (h.each e same m given) }
