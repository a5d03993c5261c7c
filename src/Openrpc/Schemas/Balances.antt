-- ===== src/Openrpc/Schemas/Balances.antt =====
-- Component schemas of src/lib.rs, from `AccountBalanceResult` to `BlocksInfoResult`.
use nano_rpc_gateway.Prelude.{String, List, [], ◌∷◌}
use nano_rpc_gateway.Json.{Value, string}
use nano_rpc_gateway.Json.Macro.{obj, arr}

abbrev pub balance_results : List (String × Value)
balance_results =
    (
      "AccountBalanceResult",
      obj (
          ("type", string "object")
          ∷ ("required", arr (string "balance" ∷ string "receivable" ∷ []))
          ∷ (
            "properties",
            obj (
                (
                  "balance",
                  obj (
                      ("type", string "string")
                      ∷ (
                        "description",
                        string
                            "Balance in raw. Confirmed only when include_only_confirmed is true.",
                      )
                      ∷ []),
                )
                ∷ (
                  "receivable",
                  obj (
                      ("type", string "string")
                      ∷ ("description", string "Incoming amount not yet received, in raw.")
                      ∷ []),
                )
                ∷ []),
          )
          ∷ []),
    )
    ∷ (
      "AccountsBalancesResult",
      obj (
          ("type", string "object")
          ∷ (
            "description",
            string
                "Both maps are optional; the node omits one when no entry applies to it. An account absent from the ledger reports a zero balance and zero receivable rather than an error.",
          )
          ∷ (
            "properties",
            obj (
                (
                  "balances",
                  obj (
                      ("type", string "object")
                      ∷ (
                        "description",
                        string "One entry per requested account. This is not an aggregate.",
                      )
                      ∷ (
                        "additionalProperties",
                        obj (("$ref", string "#/components/schemas/AccountBalanceResult") ∷ []),
                      )
                      ∷ []),
                )
                ∷ (
                  "errors",
                  obj (
                      ("type", string "object")
                      ∷ ("description", string "Per-account error message.")
                      ∷ ("additionalProperties", obj (("type", string "string") ∷ []))
                      ∷ []),
                )
                ∷ []),
          )
          ∷ []),
    )
    ∷ (
      "AccountsFrontiersResult",
      obj (
          ("type", string "object")
          ∷ (
            "description",
            string
                "Both maps are optional. The node omits `frontiers` when every requested account failed and omits `errors` when none did. A head block can be unconfirmed, so confirm it with blocks_info and read `confirmed` before treating it as final.",
          )
          ∷ (
            "properties",
            obj (
                (
                  "frontiers",
                  obj (
                      ("type", string "object")
                      ∷ ("description", string "Account to head block hash.")
                      ∷ ("additionalProperties", obj (("type", string "string") ∷ []))
                      ∷ []),
                )
                ∷ (
                  "errors",
                  obj (
                      ("type", string "object")
                      ∷ ("description", string "Account to the node's message for that account.")
                      ∷ ("additionalProperties", obj (("type", string "string") ∷ []))
                      ∷ []),
                )
                ∷ []),
          )
          ∷ []),
    )
    ∷ (
      "BlockInfoResult",
      obj (
          ("type", string "object")
          ∷ (
            "required",
            arr (
                string "block_account"
                ∷ string "amount"
                ∷ string "balance"
                ∷ string "height"
                ∷ string "local_timestamp"
                ∷ string "confirmed"
                ∷ []),
          )
          ∷ (
            "description",
            string
                "`subtype` is present for state blocks only, and is the source of truth for a state block's kind.",
          )
          ∷ (
            "properties",
            obj (
                (
                  "block_account",
                  obj (
                      ("type", string "string")
                      ∷ ("description", string "Account that owns the block.")
                      ∷ []),
                )
                ∷ (
                  "amount",
                  obj (
                      ("type", string "string")
                      ∷ ("description", string "Block amount in raw.")
                      ∷ []),
                )
                ∷ (
                  "balance",
                  obj (
                      ("type", string "string")
                      ∷ ("description", string "Account balance after this block, in raw.")
                      ∷ []),
                )
                ∷ ("height", obj (("type", string "string") ∷ []))
                ∷ ("local_timestamp", obj (("type", string "string") ∷ []))
                ∷ (
                  "confirmed",
                  obj (
                      ("type", string "string")
                      ∷ (
                        "description",
                        string "\"true\" only when the node reports the block cemented.",
                      )
                      ∷ []),
                )
                ∷ (
                  "successor",
                  obj (
                      ("type", string "string")
                      ∷ ("description", string "The block that superseded this one.")
                      ∷ []),
                )
                ∷ (
                  "subtype",
                  obj (
                      ("type", string "string")
                      ∷ (
                        "enum",
                        arr (
                            string "send"
                            ∷ string "receive"
                            ∷ string "change"
                            ∷ string "epoch"
                            ∷ []),
                      )
                      ∷ []),
                )
                ∷ (
                  "contents",
                  obj (
                      (
                        "description",
                        string "Block content. A JSON string unless `json_block` was requested.",
                      )
                      ∷ []),
                )
                ∷ (
                  "linked_account",
                  obj (
                      ("type", string "string")
                      ∷ (
                        "description",
                        string
                            "Present when include_linked_account was requested; \"0\" when there is none.",
                      )
                      ∷ []),
                )
                ∷ ("source_account", obj (("type", string "string") ∷ []))
                ∷ ("receive_hash", obj (("type", string "string") ∷ []))
                ∷ []),
          )
          ∷ []),
    )
    ∷ (
      "BlocksInfoResult",
      obj (
          ("type", string "object")
          ∷ ("required", arr (string "blocks" ∷ []))
          ∷ (
            "properties",
            obj (
                (
                  "blocks",
                  obj (
                      ("type", string "object")
                      ∷ (
                        "additionalProperties",
                        obj (("$ref", string "#/components/schemas/BlockInfoResult") ∷ []),
                      )
                      ∷ []),
                )
                ∷ (
                  "blocks_not_found",
                  obj (
                      ("type", string "array")
                      ∷ ("items", obj (("type", string "string") ∷ []))
                      ∷ ("description", string "Present when include_not_found was requested.")
                      ∷ []),
                )
                ∷ []),
          )
          ∷ []),
    )
    ∷ []
