-- ===== src/Openrpc/Schemas/Versions.antt =====
-- Component schemas of src/lib.rs, from `VersionResult` to `AccountInfoResult`.
use nano_rpc_gateway.Prelude.{String, List, [], ◌∷◌}
use nano_rpc_gateway.Json.{Value, string}
use nano_rpc_gateway.Json.Macro.{obj, arr}

abbrev pub version_results : List (String × Value)
version_results =
    (
      "VersionResult",
      obj (
          ("type", string "object")
          ∷ ("required", arr (string "rpc_version" ∷ []))
          ∷ (
            "properties",
            obj (
                ("rpc_version", obj (("type", string "string") ∷ []))
                ∷ ("store_version", obj (("type", string "string") ∷ []))
                ∷ ("protocol_version", obj (("type", string "string") ∷ []))
                ∷ ("node_vendor", obj (("type", string "string") ∷ []))
                ∷ ("store_vendor", obj (("type", string "string") ∷ []))
                ∷ ("network", obj (("type", string "string") ∷ []))
                ∷ (
                  "network_identifier",
                  obj (
                      ("type", string "string")
                      ∷ ("description", string "Hash of the genesis open block.")
                      ∷ []),
                )
                ∷ ("build_info", obj (("type", string "string") ∷ []))
                ∷ []),
          )
          ∷ []),
    )
    ∷ (
      "BlockCountResult",
      obj (
          ("type", string "object")
          ∷ ("required", arr (string "count" ∷ string "unchecked" ∷ string "cemented" ∷ []))
          ∷ (
            "properties",
            obj (
                ("count", obj (("type", string "string") ∷ []))
                ∷ ("unchecked", obj (("type", string "string") ∷ []))
                ∷ ("cemented", obj (("type", string "string") ∷ []))
                ∷ []),
          )
          ∷ []),
    )
    ∷ (
      "AccountInfoResult",
      obj (
          ("type", string "object")
          ∷ (
            "required",
            arr (
                string "frontier"
                ∷ string "open_block"
                ∷ string "representative_block"
                ∷ string "balance"
                ∷ string "modified_timestamp"
                ∷ string "block_count"
                ∷ string "account_version"
                ∷ []),
          )
          ∷ (
            "description",
            string "Fields beyond this set appear only when the matching request parameter is set.",
          )
          ∷ (
            "properties",
            obj (
                (
                  "frontier",
                  obj (
                      ("type", string "string")
                      ∷ (
                        "description",
                        string "Current frontier hash. It can be ahead of cemented state.",
                      )
                      ∷ []),
                )
                ∷ ("open_block", obj (("type", string "string") ∷ []))
                ∷ ("representative_block", obj (("type", string "string") ∷ []))
                ∷ (
                  "balance",
                  obj (
                      ("type", string "string")
                      ∷ (
                        "description",
                        string "Balance at frontier, in raw. It can include unconfirmed state.",
                      )
                      ∷ []),
                )
                ∷ ("modified_timestamp", obj (("type", string "string") ∷ []))
                ∷ ("block_count", obj (("type", string "string") ∷ []))
                ∷ ("account_version", obj (("type", string "string") ∷ []))
                ∷ (
                  "confirmation_height",
                  obj (
                      ("type", string "string")
                      ∷ ("description", string "Cemented blocks on the account chain.")
                      ∷ []),
                )
                ∷ (
                  "confirmation_height_frontier",
                  obj (
                      ("type", string "string")
                      ∷ ("description", string "The block hash at confirmation_height.")
                      ∷ []),
                )
                ∷ (
                  "representative",
                  obj (
                      ("type", string "string")
                      ∷ ("description", string "Present when `representative` was requested.")
                      ∷ []),
                )
                ∷ (
                  "weight",
                  obj (
                      ("type", string "string")
                      ∷ ("description", string "Present when `weight` was requested.")
                      ∷ []),
                )
                ∷ (
                  "receivable",
                  obj (
                      ("type", string "string")
                      ∷ ("description", string "Present when `receivable` was requested.")
                      ∷ []),
                )
                ∷ (
                  "confirmed_frontier",
                  obj (
                      ("type", string "string")
                      ∷ (
                        "description",
                        string
                            "Present when `include_confirmed` was requested. Confirm a frontier with blocks_info before treating it as final.",
                      )
                      ∷ []),
                )
                ∷ (
                  "confirmed_balance",
                  obj (
                      ("type", string "string")
                      ∷ ("description", string "Present when `include_confirmed` was requested.")
                      ∷ []),
                )
                ∷ (
                  "confirmed_height",
                  obj (
                      ("type", string "string")
                      ∷ (
                        "description",
                        string
                            "Present when `include_confirmed` was requested. Same value as confirmation_height.",
                      )
                      ∷ []),
                )
                ∷ (
                  "confirmed_representative",
                  obj (
                      ("type", string "string")
                      ∷ (
                        "description",
                        string
                            "Present when both `representative` and `include_confirmed` were requested.",
                      )
                      ∷ []),
                )
                ∷ (
                  "confirmed_receivable",
                  obj (
                      ("type", string "string")
                      ∷ (
                        "description",
                        string
                            "Present when both `receivable` and `include_confirmed` were requested.",
                      )
                      ∷ []),
                )
                ∷ []),
          )
          ∷ []),
    )
    ∷ []
