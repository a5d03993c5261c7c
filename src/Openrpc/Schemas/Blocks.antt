-- ===== src/Openrpc/Schemas/Blocks.antt =====
-- Component schemas of src/lib.rs, from `BlockParams` to `ProcessParams`.
use nano_rpc_gateway.Prelude.{String, true, false, List, [], ◌∷◌}
use nano_rpc_gateway.Json.{Value, string, bool}
use nano_rpc_gateway.Json.Macro.{obj, arr, int}

abbrev pub block_params : List (String × Value)
block_params =
    (
      "BlockParams",
      obj (
          ("type", string "object")
          ∷ ("required", arr (string "hash" ∷ []))
          ∷ (
            "properties",
            obj (
                ("hash", obj (("type", string "string") ∷ ("minLength", int 1) ∷ []))
                ∷ (
                  "json_block",
                  obj (
                      ("type", string "boolean")
                      ∷ ("default", bool false)
                      ∷ (
                        "description",
                        string "Return `contents` as a JSON subtree instead of a JSON string.",
                      )
                      ∷ []),
                )
                ∷ (
                  "include_linked_account",
                  obj (
                      ("type", string "boolean")
                      ∷ ("default", bool false)
                      ∷ (
                        "description",
                        string
                            "Add `linked_account`, or \"0\" when there is none or the block is pruned.",
                      )
                      ∷ []),
                )
                ∷ []),
          )
          ∷ []),
    )
    ∷ (
      "BlocksParams",
      obj (
          ("type", string "object")
          ∷ ("required", arr (string "hashes" ∷ []))
          ∷ (
            "properties",
            obj (
                (
                  "hashes",
                  obj (
                      ("type", string "array")
                      ∷ ("minItems", int 1)
                      ∷ ("items", obj (("type", string "string") ∷ ("minLength", int 1) ∷ []))
                      ∷ []),
                )
                ∷ (
                  "json_block",
                  obj (
                      ("type", string "boolean")
                      ∷ ("default", bool false)
                      ∷ (
                        "description",
                        string "Return `contents` as a JSON subtree instead of a JSON string.",
                      )
                      ∷ []),
                )
                ∷ (
                  "include_not_found",
                  obj (
                      ("type", string "boolean")
                      ∷ ("default", bool false)
                      ∷ (
                        "description",
                        string "Report unknown hashes in `blocks_not_found` instead of failing.",
                      )
                      ∷ []),
                )
                ∷ (
                  "receive_hash",
                  obj (
                      ("type", string "boolean")
                      ∷ ("default", bool false)
                      ∷ (
                        "description",
                        string "For send blocks, add the matching receive block hash.",
                      )
                      ∷ []),
                )
                ∷ (
                  "source",
                  obj (
                      ("type", string "boolean")
                      ∷ ("default", bool false)
                      ∷ (
                        "description",
                        string
                            "Add `source_account` for receive and open blocks, and \"0\" for send and change blocks.",
                      )
                      ∷ []),
                )
                ∷ (
                  "include_linked_account",
                  obj (
                      ("type", string "boolean")
                      ∷ ("default", bool false)
                      ∷ (
                        "description",
                        string
                            "Add `linked_account`, or \"0\" when there is none or the block is pruned.",
                      )
                      ∷ []),
                )
                ∷ []),
          )
          ∷ []),
    )
    ∷ (
      "ProcessParams",
      obj (
          ("type", string "object")
          ∷ ("required", arr (string "block" ∷ []))
          ∷ (
            "properties",
            obj (
                (
                  "block",
                  obj (("type", string "object") ∷ ("additionalProperties", bool true) ∷ []),
                )
                ∷ (
                  "subtype",
                  obj (
                      ("type", string "string")
                      ∷ (
                        "enum",
                        arr (
                            string "send"
                            ∷ string "receive"
                            ∷ string "open"
                            ∷ string "change"
                            ∷ string "epoch"
                            ∷ []),
                      )
                      ∷ (
                        "description",
                        string
                            "Extra check on the block's intent. Strongly recommended, and required in a future node version.",
                      )
                      ∷ []),
                )
                ∷ (
                  "force",
                  obj (
                      ("type", string "boolean")
                      ∷ ("default", bool false)
                      ∷ (
                        "description",
                        string "Force fork resolution when the block is not accepted as the fork.",
                      )
                      ∷ []),
                )
                ∷ (
                  "async",
                  obj (
                      ("type", string "boolean")
                      ∷ ("default", bool false)
                      ∷ (
                        "description",
                        string
                            "Queue the block and return `started` immediately instead of waiting. The outcome arrives on the `new_unconfirmed_block` topic.",
                      )
                      ∷ []),
                )
                ∷ (
                  "json_block",
                  obj (
                      ("type", string "boolean")
                      ∷ ("default", bool false)
                      ∷ (
                        "description",
                        string "Send `block` as a JSON subtree instead of a JSON string.",
                      )
                      ∷ []),
                )
                ∷ []),
          )
          ∷ []),
    )
    ∷ []
