-- ===== src/Openrpc/Schemas/Histories.antt =====
-- Component schemas of src/lib.rs, from `HistoryEntry` to `AccountsReceivableResult`.
use nano_rpc_gateway.Prelude.{String, List, [], ◌∷◌}
use nano_rpc_gateway.Json.{Value, string}
use nano_rpc_gateway.Json.Macro.{obj, arr}

abbrev pub history_results : List (String × Value)
history_results =
    (
      "HistoryEntry",
      obj (
          ("type", string "object")
          ∷ (
            "required",
            arr (string "type" ∷ string "account" ∷ string "amount" ∷ string "hash" ∷ []),
          )
          ∷ (
            "description",
            string
                "Without `raw`, `type` is `send` or `receive` and change and epoch blocks are skipped. With `raw`, it is the block type and every block field is present. For an open block in raw mode, `account` is the source block's account.",
          )
          ∷ (
            "properties",
            obj (
                ("type", obj (("type", string "string") ∷ []))
                ∷ ("account", obj (("type", string "string") ∷ []))
                ∷ ("amount", obj (("type", string "string") ∷ []))
                ∷ ("local_timestamp", obj (("type", string "string") ∷ []))
                ∷ ("height", obj (("type", string "string") ∷ []))
                ∷ ("hash", obj (("type", string "string") ∷ []))
                ∷ (
                  "confirmed",
                  obj (
                      ("type", string "string")
                      ∷ ("description", string "\"true\" when the node reports the entry cemented.")
                      ∷ []),
                )
                ∷ (
                  "subtype",
                  obj (
                      ("type", string "string")
                      ∷ (
                        "description",
                        string "State blocks only. The source of truth for the block's kind.",
                      )
                      ∷ []),
                )
                ∷ (
                  "linked_account",
                  obj (
                      ("type", string "string")
                      ∷ ("description", string "Present when include_linked_account was requested.")
                      ∷ []),
                )
                ∷ (
                  "previous",
                  obj (
                      ("type", string "string")
                      ∷ ("description", string "Hash of the preceding block on the account chain.")
                      ∷ []),
                )
                ∷ ("representative", obj (("type", string "string") ∷ []))
                ∷ ("balance", obj (("type", string "string") ∷ []))
                ∷ ("link", obj (("type", string "string") ∷ []))
                ∷ ("link_as_account", obj (("type", string "string") ∷ []))
                ∷ ("signature", obj (("type", string "string") ∷ []))
                ∷ ("work", obj (("type", string "string") ∷ []))
                ∷ []),
          )
          ∷ []),
    )
    ∷ (
      "AccountHistoryResult",
      obj (
          ("type", string "object")
          ∷ ("required", arr (string "account" ∷ string "history" ∷ []))
          ∷ (
            "properties",
            obj (
                ("account", obj (("type", string "string") ∷ []))
                ∷ (
                  "history",
                  obj (
                      ("type", string "array")
                      ∷ ("items", obj (("$ref", string "#/components/schemas/HistoryEntry") ∷ []))
                      ∷ []),
                )
                ∷ (
                  "previous",
                  obj (
                      ("type", string "string")
                      ∷ (
                        "description",
                        string
                            "Present only when `count` truncated the result: the hash to pass as the next `head`.",
                      )
                      ∷ []),
                )
                ∷ (
                  "next",
                  obj (
                      ("type", string "string")
                      ∷ (
                        "description",
                        string "Present in place of `previous` when `reverse` was requested.",
                      )
                      ∷ []),
                )
                ∷ []),
          )
          ∷ []),
    )
    ∷ (
      "ReceivableSource",
      obj (
          ("type", string "object")
          ∷ ("required", arr (string "amount" ∷ string "source" ∷ []))
          ∷ (
            "properties",
            obj (
                ("amount", obj (("type", string "string") ∷ []))
                ∷ ("source", obj (("type", string "string") ∷ []))
                ∷ []),
          )
          ∷ []),
    )
    ∷ (
      "ReceivableBlocks",
      obj (
          (
            "description",
            string
                "The node selects one of three shapes from the request parameters: an array of hashes by default, hash to amount with `threshold`, and hash to amount and source account with `source`.",
          )
          ∷ (
            "oneOf",
            arr (
                obj
                  (("type", string "array") ∷ ("items", obj (("type", string "string") ∷ [])) ∷ [])
                ∷ obj (
                    ("type", string "object")
                    ∷ ("additionalProperties", obj (("type", string "string") ∷ []))
                    ∷ [])
                ∷ obj (
                    ("type", string "object")
                    ∷ (
                      "additionalProperties",
                      obj (("$ref", string "#/components/schemas/ReceivableSource") ∷ []),
                    )
                    ∷ [])
                ∷ []),
          )
          ∷ []),
    )
    ∷ (
      "ReceivableResult",
      obj (
          ("type", string "object")
          ∷ ("required", arr (string "blocks" ∷ []))
          ∷ (
            "properties",
            obj (
                ("blocks", obj (("$ref", string "#/components/schemas/ReceivableBlocks") ∷ []))
                ∷ []),
          )
          ∷ []),
    )
    ∷ (
      "AccountsReceivableResult",
      obj (
          ("type", string "object")
          ∷ ("required", arr (string "blocks" ∷ []))
          ∷ (
            "properties",
            obj (
                (
                  "blocks",
                  obj (
                      ("type", string "object")
                      ∷ ("description", string "Account to that account's receivable blocks.")
                      ∷ (
                        "additionalProperties",
                        obj (("$ref", string "#/components/schemas/ReceivableBlocks") ∷ []),
                      )
                      ∷ []),
                )
                ∷ []),
          )
          ∷ []),
    )
    ∷ []
