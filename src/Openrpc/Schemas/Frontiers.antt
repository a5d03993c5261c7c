-- ===== src/Openrpc/Schemas/Frontiers.antt =====
-- Component schemas of src/lib.rs, from `AccountsFrontiersParams` to `AccountHistoryParams`.
use nano_rpc_gateway.Prelude.{String, true, false, List, [], ◌∷◌}
use nano_rpc_gateway.Json.{Value, string, bool}
use nano_rpc_gateway.Json.Macro.{obj, arr, int, negative}

abbrev pub frontier_params : List (String × Value)
frontier_params =
    (
      "AccountsFrontiersParams",
      obj (
          ("type", string "object")
          ∷ ("required", arr (string "accounts" ∷ []))
          ∷ (
            "properties",
            obj (
                (
                  "accounts",
                  obj (
                      ("type", string "array")
                      ∷ ("minItems", int 1)
                      ∷ ("items", obj (("type", string "string") ∷ ("minLength", int 1) ∷ []))
                      ∷ []),
                )
                ∷ []),
          )
          ∷ []),
    )
    ∷ (
      "BlockConfirmParams",
      obj (
          ("type", string "object")
          ∷ ("required", arr (string "hash" ∷ []))
          ∷ (
            "properties",
            obj (
                (
                  "hash",
                  obj (
                      ("type", string "string")
                      ∷ ("minLength", int 1)
                      ∷ ("description", string "The block to ask online representatives about.")
                      ∷ []),
                )
                ∷ []),
          )
          ∷ []),
    )
    ∷ (
      "AccountsReceivableParams",
      obj (
          ("type", string "object")
          ∷ ("required", arr (string "accounts" ∷ []))
          ∷ (
            "properties",
            obj (
                (
                  "accounts",
                  obj (
                      ("type", string "array")
                      ∷ ("minItems", int 1)
                      ∷ ("items", obj (("type", string "string") ∷ ("minLength", int 1) ∷ []))
                      ∷ []),
                )
                ∷ (
                  "count",
                  obj (
                      (
                        "oneOf",
                        arr (
                            obj (("type", string "integer") ∷ ("minimum", negative 0) ∷ [])
                            ∷ obj (
                                ("type", string "string")
                                ∷ ("pattern", string "^(-1|[0-9]+)$")
                                ∷ [])
                            ∷ []),
                      )
                      ∷ (
                        "description",
                        string
                            "Maximum number of blocks to return per account. Native decimal strings are forwarded unchanged.",
                      )
                      ∷ []),
                )
                ∷ (
                  "threshold",
                  obj (
                      ("type", string "string")
                      ∷ (
                        "description",
                        string
                            "Only return blocks whose amount is at least this value, in raw. Selects the hash-to-amount result shape.",
                      )
                      ∷ []),
                )
                ∷ (
                  "source",
                  obj (
                      ("type", string "boolean")
                      ∷ ("default", bool false)
                      ∷ (
                        "description",
                        string
                            "Include the sending account with each block. Selects the hash-to-object result shape.",
                      )
                      ∷ []),
                )
                ∷ (
                  "include_active",
                  obj (
                      ("type", string "boolean")
                      ∷ ("default", bool false)
                      ∷ ("description", string "Include blocks without a finished confirmation.")
                      ∷ []),
                )
                ∷ (
                  "sorting",
                  obj (
                      ("type", string "boolean")
                      ∷ ("default", bool false)
                      ∷ ("description", string "Sort each account's blocks by amount, descending.")
                      ∷ []),
                )
                ∷ (
                  "include_only_confirmed",
                  obj (
                      ("type", string "boolean")
                      ∷ ("default", bool true)
                      ∷ (
                        "description",
                        string "Only return blocks whose confirmation height is up to date.",
                      )
                      ∷ []),
                )
                ∷ []),
          )
          ∷ []),
    )
    ∷ (
      "AccountHistoryParams",
      obj (
          ("type", string "object")
          ∷ ("required", arr (string "account" ∷ []))
          ∷ (
            "properties",
            obj (
                ("account", obj (("type", string "string") ∷ ("minLength", int 1) ∷ []))
                ∷ (
                  "head",
                  obj (
                      ("type", string "string")
                      ∷ ("minLength", int 64)
                      ∷ ("maxLength", int 64)
                      ∷ (
                        "description",
                        string
                            "Start from this block instead of the account's latest, and include it as the first entry. Use it to paginate.",
                      )
                      ∷ []),
                )
                ∷ (
                  "count",
                  obj (
                      (
                        "oneOf",
                        arr (
                            obj (("type", string "integer") ∷ ("minimum", negative 0) ∷ [])
                            ∷ obj (
                                ("type", string "string")
                                ∷ ("pattern", string "^(-1|[0-9]+)$")
                                ∷ [])
                            ∷ []),
                      )
                      ∷ (
                        "description",
                        string
                            "Maximum number of entries. -1 returns the whole chain. Native decimal strings are forwarded unchanged.",
                      )
                      ∷ []),
                )
                ∷ (
                  "offset",
                  obj (
                      ("type", string "integer")
                      ∷ (
                        "description",
                        string "Skip this many blocks, starting from head when given.",
                      )
                      ∷ []),
                )
                ∷ (
                  "reverse",
                  obj (
                      ("type", string "boolean")
                      ∷ ("default", bool false)
                      ∷ (
                        "description",
                        string
                            "Walk forward from head toward the frontier instead of backward. The response reports `next` in place of `previous`.",
                      )
                      ∷ []),
                )
                ∷ (
                  "raw",
                  obj (
                      ("type", string "boolean")
                      ∷ ("default", bool false)
                      ∷ (
                        "description",
                        string
                            "Return full block content instead of a send/receive summary. Required to see change and epoch blocks, which the summary skips.",
                      )
                      ∷ []),
                )
                ∷ (
                  "account_filter",
                  obj (
                      ("type", string "array")
                      ∷ ("items", obj (("type", string "string") ∷ ("minLength", int 1) ∷ []))
                      ∷ ("description", string "Only return entries connected to these accounts.")
                      ∷ []),
                )
                ∷ (
                  "include_linked_account",
                  obj (
                      ("type", string "boolean")
                      ∷ ("default", bool false)
                      ∷ (
                        "description",
                        string
                            "Add `linked_account` to each entry, or \"0\" when there is none or the block is pruned.",
                      )
                      ∷ []),
                )
                ∷ []),
          )
          ∷ []),
    )
    ∷ []
