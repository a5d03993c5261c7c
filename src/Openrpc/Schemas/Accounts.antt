-- ===== src/Openrpc/Schemas/Accounts.antt =====
-- Component schemas of src/lib.rs, from `AccountsParams` to `ReceivableParams`.
use nano_rpc_gateway.Prelude.{String, true, false, List, [], ◌∷◌}
use nano_rpc_gateway.Json.{Value, string, bool}
use nano_rpc_gateway.Json.Macro.{obj, arr, int, negative}

abbrev pub account_params : List (String × Value)
account_params =
    (
      "AccountsParams",
      obj (
          ("type", string "object")
          ∷ ("required", arr (string "accounts" ∷ []))
          ∷ (
            "properties",
            obj (
                (
                  "accounts",
                  obj (
                      ("type", string "array")
                      ∷ ("minItems", int 1)
                      ∷ ("items", obj (("type", string "string") ∷ ("minLength", int 1) ∷ []))
                      ∷ []),
                )
                ∷ (
                  "include_only_confirmed",
                  obj (
                      ("type", string "boolean")
                      ∷ ("default", bool true)
                      ∷ (
                        "description",
                        string "Only count blocks whose confirmation height is up to date.",
                      )
                      ∷ []),
                )
                ∷ []),
          )
          ∷ []),
    )
    ∷ (
      "AccountInfoParams",
      obj (
          ("type", string "object")
          ∷ ("required", arr (string "account" ∷ []))
          ∷ (
            "properties",
            obj (
                ("account", obj (("type", string "string") ∷ ("minLength", int 1) ∷ []))
                ∷ (
                  "representative",
                  obj (
                      ("type", string "boolean")
                      ∷ ("default", bool false)
                      ∷ ("description", string "Add the representative account.")
                      ∷ []),
                )
                ∷ (
                  "weight",
                  obj (
                      ("type", string "boolean")
                      ∷ ("default", bool false)
                      ∷ ("description", string "Add the account's voting weight.")
                      ∷ []),
                )
                ∷ (
                  "receivable",
                  obj (
                      ("type", string "boolean")
                      ∷ ("default", bool false)
                      ∷ (
                        "description",
                        string
                            "Add the receivable total, plus confirmed_receivable when include_confirmed is also set.",
                      )
                      ∷ []),
                )
                ∷ (
                  "include_confirmed",
                  obj (
                      ("type", string "boolean")
                      ∷ ("default", bool false)
                      ∷ (
                        "description",
                        string
                            "Add the confirmed_ fields. Without it the response carries no confirmed_* fields.",
                      )
                      ∷ []),
                )
                ∷ []),
          )
          ∷ []),
    )
    ∷ (
      "AccountBalanceParams",
      obj (
          ("type", string "object")
          ∷ ("required", arr (string "account" ∷ []))
          ∷ (
            "properties",
            obj (
                ("account", obj (("type", string "string") ∷ ("minLength", int 1) ∷ []))
                ∷ (
                  "include_only_confirmed",
                  obj (
                      ("type", string "boolean")
                      ∷ ("default", bool true)
                      ∷ (
                        "description",
                        string "Report only blocks whose confirmation height is up to date.",
                      )
                      ∷ []),
                )
                ∷ []),
          )
          ∷ []),
    )
    ∷ (
      "ReceivableParams",
      obj (
          ("type", string "object")
          ∷ ("required", arr (string "account" ∷ []))
          ∷ (
            "properties",
            obj (
                ("account", obj (("type", string "string") ∷ ("minLength", int 1) ∷ []))
                ∷ (
                  "count",
                  obj (
                      (
                        "oneOf",
                        arr (
                            obj (("type", string "integer") ∷ ("minimum", negative 0) ∷ [])
                            ∷ obj (
                                ("type", string "string")
                                ∷ ("pattern", string "^(-1|[0-9]+)$")
                                ∷ [])
                            ∷ []),
                      )
                      ∷ (
                        "description",
                        string
                            "Maximum number of blocks to return. Native decimal strings are forwarded unchanged.",
                      )
                      ∷ []),
                )
                ∷ (
                  "threshold",
                  obj (
                      ("type", string "string")
                      ∷ (
                        "description",
                        string
                            "Only return blocks whose amount is at least this value, in raw. Selects the hash-to-amount result shape.",
                      )
                      ∷ []),
                )
                ∷ (
                  "source",
                  obj (
                      ("type", string "boolean")
                      ∷ ("default", bool false)
                      ∷ (
                        "description",
                        string
                            "Include the sending account with each block. Selects the hash-to-object result shape.",
                      )
                      ∷ []),
                )
                ∷ (
                  "include_active",
                  obj (
                      ("type", string "boolean")
                      ∷ ("default", bool false)
                      ∷ ("description", string "Include blocks without a finished confirmation.")
                      ∷ []),
                )
                ∷ (
                  "min_version",
                  obj (
                      ("type", string "integer")
                      ∷ (
                        "description",
                        string "Only return blocks that this version (epoch) or later can pocket.",
                      )
                      ∷ []),
                )
                ∷ (
                  "sorting",
                  obj (
                      ("type", string "boolean")
                      ∷ ("default", bool false)
                      ∷ ("description", string "Sort blocks by amount, descending.")
                      ∷ []),
                )
                ∷ (
                  "include_only_confirmed",
                  obj (
                      ("type", string "boolean")
                      ∷ ("default", bool true)
                      ∷ (
                        "description",
                        string "Only return blocks whose confirmation height is up to date.",
                      )
                      ∷ []),
                )
                ∷ []),
          )
          ∷ []),
    )
    ∷ []
