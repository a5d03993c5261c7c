-- ===== src/Openrpc/Schemas/Works.antt =====
-- Component schemas of src/lib.rs, from `WorkGenerateParams` to `EmptyParams`.
use nano_rpc_gateway.Prelude.{String, false, List, [], ◌∷◌}
use nano_rpc_gateway.Json.{Value, string, bool}
use nano_rpc_gateway.Json.Macro.{obj, arr, int}

abbrev pub work_params : List (String × Value)
work_params =
    (
      "WorkGenerateParams",
      obj (
          ("type", string "object")
          ∷ ("required", arr (string "hash" ∷ []))
          ∷ (
            "properties",
            obj (
                ("hash", obj (("type", string "string") ∷ ("minLength", int 1) ∷ []))
                ∷ (
                  "use_peers",
                  obj (
                      ("type", string "boolean")
                      ∷ ("default", bool false)
                      ∷ ("description", string "Query configured work peers when generating work.")
                      ∷ []),
                )
                ∷ (
                  "difficulty",
                  obj (
                      ("type", string "string")
                      ∷ ("description", string "Optional 16-digit hexadecimal work difficulty.")
                      ∷ []),
                )
                ∷ (
                  "multiplier",
                  obj (
                      ("type", string "number")
                      ∷ ("exclusiveMinimum", int 0)
                      ∷ (
                        "description",
                        string "Optional positive multiplier; overrides difficulty.",
                      )
                      ∷ []),
                )
                ∷ (
                  "account",
                  obj (
                      ("type", string "string")
                      ∷ (
                        "description",
                        string "Nano account forwarded to work peers when use_peers is true.",
                      )
                      ∷ []),
                )
                ∷ (
                  "version",
                  obj (("type", string "string") ∷ ("enum", arr (string "work_1" ∷ [])) ∷ []),
                )
                ∷ (
                  "block",
                  obj (
                      (
                        "description",
                        string "Optional block for selecting difficulty; a JSON string or object.",
                      )
                      ∷ (
                        "oneOf",
                        arr (
                            obj (("type", string "string") ∷ [])
                            ∷ obj (("type", string "object") ∷ [])
                            ∷ []),
                      )
                      ∷ []),
                )
                ∷ (
                  "json_block",
                  obj (
                      ("type", string "boolean")
                      ∷ ("default", bool false)
                      ∷ ("description", string "Interpret block as a JSON object.")
                      ∷ []),
                )
                ∷ []),
          )
          ∷ []),
    )
    ∷ (
      "WorkCancelParams",
      obj (
          ("type", string "object")
          ∷ ("required", arr (string "hash" ∷ []))
          ∷ (
            "properties",
            obj (
                (
                  "hash",
                  obj (
                      ("type", string "string")
                      ∷ ("minLength", int 1)
                      ∷ ("description", string "Block hash whose work generation should stop.")
                      ∷ []),
                )
                ∷ []),
          )
          ∷ []),
    )
    ∷ (
      "WorkValidateParams",
      obj (
          ("type", string "object")
          ∷ ("required", arr (string "hash" ∷ string "work" ∷ []))
          ∷ (
            "properties",
            obj (
                ("hash", obj (("type", string "string") ∷ ("minLength", int 1) ∷ []))
                ∷ ("work", obj (("type", string "string") ∷ ("minLength", int 1) ∷ []))
                ∷ (
                  "difficulty",
                  obj (
                      ("type", string "string")
                      ∷ ("description", string "Optional 16-digit hexadecimal difficulty.")
                      ∷ []),
                )
                ∷ (
                  "multiplier",
                  obj (
                      ("type", string "number")
                      ∷ ("exclusiveMinimum", int 0)
                      ∷ (
                        "description",
                        string "Optional positive multiplier; overrides difficulty.",
                      )
                      ∷ []),
                )
                ∷ (
                  "version",
                  obj (("type", string "string") ∷ ("enum", arr (string "work_1" ∷ [])) ∷ []),
                )
                ∷ []),
          )
          ∷ []),
    )
    ∷ (
      "EmptyParams",
      obj (
          ("type", string "object")
          ∷ ("properties", obj [])
          ∷ ("additionalProperties", bool false)
          ∷ []),
    )
    ∷ []
