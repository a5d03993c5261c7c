-- ===== src/Openrpc/Schemas/Confirms.antt =====
-- Component schemas of src/lib.rs, from `BlockConfirmResult` to `WorkValidateResult`.
use nano_rpc_gateway.Prelude.{String, List, [], ◌∷◌}
use nano_rpc_gateway.Json.{Value, string}
use nano_rpc_gateway.Json.Macro.{obj, arr}

abbrev pub work_results : List (String × Value)
work_results =
    (
      "BlockConfirmResult",
      obj (
          ("type", string "object")
          ∷ ("required", arr (string "started" ∷ []))
          ∷ (
            "properties",
            obj (("started", obj (("type", string "string") ∷ ("const", string "1") ∷ [])) ∷ []),
          )
          ∷ []),
    )
    ∷ (
      "ProcessResult",
      obj (
          (
            "oneOf",
            arr (
                obj (
                  ("type", string "object")
                  ∷ ("required", arr (string "hash" ∷ []))
                  ∷ ("properties", obj (("hash", obj (("type", string "string") ∷ [])) ∷ []))
                  ∷ [])
                ∷ obj (
                    ("type", string "object")
                    ∷ ("required", arr (string "started" ∷ []))
                    ∷ (
                      "description",
                      string
                          "Returned when `async` was requested. The block was queued, not processed; the outcome arrives on the `new_unconfirmed_block` topic.",
                    )
                    ∷ (
                      "properties",
                      obj (
                          ("started", obj (("type", string "string") ∷ ("const", string "1") ∷ []))
                          ∷ []),
                    )
                    ∷ [])
                ∷ []),
          )
          ∷ []),
    )
    ∷ (
      "WorkGenerateResult",
      obj (
          ("type", string "object")
          ∷ (
            "required",
            arr (string "work" ∷ string "difficulty" ∷ string "multiplier" ∷ string "hash" ∷ []),
          )
          ∷ (
            "properties",
            obj (
                ("work", obj (("type", string "string") ∷ []))
                ∷ ("difficulty", obj (("type", string "string") ∷ []))
                ∷ ("multiplier", obj (("type", string "string") ∷ []))
                ∷ ("hash", obj (("type", string "string") ∷ []))
                ∷ []),
          )
          ∷ []),
    )
    ∷ (
      "WorkCancelResult",
      obj (
          ("type", string "object")
          ∷ ("required", arr (string "success" ∷ []))
          ∷ (
            "properties",
            obj (("success", obj (("type", string "string") ∷ ("const", string "") ∷ [])) ∷ []),
          )
          ∷ []),
    )
    ∷ (
      "WorkValidateResult",
      obj (
          ("type", string "object")
          ∷ (
            "required",
            arr (
                string "valid_all"
                ∷ string "valid_receive"
                ∷ string "difficulty"
                ∷ string "multiplier"
                ∷ []),
          )
          ∷ (
            "properties",
            obj (
                (
                  "valid",
                  obj (
                      ("type", string "string")
                      ∷ ("enum", arr (string "0" ∷ string "1" ∷ []))
                      ∷ (
                        "description",
                        string "Present when difficulty or multiplier was supplied.",
                      )
                      ∷ []),
                )
                ∷ (
                  "valid_all",
                  obj (
                      ("type", string "string")
                      ∷ ("enum", arr (string "0" ∷ string "1" ∷ []))
                      ∷ []),
                )
                ∷ (
                  "valid_receive",
                  obj (
                      ("type", string "string")
                      ∷ ("enum", arr (string "0" ∷ string "1" ∷ []))
                      ∷ []),
                )
                ∷ ("difficulty", obj (("type", string "string") ∷ []))
                ∷ ("multiplier", obj (("type", string "string") ∷ []))
                ∷ []),
          )
          ∷ []),
    )
    ∷ []
