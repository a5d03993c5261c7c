-- ===== src/Registry.antt =====
-- The method registry of src/lib.rs: `Scope`, `MethodSpec`, `registry` and its lookup by name.
pub mod Laws
use text.Mathlib.Text.{◌==◌ as str_eq}
use nano_rpc_gateway.Prelude.{
  String, Bool, true, false, List, [], ◌∷◌, Option, none, some, if◌then◌else◌,
}

pub data Scope : Type 0 where
  base common work control : Scope

pub record MethodSpec : Type 0 where
  pub name : String
  pub scope : Scope
  pub params : String
  pub result : String
  pub description : String
  pub schema_provenance : String

-- One entry of `registry`.
abbrev pub method_spec : String → Scope → String → String → String → String → MethodSpec
method_spec name scope params result description provenance = record {
  name = name;
  scope = scope;
  params = params;
  result = result;
  description = description;
  schema_provenance = provenance;
}

abbrev v28_profile : String
v28_profile = "profiles/nano-node-v28.2.yaml"

unfoldable pub registry : List MethodSpec
registry =
    method_spec "version" base "EmptyParams" "VersionResult" "Read the upstream node version."
      v28_profile
    ∷ method_spec "block_count" base "EmptyParams" "BlockCountResult"
        "Read upstream ledger block counts." v28_profile
    ∷ method_spec "account_info" base "AccountInfoParams" "AccountInfoResult"
        "Read current and confirmed frontier state for one account." v28_profile
    ∷ method_spec "receivable" base "ReceivableParams" "ReceivableResult"
        "Read receivable blocks for an account." v28_profile
    ∷ method_spec "account_balance" base "AccountBalanceParams" "AccountBalanceResult"
        "Read balance and receivable state for one account." v28_profile
    ∷ method_spec "accounts_balances" base "AccountsParams" "AccountsBalancesResult"
        "Read balances and receivables for several accounts." v28_profile
    ∷ method_spec "account_history" base "AccountHistoryParams" "AccountHistoryResult"
        "Read account history." v28_profile
    ∷ method_spec "block_info" base "BlockParams" "BlockInfoResult"
        "Read block metadata and whether the block is cemented." v28_profile
    ∷ method_spec "blocks_info" base "BlocksParams" "BlocksInfoResult"
        "Read metadata for several blocks." v28_profile
    ∷ method_spec "accounts_frontiers" base "AccountsFrontiersParams" "AccountsFrontiersResult"
        "Read the head block hash for each account." v28_profile
    ∷ method_spec "accounts_receivable" base "AccountsReceivableParams" "AccountsReceivableResult"
        "Read receivable blocks for several accounts." v28_profile
    ∷ method_spec "block_confirm" base "BlockConfirmParams" "BlockConfirmResult"
        "Request confirmation for a block from online representatives." v28_profile
    ∷ method_spec "process" common "ProcessParams" "ProcessResult"
        "Submit a precomputed block and return its hash." v28_profile
    ∷ method_spec "work_generate" work "WorkGenerateParams" "WorkGenerateResult"
        "Generate proof of work for a block. Requires a Work-scope bearer token and allow_work."
        "https://docs.nano.org/commands/rpc-protocol/#work_generate"
    ∷ method_spec "work_cancel" control "WorkCancelParams" "WorkCancelResult"
        "Stop generating work for a block. Requires a Control-scope bearer token and allow_control."
        "https://docs.nano.org/commands/rpc-protocol/#work_cancel"
    ∷ method_spec "work_validate" common "WorkValidateParams" "WorkValidateResult"
        "Check whether work is valid for a block. Authentication follows the Common-method policy."
        "https://docs.nano.org/commands/rpc-protocol/#work_validate"
    ∷ []

-- `iter().find(|item| item.name == name)`
unfoldable pub find_method : String → List MethodSpec → Option MethodSpec
find_method name [] = none
find_method name (m ∷ ms) = if str_eq m.name name then some m else find_method name ms

abbrev pub is_base : Scope → Bool
is_base base = true
is_base _ = false

abbrev pub is_common : Scope → Bool
is_common common = true
is_common _ = false

abbrev pub is_work : Scope → Bool
is_work work = true
is_work _ = false

abbrev pub is_control : Scope → Bool
is_control control = true
is_control _ = false
