-- ===== src/Openrpc/Schemas.antt =====
-- `component_schemas` of src/lib.rs.
pub mod Accounts
pub mod Frontiers
pub mod Blocks
pub mod Works
pub mod Versions
pub mod Balances
pub mod Confirms
pub mod Histories
use nano_rpc_gateway.Prelude.{String, List, [], ◌∷◌, ◌++◌}
use nano_rpc_gateway.Json.{Value, Fields, end}
use nano_rpc_gateway.Json.Macro.{insert_all}
use nano_rpc_gateway.Openrpc.Schemas.Accounts.{account_params}
use nano_rpc_gateway.Openrpc.Schemas.Frontiers.{frontier_params}
use nano_rpc_gateway.Openrpc.Schemas.Blocks.{block_params}
use nano_rpc_gateway.Openrpc.Schemas.Works.{work_params}
use nano_rpc_gateway.Openrpc.Schemas.Versions.{version_results}
use nano_rpc_gateway.Openrpc.Schemas.Balances.{balance_results}
use nano_rpc_gateway.Openrpc.Schemas.Confirms.{work_results}
use nano_rpc_gateway.Openrpc.Schemas.Histories.{history_results}

unfoldable pub component_schemas : Fields
unfolding insert_all
component_schemas =
    insert_all
      (account_params ++ frontier_params ++ block_params ++ work_params ++ version_results
        ++ balance_results ++ work_results ++ history_results)
      end
