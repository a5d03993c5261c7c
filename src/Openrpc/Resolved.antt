-- ===== src/Openrpc/Resolved.antt =====
-- The references of the document resolve.
use package.text.Mathlib.Text.{◌==◌ as str_eq}
use nano_rpc_gateway.Prelude.{String, Bool, List, all}
use nano_rpc_gateway.Json.{Fields, contains_key}
use nano_rpc_gateway.Openrpc.Reach.{Reach}
use nano_rpc_gateway.Openrpc.Schemas.{component_schemas}
use nano_rpc_gateway.Openrpc.Document.{document_methods}

abbrev known : Fields → List String → Bool
known schemas names = all (contains_key schemas) names

module _ (w c d : Bool) where
  abbrev Met : String → Type 0
  Met n = Reach (document_methods w c d) component_schemas n
