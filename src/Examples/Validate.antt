-- ===== src/Examples/Validate.antt =====
-- Calls of `block_info` and `work_generate`, and their results.
use nano_rpc_gateway.Json.{Value, string, object, array, cons, nil, field, end}
use nano_rpc_gateway.Validate.Params.Accepts.{Accepts}

abbrev params : Value
params = object (field "hash" (string "AB") (field "json_block" (string "true") end))

abbrev result : Value
result = object (field "difficulty" (string "f8") (field "frontier" (string "AB") end))

abbrev hashes : Value
hashes = array (cons (string "AB") (cons (string "CD") nil))
