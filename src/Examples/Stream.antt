-- ===== src/Examples/Stream.antt =====
-- A subscription to two accounts, and a confirmed send between them.
use nano_rpc_gateway.Prelude.{true, false, [], ◌∷◌, some, ◌≡◌, ◌↔◌, refl}
use nano_rpc_gateway.Prelude.Result.{ok}
use nano_rpc_gateway.Json.{Value, Fields, string, object, array, cons, nil, field, end, member_str}
use nano_rpc_gateway.Stream.{
  NanoEvent, StreamOptions, accepts, active, from_object, default_options, project, matches,
}
use nano_rpc_gateway.Stream.Filter.{Classified, PassesAccounts, matches_iff}
use nano_rpc_gateway.Stream.Options.{FromObject, from_object_iff}
use nano_rpc_gateway.Stream.Projection.{Projected, project-Projected}

abbrev block : Value
block = object (
    field "height" (string "7")
      (field "link_as_account" (string "xrb_2") (field "type" (string "state") end)))

abbrev sent : NanoEvent
sent = record {
  event = "nano.confirmation";
  payload = object (
      field "account" (string "nano_1")
        (field "block" block (field "confirmation_type" (string "active_quorum") end)));
}

abbrev options : StreamOptions
options = record default_options { confirmation_type = active; accounts = some ("nano_2" ∷ []) }

matches_iff_example : (matches options sent ≡ true) ↔ (
    (sent.event ≡ "nano.confirmation")
    × Classified active (member_str sent.payload "confirmation_type")
    × PassesAccounts sent (some ("nano_2" ∷ [])))
matches_iff_example = matches_iff options sent

abbrev posted : Fields
posted =
    field "accounts" (array (cons (string "nano_2") nil))
      (field "confirmation_type" (string "active") end)

from_object_iff_example : (from_object posted ≡ ok options) ↔ FromObject posted options
from_object_iff_example = from_object_iff posted options

project-Projected_example :
    ((project options sent).event ≡ sent.event)
    × Projected options sent.payload (project options sent).payload
project-Projected_example = project-Projected options sent

-- The same send, classified with a word that no filter names.
abbrev odd : NanoEvent
odd = record sent {
  payload = object (
      field "account" (string "nano_1")
        (field "block" block (field "confirmation_type" (string "new_quorum") end)));
}

odd_dropped : matches options odd ≡ false
unfolding matches accepts member_str
odd_dropped = refl
