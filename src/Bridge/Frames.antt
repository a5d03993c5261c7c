-- ===== src/Bridge/Frames.antt =====
-- What the bridge publishes of a frame of the upstream.
use package.text.Mathlib.Text.{◌==◌ as str_eq}
use nano_rpc_gateway.Prelude.{
  String, Option, none, some, ◌≡◌, refl, arith, eq_iff, if◌then◌else◌, not, ◌||◌,
}
use nano_rpc_gateway.Json.{Value, Fields, object, get, member, member_str, is_some_and, unwrap_or}
use nano_rpc_gateway.Json.Laws.{get-insert}
use nano_rpc_gateway.Bridge.{is_present, with_time, normalize_confirmation}

-- The time of the envelope, or else that of the message.
abbrev pub time_of : Option Value → Option Value → Option Value
time_of (some time) inner = some time
time_of none inner = inner

-- A member of a message with the time of its envelope.
abbrev pub timed : String → Option Value → Option Value → Option Value
timed k time inner = if str_eq k "time" then time_of time inner else inner

member-with_time :
    (time : Option Value) (fs : Fields) (k : String)
    → member (with_time time (object fs)) k ≡ timed k time (get fs k)
unfolding member
member-with_time none fs k = ground arith
member-with_time (some t) fs k =
    ground (arith, eq_iff "time" k, eq_iff k "time", get-insert "time" k t fs)

published :
    (ack time message : Option Value) (topic : Option String) (inner value : Value)
    → ack ≡ none
    → topic ≡ some "confirmation"
    → message ≡ some inner
    → (if is_present ack || not (is_some_and topic (str_eq "confirmation"))
        then none
        else some (with_time time (unwrap_or message value)))
      ≡ some (with_time time inner)
published ack time message topic inner value a t m = rw (a, t, m) refl

-- A frame of the topic `confirmation` that is no acknowledgement and whose message is an object is
-- published: with each member of the message, except that a time of the envelope replaces the
-- message's own.
pub member-normalize_confirmation :
    (value : Value) (fs : Fields)
    → member value "ack" ≡ none
    → member_str value "topic" ≡ some "confirmation"
    → member value "message" ≡ some (object fs)
    → (payload : Value) × (normalize_confirmation value ≡ some payload)
      × ((k : String) → member payload k ≡ timed k (member value "time") (get fs k))
unfolding normalize_confirmation
member-normalize_confirmation value fs plain topic message = (
  with_time (member value "time") (object fs),
  published _ (member value "time") _ _ (object fs) value plain topic message,
  member-with_time (member value "time") fs,
)
