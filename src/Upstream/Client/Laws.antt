-- ===== src/Upstream/Client/Laws.antt =====
-- What reaches the node, and what each answer of the node turns into.
use text.Mathlib.Text.{◌==◌ as str_eq}
use nano_rpc_gateway.Prelude.{
  ℕ, ◌≤◌, ◌<◌, String, Option, none, some, ◌≡◌, refl, ◌↔◌, ◌⊎◌, arith, ◌∙◌, subst, sym,
  if◌then◌else◌,
}
use nano_rpc_gateway.Prelude.Result.{Result, ok, err}
use nano_rpc_gateway.Json.{Value, Fields, null, bool, number, string, array, object, get, member}
use nano_rpc_gateway.Json.Laws.{get-insert}
use nano_rpc_gateway.Error.{GatewayError, node_rejected, node_rate_limited}
use nano_rpc_gateway.Upstream.Client.{
  Reply, failed, response, native_request_body, native_error_reason, read_answer, read_body,
  read_reply,
}

-- The body that goes upstream holds the action and every parameter of the caller: a member other
-- than `action` is as the caller sent it, and `action` is always the authorized method.
pub get-native_request_body :
    (action : String) (fs : Fields) (k : String)
    → get (native_request_body action (object fs)) k
      ≡ (if str_eq "action" k then some (string action) else get fs k)
unfolding native_request_body
get-native_request_body action fs k = get-insert "action" k (string action) fs

-- A 2xx answer with a JSON body.
abbrev pub Answered : Reply → Value → Type 0
Answered reply body =
    (status : ℕ) × (reply ≡ response status (ok body)) × (200 ≤ status) × (status < 300)

-- The node's words for its error: the text itself, or the JSON of what is no text.
abbrev pub Words : (Value → String) → Value → String → Type 0
Words print (string s) m = m ≡ s
Words print e m = m ≡ print e

-- The node reported `m` itself.
abbrev pub NodeSaid : Result GatewayError Value → String → Type 0
NodeSaid r m = (r ≡ err (node_rejected m)) ⊎ (r ≡ err (node_rate_limited m))

module _ (print : Value → String) (status_text : ℕ → String) where
  abbrev read : Reply → Result GatewayError Value
  read = read_reply print status_text

  read_answer-ok :
      (w v : Value) (e : Option Value) → read_answer print w e ≡ ok v → (w ≡ v) × (e ≡ none)
  unfolding read_answer
  read_answer-ok w v none h = (ground arith, refl)
  read_answer-ok w v (some e) h = ground arith

  read_reply-ok :
      (reply : Reply) (v : Value) → read reply ≡ ok v → Answered reply v × (member v "error" ≡ none)
  unfolding read_reply read_body
  read_reply-ok (response status (ok w)) v h =
      let (same, clean) = read_answer-ok w v (member w "error") (ground arith) in
      ((status, rw same, ground arith, ground arith), rw same at clean)
  read_reply-ok (response status (err e)) v h = ground arith
  read_reply-ok (failed c m) v h = ground arith

  read_reply_of_answer :
      (reply : Reply) (v : Value)
      → Answered reply v
      → read reply ≡ read_answer print v (member v "error")
  unfolding read_reply read_body
  read_reply_of_answer reply v (status, e, lo, hi) = rw e (ground arith)

  -- A call succeeds exactly when the node answers with a 2xx status and a JSON body that has no
  -- `error` member, and then that body is the result.
  pub read_reply-ok_iff :
      (reply : Reply) (v : Value)
      → (read_reply print status_text reply ≡ ok v) ↔ (Answered reply v × (member v "error" ≡ none))
  unfolding read_answer
  read_reply-ok_iff reply v =
      (read_reply-ok reply v, λ h. read_reply_of_answer reply v h.0 ∙ (rw h.1))

  reason-Words : (e : Value) → Words print e (native_error_reason print e)
  unfolding native_error_reason
  reason-Words null = refl
  reason-Words _ = refl

  Words-eq : (e : Value) (m : String) → Words print e m → m ≡ native_error_reason print e
  unfolding native_error_reason
  Words-eq null m h = h
  Words-eq (bool _) m h = h
  Words-eq (number _) m h = h
  Words-eq (string _) m h = h
  Words-eq (array _) m h = h
  Words-eq (object _) m h = h

  read_answer-NodeSaid :
      (w : Value) (e : Option Value) (m : String)
      → NodeSaid (read_answer print w e) m
      → (error : Value) × (e ≡ some error) × Words print error m
  unfolding read_answer
  read_answer-NodeSaid w none m h = ground arith
  read_answer-NodeSaid w (some e) m h =
      let said : m ≡ native_error_reason print e = ground arith in
      (e, refl, subst (Words print e) (sym said) (reason-Words e))

  read_reply-NodeSaid :
      (reply : Reply) (m : String)
      → NodeSaid (read reply) m
      → (body : Value) × (error : Value) × Answered reply body
        × (member body "error" ≡ some error)
        × Words print error m
  unfolding read_reply read_body
  read_reply-NodeSaid (response status (ok w)) m h =
      let said : NodeSaid (read_answer print w (member w "error")) m = ground arith in
      let (error, e, words) = read_answer-NodeSaid w (member w "error") m said in
      (w, error, (status, refl, ground arith, ground arith), e, words)
  read_reply-NodeSaid (response status (err e)) m h = ground arith
  read_reply-NodeSaid (failed c x) m h = ground arith

  read_answer_of_error :
      (w e : Value) (m : String) → Words print e m → NodeSaid (read_answer print w (some e)) m
  unfolding read_answer
  read_answer_of_error w e m h = ground (arith, Words-eq e m h)

  -- A call reports an error as the node's own exactly when the node answered with a 2xx status and
  -- a body whose `error` member says so; the message is then the node's words, unchanged.
  pub read_reply-NodeSaid_iff :
      (reply : Reply) (m : String)
      → NodeSaid (read_reply print status_text reply) m ↔ (
          (body : Value) × (error : Value) × Answered reply body
          × (member body "error" ≡ some error)
          × Words print error m)
  read_reply-NodeSaid_iff reply m = (
    read_reply-NodeSaid reply m,
    λ (body, error, answered, e, words).
        rw (read_reply_of_answer reply body answered, e) (read_answer_of_error body error m words),
  )
