-- ===== src/App/Sources.antt =====
-- Who wrote the message of an error that a run hands on as the node's.
use text.Mathlib.Text.{◌==◌ as str_eq}
use mathlib.Core.Option.{some-injective}
use nano_rpc_gateway.Prelude.{
  ℕ, String, List, Option, none, some, ◌≡◌, refl, ◌⊎◌, inl, inr, sym, subst, get_elem?, Bool-cases,
  eq_iff, ◌==◌, ◌||◌,
}
use nano_rpc_gateway.Prelude.Text.{to_ascii_uppercase}
use nano_rpc_gateway.Prelude.Result.{Result, ok, err, Errs, Errs-ok, Errs-err}
use nano_rpc_gateway.Json.{Value, member, member_str, unwrap_or}
use nano_rpc_gateway.Error.{GatewayError}
use nano_rpc_gateway.Upstream.Client.{
  NativeClient, native_request_body, read_reply, call_with_response_logging,
}
use nano_rpc_gateway.Upstream.Client.Laws.{Answered, Words, NodeSaid, read_reply-NodeSaid_iff}
use nano_rpc_gateway.Upstream.Router.{NativeRouter}
use nano_rpc_gateway.Upstream.Router.Errors.{call-Errs}
use nano_rpc_gateway.App.{
  AppState, Config, World, Generated, found, cancelled, task_failed, timed_out, is_remote, ask,
  answer_of, has_job,
}
use nano_rpc_gateway.App.Handed.{Hands, Hands-NodeSaid, Hands-map, NodeSaid-Hands, prepare-Errs}
use nano_rpc_gateway.App.Work.{
  prepare, outcome, run_job, run_prepared, generate_local_work, has_local_job,
}
use nano_rpc_gateway.App.Dispatch.{run, asks_node, success_object}

-- One of the upstreams of the pool answered the call with these words in the `error` of its body.
abbrev pub FromNode : World → String → Value → NativeRouter → String → Type 0
FromNode w method params pool m =
    (i : ℕ) × (client : NativeClient) × (get_elem? pool.clients i ≡ some client)
    × ((body : Value) × (error : Value) × Answered
          (w.send client (native_request_body method params)) body
        × (member body "error" ≡ some error)
        × Words w.print error m)

-- The gateway's own text, for a local generation that was cancelled.
abbrev pub FromCancelled : World → String → String → Type 0
FromCancelled w method m =
    (method ≡ "work_generate")
    × (m ≡ "Work generation was cancelled")
    × ((bytes : List ℕ) × (threshold : ℕ) × (w.generate bytes threshold ≡ cancelled))

abbrev pub Source : World → String → Value → AppState → String → Type 0
Source w method params s m =
    FromNode w method params s.native_pool m
    ⊎ (FromNode w method params s.work_peers m ⊎ FromCancelled w method m)

module _ (w : World) (method : String) (params : Value) where
  answer_of-FromNode :
      (pool : NativeRouter) (i : ℕ) (carried : Option NativeClient)
      → get_elem? pool.clients i ≡ carried
      → Errs (Hands (FromNode w method params pool)) (answer_of w method params carried)
  unfolding call_with_response_logging read_reply
  answer_of-FromNode pool i none h = Errs-err _ _ (λ m given. absurd cc)
  answer_of-FromNode pool i (some client) h =
      let reply = w.send client (native_request_body method params) in
      NodeSaid-Hands (FromNode w method params pool) (read_reply w.print w.status_text reply)
        (λ m said. (i, client, h, (read_reply-NodeSaid_iff w.print w.status_text reply m).0 said))

  ask-FromNode :
      (pool : NativeRouter)
      → Errs (Hands (FromNode w method params pool)) (ask w method params pool).0
  unfolding ask
  ask-FromNode pool =
      call-Errs (λ i. answer_of w method params (get_elem? pool.clients i)) w.failure_at
        (Hands (FromNode w method params pool)) w.call_at pool
        (λ i. answer_of-FromNode pool i (get_elem? pool.clients i) refl) (λ m given. absurd cc)

  outcome-Errs :
      (hash : String) (bytes : List ℕ) (threshold : ℕ) (g : Generated)
      → method ≡ "work_generate"
      → w.generate bytes threshold ≡ g
      → Errs (Hands (FromCancelled w method)) (outcome hash g)
  unfolding outcome
  outcome-Errs hash bytes threshold (found a b c) named ends = Errs-ok _ _
  outcome-Errs hash bytes threshold cancelled named ends =
      Errs-err _ _ (λ m given. (named, sym (some-injective _ _ given), (bytes, threshold, ends)))
  outcome-Errs hash bytes threshold (task_failed x) named ends = Errs-err _ _ (λ m given. absurd cc)
  outcome-Errs hash bytes threshold timed_out named ends = Errs-err _ _ (λ m given. absurd cc)

  run_job-Errs :
      (hash : String) (bytes : List ℕ) (threshold : ℕ) (s : AppState)
      (started : Result String (Unit {0}))
      → method ≡ "work_generate"
      → Errs (Hands (FromCancelled w method)) (run_job w hash bytes threshold s started).0
  unfolding run_job
  run_job-Errs hash bytes threshold s (err x) named = Errs-err _ _ (λ m given. absurd cc)
  run_job-Errs hash bytes threshold s (ok _) named =
      outcome-Errs hash bytes threshold (w.generate bytes threshold) named refl

  run_prepared-Errs :
      (s : AppState) (p : Result GatewayError (String × List ℕ × ℕ))
      → method ≡ "work_generate"
      → Errs (Hands (FromCancelled w method)) p
      → Errs (Hands (FromCancelled w method)) (run_prepared w s p).0
  unfolding run_prepared
  run_prepared-Errs s (err e) named h = Errs-err _ _ (h.each e refl)
  run_prepared-Errs s (ok (hash, bytes, threshold)) named h =
      elim (Bool-cases (s.local_work_slots == 0)) [
        | inl busy ↦ rw busy (Errs-err _ _ (λ m given. absurd cc))
        | inr free ↦ elim (Bool-cases (has_local_job (to_ascii_uppercase hash) s.local_work_jobs)) [
          | inl twice ↦ rw (free, twice) (Errs-err _ _ (λ m given. absurd cc))
          | inr once ↦ rw (free, once) (run_job-Errs hash bytes threshold s w.generator named)
        ]
      ]

  module _ (s : AppState) where
    by_native : Errs (Hands (Source w method params s)) (ask w method params s.native_pool).0
    by_native =
        Hands-map (FromNode w method params s.native_pool) (Source w method params s) _ (λ m. inl)
          (ask-FromNode s.native_pool)

    by_peers : Errs (Hands (Source w method params s)) (ask w method params s.work_peers).0
    by_peers =
        Hands-map (FromNode w method params s.work_peers) (Source w method params s) _
          (λ m from. inr (inl from)) (ask-FromNode s.work_peers)

    by_generator :
        method ≡ "work_generate"
        → Errs (Hands (Source w method params s)) (generate_local_work w params s).0
    unfolding generate_local_work
    by_generator named =
        Hands-map (FromCancelled w method) (Source w method params s) _ (λ m from. inr (inr from))
          (run_prepared-Errs s (prepare w params) named
            (prepare-Errs (FromCancelled w method) w params))

    run-Errs :
        (config : Config) → Errs (Hands (Source w method params s)) (run config w method params s).0
    unfolding run
    run-Errs config =
        let hash = to_ascii_uppercase (unwrap_or (member_str params "hash") "") in
        elim (Bool-cases (str_eq method "work_generate")) [
          | inl generate ↦
              let named = (eq_iff method "work_generate").0 generate in
              elim (Bool-cases (is_remote config.work_provider || asks_node params)) [
                | inl remote ↦
                    rw (generate, remote)
                      (subst
                        (λ n.
                          Errs (Hands (Source w method params s)) (ask w n params s.work_peers).0)
                        named by_peers)
                | inr here ↦ rw (generate, here) (by_generator named)
              ]
          | inr other ↦ elim (Bool-cases (str_eq method "work_cancel")) [
            | inl cancel ↦
                let named = (eq_iff method "work_cancel").0 cancel in
                elim (Bool-cases
                  (is_remote config.work_provider || has_job hash s.remote_work_jobs)) [
                    | inl remote ↦
                        rw (other, cancel, remote)
                          (subst
                            (λ n.
                              Errs (Hands (Source w method params s))
                                (ask w n params s.work_peers).0)
                            named by_peers)
                    | inr here ↦ rw (other, cancel, here) (Errs-ok _ success_object)
                  ]
            | inr ledger ↦ rw (other, ledger) by_native
          ]
        ]

    -- What a run hands on as the node's error was written by an upstream of one of the pools, or is
    -- the gateway's own text for a local generation that was cancelled.
    pub run-Source :
        (config : Config) (m : String)
        → NodeSaid (run config w method params s).0 m
        → Source w method params s m
    run-Source config m =
        Hands-NodeSaid (Source w method params s) (run config w method params s).0 m
          (run-Errs config)
