-- ===== src/App/Jobs.antt =====
-- The tables of the work jobs, after a generation is over.
use nano_rpc_gateway.Prelude.{
  ℕ, ◌≤◌, ◌+◌, String, Bool, true, false, List, [], ◌∷◌, ◌≡◌, refl, arith, Bool-cases, inl, inr,
  ◌==◌,
}
use nano_rpc_gateway.Prelude.Text.{same, to_ascii_uppercase}
use nano_rpc_gateway.Prelude.Result.{Result, ok, err}
use nano_rpc_gateway.Json.{Value}
use nano_rpc_gateway.Error.{GatewayError}
use nano_rpc_gateway.App.{
  AppState, Config, World, is_remote, has_job, drop_job, Generated, found, cancelled, task_failed,
  timed_out,
}
use nano_rpc_gateway.App.Work.{
  generate_local_work, run_prepared, run_job, prepare, has_local_job, drop_local_job, slots_after,
  cancel_local_job,
}
use nano_rpc_gateway.App.Dispatch.{generate_remote, cancel_work, success_object}

same_refl : (cs : List ℕ) → same cs cs ≡ true
unfolding same
same_refl [] = refl
same_refl (c ∷ cs) = ground (arith, same_refl cs)

drop_local_job-absent :
    (hash : List ℕ) (jobs : List (List ℕ × Bool))
    → has_local_job hash jobs ≡ false
    → drop_local_job hash jobs ≡ jobs
unfolding drop_local_job
drop_local_job-absent hash [] h = refl
drop_local_job-absent hash (j ∷ js) h =
    let here : same hash (j.0) ≡ false = ground arith in
    let later : has_local_job hash js ≡ false = ground arith in
    rw (here, drop_local_job-absent hash js later) refl

-- A job that is entered and then dropped leaves the table as it was.
drop_local_job-cons :
    (hash : List ℕ) (jobs : List (List ℕ × Bool))
    → has_local_job hash jobs ≡ false
    → drop_local_job hash ((hash, false) ∷ jobs) ≡ jobs
unfolding drop_local_job
drop_local_job-cons hash jobs h = rw (same_refl hash) (drop_local_job-absent hash jobs h)

-- What a local generation leaves of the state.
pub record Restored (before after : AppState) : Type 0 where
  pub jobs : after.local_work_jobs ≡ before.local_work_jobs
  pub remote : after.remote_work_jobs ≡ before.remote_work_jobs
  pub slots : after.local_work_slots ≤ before.local_work_slots
  pub slot_kept : before.local_work_slots ≤ after.local_work_slots + 1

slots_after-le : (n : ℕ) (g : Generated) → (slots_after n g ≤ n) × (n ≤ slots_after n g + 1)
slots_after-le n timed_out = (omega arith, omega arith)
slots_after-le n (found a b c) = (omega arith, omega arith)
slots_after-le n cancelled = (omega arith, omega arith)
slots_after-le n (task_failed m) = (omega arith, omega arith)

Restored-refl : (s : AppState) → Restored s s
Restored-refl s = record {
  jobs = refl;
  remote = refl;
  slots = omega arith;
  slot_kept = omega arith;
}

run_job-Restored :
    (w : World) (hash : String) (bytes : List ℕ) (threshold : ℕ) (s : AppState)
    (start : Result String (Unit {0}))
    → has_local_job (to_ascii_uppercase hash) s.local_work_jobs ≡ false
    → Restored s (run_job w hash bytes threshold s start).1
unfolding run_job
run_job-Restored w hash bytes threshold s (ok _) h = record {
  jobs = drop_local_job-cons (to_ascii_uppercase hash) s.local_work_jobs h;
  remote = refl;
  slots = (slots_after-le s.local_work_slots (w.generate bytes threshold)).0;
  slot_kept = (slots_after-le s.local_work_slots (w.generate bytes threshold)).1;
}
run_job-Restored w hash bytes threshold s (err _) h = record {
  jobs = drop_local_job-cons (to_ascii_uppercase hash) s.local_work_jobs h;
  remote = refl;
  slots = omega arith;
  slot_kept = omega arith;
}

run_prepared-Restored :
    (w : World) (s : AppState) (p : Result GatewayError (String × List ℕ × ℕ))
    → Restored s (run_prepared w s p).1
unfolding run_prepared
run_prepared-Restored w s (err e) = Restored-refl s
run_prepared-Restored w s (ok (hash, bytes, threshold)) =
    elim (Bool-cases (s.local_work_slots == 0)) [
      | inl busy ↦ rw busy (Restored-refl s)
      | inr free ↦ elim (Bool-cases (has_local_job (to_ascii_uppercase hash) s.local_work_jobs)) [
        | inl running ↦ rw (free, running) (Restored-refl s)
        | inr fresh ↦ rw (free, fresh) (run_job-Restored w hash bytes threshold s w.generator fresh)
      ]
    ]

-- However a local generation ends, its job is out of the table again and no other job has been
-- touched, and at most one slot is still taken.
pub generate_local_work-Restored :
    (w : World) (params : Value) (s : AppState) → Restored s (generate_local_work w params s).1
unfolding generate_local_work
generate_local_work-Restored w params s = run_prepared-Restored w s (prepare w params)

has_job-drop_job :
    (hash : List ℕ) (jobs : List (List ℕ)) → has_job hash (drop_job hash jobs) ≡ false
unfolding has_job drop_job
has_job-drop_job hash [] = refl
has_job-drop_job hash (j ∷ js) = ground (arith, has_job-drop_job hash js)

-- With local work, when one of the generations of a hash at a peer is over, a cancellation of that
-- hash goes to no peer, although another generation of it may have been there before and still run:
-- the caller is told of success, and only a local job of the hash is cancelled.
pub cancel_work-generate_remote :
    (config : Config) (w later : World) (hash : List ℕ) (params cancel : Value) (s : AppState)
    → is_remote config.work_provider ≡ false
    → cancel_work config later hash cancel (generate_remote w hash params s).1 ≡ (
      ok success_object,
      record (generate_remote w hash params s).1 {
        local_work_jobs = cancel_local_job hash s.local_work_jobs;
      },
    )
unfolding drop_job
cancel_work-generate_remote config w later hash params cancel s h =
    let gone = has_job-drop_job hash (hash ∷ s.remote_work_jobs) in rw (h, gone) refl
