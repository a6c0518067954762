-- ===== src/Daemon/Offline.antt =====
-- internal/agent/operations_handler.go: a result that cannot be posted is kept.
use askio_agent.Base.{
  ℕ, List, String, Bool, true, ◌≡◌, refl, Option, none, some, lookup, lookup-insert, eq_refl,
  if◌then◌else◌,
}
use askio_agent.Base.Action.{Outcome, Ensures, done, fail, Action, pure, modify, is_error, ◌>>=◌}
use askio_agent.Base.Action.Returns.{
  Returns, Always, Returns-bind, Returns-after, Returns-pure, Returns-split, returned,
}
use askio_agent.Remediation.Machine.{Machine, Executor}
use askio_agent.Operations.Data.{PendingAction, AgentResult, Verdict}
use askio_agent.Operations.Handlers.{Handler}
use askio_agent.Operations.Runner.{execute, conclude}
use askio_agent.Daemon.{
  Server, Config, Desk, on_host, lift_outcome, request, persisted_run_key, store_result,
  run_and_post,
}

-- The server cannot be reached, and the store can be written.
pub record IsOffline {World : Type 0} (server : Server World) : Type 0 where
  pub unreachable : (r : AgentResult) (w : World) → is_error (server.post r w).0 ≡ true
  pub writable : (key : String) (w : World) → (server.can_write key w).0 ≡ true

-- A result of the run waits in the cache.
pub record IsWaiting {World : Type 0} (a : PendingAction) (d : Desk World) : Type 0 where
  pub result : AgentResult
  pub cached : lookup (persisted_run_key a.run_id) d.cache ≡ some result
  pub own : result.run_id ≡ a.run_id

module _ {World : Type 0} (m : Machine World) (e : Executor) where
  run_id-conclude :
      (server : String) (a : PendingAction) (limit started : ℕ) (overdue : Bool) (finished : ℕ)
      (v : Option Verdict)
      → (conclude m e server a limit started overdue finished v).run_id ≡ a.run_id
  unfolding conclude
  run_id-conclude server a limit started overdue finished none = refl
  run_id-conclude server a limit started overdue finished (some v) = refl

  run_id-execute :
      (server : String) (registry : List (String × Handler)) (a : PendingAction)
      → Returns Always (λ r _. r.run_id ≡ a.run_id) (execute m e server registry a)
  unfolding execute
  run_id-execute server registry a = Returns-after _ _ (λ started. Returns-after _ _ (λ verdict.
      Returns-after _ _ (λ overdue. Returns-after _ _ (λ finished.
        Returns-pure _ (λ w u. run_id-conclude server a _ started overdue finished verdict)))))

lift-Ensures :
    {World A : Type 0} (Q : A → Type 0) (cache : List (String × AgentResult)) (o : Outcome World A)
    → Ensures (λ r _. Q r) (λ _ _. Unit {0}) o
    → Ensures {S = Desk World} (λ r _. Q r) (λ _ _. Unit {0}) (lift_outcome cache o)
unfolding lift_outcome
lift-Ensures Q cache (done r w) h = h
lift-Ensures Q cache (fail x w) h = tt

module _ {World A : Type 0} {Q : A → Type 0} where
  Returns-on_host :
      (act : Action World A)
      → Returns Always (λ r _. Q r) act
      → Returns Always (λ r _. Q r) (on_host act)
  unfolding on_host
  Returns-on_host act r = record {
    at = λ d u. lift-Ensures Q d.cache (act d.world) (r.at d.world tt);
  }

module _ {World : Type 0} (m : Machine World) (server : Server World) (c : Config)
    (a : PendingAction) (off : IsOffline server) where
  Returns-store_result :
      (r : AgentResult)
      → r.run_id ≡ a.run_id
      → Returns Always
          (λ _ d. IsWaiting a d)
          (store_result m server c (persisted_run_key a.run_id) r)
  unfolding store_result request modify
  Returns-store_result r own =
      Returns-bind {Q = λ w _. w ≡ true} _ _ (record { at = λ d u. off.writable _ d.world })
        (λ w.
          Returns-split w _ _
            (λ yes. record {
              at = λ d h. record {
                result = r;
                cached = rw (lookup-insert, eq_refl) refl;
                own = own;
              };
            })
            (λ refused. record { at = λ d h. absurd cc }))

  Returns-keep :
      (r : AgentResult)
      → r.run_id ≡ a.run_id
      → Returns Always
          (λ _ d. IsWaiting a d)
          (do
            failed ← request (server.post r)
            if is_error failed
                then store_result m server c (persisted_run_key a.run_id) r
                else pure tt)
  unfolding request
  Returns-keep r own =
      Returns-bind {Q = λ f _. is_error f ≡ true} _ _
        (record { at = λ d u. off.unreachable r d.world })
        (λ f.
          Returns-split (is_error f) _ _
            (λ yes. record { at = λ d h. (Returns-store_result r own).at d tt })
            (λ posted. record { at = λ d h. absurd cc }))

  -- When the server cannot be reached and the store can be written, a result of the run waits in the
  -- cache after an action was run and the handler returns.
  pub run_and_post-IsWaiting :
      (d t : Desk World) → run_and_post m server c a d ≡ done tt t → IsWaiting a t
  unfolding run_and_post
  run_and_post-IsWaiting d t ran =
      returned {P = Always} {Q = λ _ d. IsWaiting a d} _ d tt t
        (Returns-after _ _ (λ e.
          Returns-bind {Q = λ r _. r.run_id ≡ a.run_id} _ _
            (Returns-on_host {Q = λ r. r.run_id ≡ a.run_id} _ (run_id-execute m e c.server_id _ a))
            (λ r. record { at = λ s own. (Returns-keep r own).at s tt })))
        tt ran
