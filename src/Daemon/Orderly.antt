-- ===== src/Daemon/Orderly.antt =====
-- internal/daemon/daemon.go: the end of the daemon by the end of its context.
use fuse_stream_mvp.Base.{
  subst, sym, ap, ◌∙◌, ℕ, ◌≡◌, ◌≢◌, refl, Bool, not, either, either_of, true, false, Option, some,
  List, [], ◌∷◌, arith, ◌==◌, if◌then◌else◌, inl, inr, Option-cases,
}
use fuse_stream_mvp.Base.Maps.{Map, get, put, get-put, nat_eq}
use fuse_stream_mvp.Daemon.{
  Worker, waiting, stopping, ended, Instance, Process, new_process, start, cancel, worker_stops,
  close_complete, worker_returns, stop_fs, new_instance, worker_ends, unmount_fs, Move, starts,
  context_ends, stops, ends, unmounts, shuts_down, step, run,
}

abbrev pub NoShutdown : List Move → Type 0
NoShutdown [] = Unit {0}
NoShutdown (shuts_down ∷ ms) = ⊥
NoShutdown (_ ∷ ms) = NoShutdown ms

-- At most one daemon, the one that Shutdown would stop; its channel is closed exactly when its
-- goroutine has returned, which it does only behind the end of the context; nothing has panicked.
pub record IsOrderly (p : Process) : Type 0 where
  pub safe : p.crashed ≡ false
  pub one : (i : ℕ) (d : Instance) → get i p.instances ≡ some d → p.instance_id ≡ some i
  pub complete :
      (i : ℕ) (d : Instance)
      → get i p.instances ≡ some d
      → d.worker ≡ ended
      → d.shutdown_complete ≡ true
  pub ended_only :
      (i : ℕ) (d : Instance)
      → get i p.instances ≡ some d
      → d.shutdown_complete ≡ true
      → d.worker ≡ ended
  pub stopped :
      (i : ℕ) (d : Instance) → get i p.instances ≡ some d → d.worker ≢ waiting → d.cancelled ≡ true

-- An instance that changes, and stays in order.
change-IsOrderly :
    (i : ℕ) (d d' : Instance) (m : Map ℕ Instance) (p : Process)
    → IsOrderly p
    → get i p.instances ≡ some d
    → ((j : ℕ) → get j m ≡ (if i == j then some d' else get j p.instances))
    → (d'.worker ≡ ended → d'.shutdown_complete ≡ true)
    → (d'.shutdown_complete ≡ true → d'.worker ≡ ended)
    → (d'.worker ≢ waiting → d'.cancelled ≡ true)
    → IsOrderly (record p { instances = m })
change-IsOrderly i d d' m p v e at a b c = record {
  safe = v.safe;
  one = λ j x f. ground (arith, at j, v.one j x, v.one i d e);
  complete = λ j x f. ground (arith, at j, v.complete j x);
  ended_only = λ j x f. ground (arith, at j, v.ended_only j x);
  stopped = λ j x f. ground (arith, at j, v.stopped j x);
}

put-IsOrderly :
    (i : ℕ) (d d' : Instance) (p : Process)
    → IsOrderly p
    → get i p.instances ≡ some d
    → (d'.worker ≡ ended → d'.shutdown_complete ≡ true)
    → (d'.shutdown_complete ≡ true → d'.worker ≡ ended)
    → (d'.worker ≢ waiting → d'.cancelled ≡ true)
    → IsOrderly (record p { instances = put i d' p.instances })
put-IsOrderly i d d' p v e =
    change-IsOrderly i d d' (put i d' p.instances) p v e (λ j. get-put j i d' p.instances)

by_worker :
    (P : Process → Type 0) (w : Worker) {a b c : Process}
    → (w ≡ waiting → P a)
    → (w ≡ stopping → P b)
    → (w ≡ ended → P c)
    → P (elim w [ waiting ↦ a | stopping ↦ b | ended ↦ c ])
by_worker P waiting f g h = f refl
by_worker P stopping f g h = g refl
by_worker P ended f g h = h refl

stop_fs_keeps :
    (works : Bool) (d : Instance)
    → ((stop_fs works d).worker ≡ d.worker)
      × ((stop_fs works d).shutdown_complete ≡ d.shutdown_complete)
      × ((stop_fs works d).cancelled ≡ d.cancelled)
stop_fs_keeps true d = (refl, refl, refl)
stop_fs_keeps false d = (refl, refl, refl)

cancel-IsOrderly : (i : ℕ) (p : Process) → IsOrderly p → IsOrderly (cancel i p)
unfolding cancel
cancel-IsOrderly i p v = elim (Option-cases (get i p.instances)) [
  | inl missing ↦ rw (missing, cancel) v
  | inr (d, e) ↦
      rw (e, cancel)
        (put-IsOrderly i d (record d { cancelled = true }) p v e (v.complete i d e)
          (v.ended_only i d e) (λ w. refl))
]

worker_stops-IsOrderly :
    (works : Bool) (i : ℕ) (p : Process) → IsOrderly p → IsOrderly (worker_stops works i p)
unfolding worker_stops
worker_stops-IsOrderly works i p v = elim (Option-cases (get i p.instances)) [
  | inl missing ↦ rw (missing, worker_stops) v
  | inr (d, e) ↦
      rw (e, worker_stops)
        (by_worker IsOrderly d.worker
          (λ w.
            either_of IsOrderly d.cancelled
              (λ c.
                put-IsOrderly i d (record (stop_fs works d) { worker = stopping }) p v e
                  (λ x. absurd (ground arith))
                  (λ x. absurd (ground (arith, stop_fs_keeps works d, v.ended_only i d e)))
                  (λ x. ground (arith, stop_fs_keeps works d)))
              (λ c. v))
          (λ w. v) (λ w. v))
]

unmount_fs-IsOrderly : (works : Bool) (p : Process) → IsOrderly p → IsOrderly (unmount_fs works p)
unfolding unmount_fs
unmount_fs-IsOrderly works p v = elim (Option-cases p.instance_id) [
  | inl nothing ↦ simp (nothing, unmount_fs) v
  | inr (i, is) ↦ elim (Option-cases (get i p.instances)) [
    | inl missing ↦ simp (is, missing, unmount_fs) v
    | inr (d, e) ↦
        simp (is, e, unmount_fs)
          (subst
            (λ o.
              IsOrderly
                (record p { instance_id = o; instances = put i (stop_fs works d) p.instances }))
            is
            (put-IsOrderly i d (stop_fs works d) p v e
              (ground (arith, stop_fs_keeps works d, v.complete i d e))
              (ground (arith, stop_fs_keeps works d, v.ended_only i d e))
              (ground (arith, stop_fs_keeps works d, v.stopped i d e))))
  ]
]

-- A new instance stands alone.
start-IsOrderly :
    (makes works : Bool) (p : Process) → IsOrderly p → IsOrderly (start makes works p).0
unfolding start
start-IsOrderly makes works p v = elim (Option-cases p.instance_id) [
  | inr (i, is) ↦ simp (is, start) v
  | inl nothing ↦
      simp (nothing, start)
        (either (λ (r : Process × Bool). IsOrderly r.0) (not makes) v
          (either (λ (r : Process × Bool). IsOrderly r.0) (not works) v
            (record {
              safe = v.safe;
              one = λ j x f. ground (arith, get-put j p.next new_instance p.instances, v.one j x);
              complete = λ j x f.
                  ground (arith, get-put j p.next new_instance p.instances, v.complete j x);
              ended_only = λ j x f.
                  ground (arith, get-put j p.next new_instance p.instances, v.ended_only j x);
              stopped =
                  λ j x f. ground (arith, get-put j p.next new_instance p.instances, v.stopped j x);
            })))
]

abbrev one_more : Option ℕ → Map ℕ Instance → Process → Process
one_more o m p = record p { instance_id = o; instances = m }

-- The channel is that of the goroutine's own daemon.
close_complete_one :
    (i : ℕ) (d : Instance) (p : Process)
    → p.instance_id ≡ some i
    → get i p.instances ≡ some d
    → d.shutdown_complete ≡ false
    → close_complete p
      ≡ record p { instances = put i (record d { shutdown_complete = true }) p.instances }
unfolding close_complete
close_complete_one i d p is e fresh =
    let closed : Instance = record d { shutdown_complete = true } in
    let m = put i closed p.instances in
    rw (is, close_complete, e, fresh) (ap (λ o. one_more o m p) is)

worker_returns_one :
    (i : ℕ) (d : Instance) (p : Process)
    → get i p.instances ≡ some d
    → worker_returns i p ≡ record p { instances = put i (record d { worker = ended }) p.instances }
unfolding worker_returns
worker_returns_one i d p e = rw (e, worker_returns) refl

end_one-IsOrderly :
    (i : ℕ) (d : Instance) (p : Process)
    → IsOrderly p
    → get i p.instances ≡ some d
    → d.worker ≡ stopping
    → IsOrderly (worker_returns i (close_complete p))
end_one-IsOrderly i d p v e w =
    let fresh : d.shutdown_complete ≡ false = ground (arith, v.ended_only i d e) in
    let closed : Instance = record d { shutdown_complete = true } in
    let m = put i closed p.instances in
    let there : get i m ≡ some closed = ground (arith, get-put i i closed p.instances) in
    let returned : Instance = record closed { worker = ended } in
    subst IsOrderly
      (sym (
        ap (worker_returns i) (close_complete_one i d p (v.one i d e) e fresh)
        ∙ worker_returns_one i closed (record p { instances = m }) there))
      (change-IsOrderly i d returned (put i returned m) p v e
        (λ j. ground (arith, get-put j i returned m, get-put j i closed p.instances)) (λ x. refl)
        (λ x. refl) (λ x. v.stopped i d e (ground arith)))

worker_ends-IsOrderly : (i : ℕ) (p : Process) → IsOrderly p → IsOrderly (worker_ends i p)
unfolding worker_ends
worker_ends-IsOrderly i p v = elim (Option-cases (get i p.instances)) [
  | inl missing ↦ rw (missing, worker_ends) v
  | inr (d, e) ↦
      rw (e, worker_ends)
        (by_worker IsOrderly d.worker (λ w. v) (λ w. end_one-IsOrderly i d p v e w) (λ w. v))
]

step-IsOrderly : (m : Move) (p : Process) → NoShutdown (m ∷ []) → IsOrderly p → IsOrderly (step m p)
unfolding step
step-IsOrderly (starts makes works) p n v = start-IsOrderly makes works p v
step-IsOrderly (context_ends i) p n v = cancel-IsOrderly i p v
step-IsOrderly (stops works i) p n v = worker_stops-IsOrderly works i p v
step-IsOrderly (ends i) p n v = worker_ends-IsOrderly i p v
step-IsOrderly (unmounts works) p n v = unmount_fs-IsOrderly works p v
step-IsOrderly shuts_down p n v = absurd n

run-IsOrderly_from :
    (ms : List Move) (p : Process) → NoShutdown ms → IsOrderly p → IsOrderly (run ms p)
unfolding run
run-IsOrderly_from [] p n v = v
run-IsOrderly_from (shuts_down ∷ ms) p n v = absurd n
run-IsOrderly_from (starts a b ∷ ms) p n v =
    run-IsOrderly_from ms _ n (step-IsOrderly (starts a b) p _ v)
run-IsOrderly_from (context_ends i ∷ ms) p n v =
    run-IsOrderly_from ms _ n (step-IsOrderly (context_ends i) p _ v)
run-IsOrderly_from (stops b i ∷ ms) p n v =
    run-IsOrderly_from ms _ n (step-IsOrderly (stops b i) p _ v)
run-IsOrderly_from (ends i ∷ ms) p n v = run-IsOrderly_from ms _ n (step-IsOrderly (ends i) p _ v)
run-IsOrderly_from (unmounts b ∷ ms) p n v =
    run-IsOrderly_from ms _ n (step-IsOrderly (unmounts b) p _ v)

new_process-IsOrderly : IsOrderly new_process
unfolding get
new_process-IsOrderly = record {
  safe = refl;
  one = λ i d e. absurd (ground arith);
  complete = λ i d e. absurd (ground arith);
  ended_only = λ i d e. absurd (ground arith);
  stopped = λ i d e. absurd (ground arith);
}

-- While nobody calls Shutdown, whatever else is called and in whatever order the goroutine runs: there is
-- at most one daemon, the current one; its channel is closed exactly when its goroutine has returned,
-- which has left its wait only after the end of the context; and nothing panics.
pub run-IsOrderly : (ms : List Move) → NoShutdown ms → IsOrderly (run ms new_process)
run-IsOrderly ms n = run-IsOrderly_from ms new_process n new_process-IsOrderly
