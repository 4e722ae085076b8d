-- ===== src/Daemon.antt =====
-- internal/daemon/daemon.go: the one file system of the process, and the goroutine that stops it.
--
-- A move is a call, the end of a context, or a step of the goroutine that Start leaves behind. Each
-- daemon has a number; `crashed` says that a goroutine has panicked, which ends the process.
pub mod Orderly
use fuse_stream_mvp.Base.{
  ℕ, ◌+◌, Bool, true, false, Option, none, some, List, [], ◌∷◌, if◌then◌else◌, not,
}
use fuse_stream_mvp.Base.Maps.{Map, get, put, nat_eq}

-- The goroutine: before the end of the context, behind Stop, or returned.
pub data Worker : Type 0 where
  waiting stopping ended : Worker

pub record Instance : Type 0 where
  pub fs_up : Bool
  pub cancelled : Bool
  pub shutdown_complete : Bool
  pub worker : Worker

pub record Process : Type 0 where
  pub instance_id : Option ℕ
  pub instances : Map ℕ Instance
  pub next : ℕ
  pub crashed : Bool

abbrev pub new_process : Process
new_process = record { instance_id = none; instances = []; next = 0; crashed = false }

abbrev pub new_instance : Instance
new_instance = record {
  fs_up = true;
  cancelled = false;
  shutdown_complete = false;
  worker = waiting;
}

-- Start: `makes` and `starts` say whether the mountpoint can be made and the file system starts.
unfoldable pub start : Bool → Bool → Process → Process × Bool
start makes starts p = elim p.instance_id [
  | some i ↦ (p, false)
  | none ↦ if not makes then (p, false) else if not starts then (p, false) else (
    record p {
      instance_id = some p.next;
      instances = put p.next new_instance p.instances;
      next = p.next + 1;
    },
    true,
  )
]

unfoldable pub cancel : ℕ → Process → Process
cancel i p = elim (get i p.instances) [
  | none ↦ p
  | some d ↦ record p { instances = put i (record d { cancelled = true }) p.instances }
]

unfoldable pub shutdown : Process → Process
shutdown p = elim p.instance_id [ none ↦ p | some i ↦ record (cancel i p) { instance_id = none } ]

-- `filesystem.Stop()`, which may fail.
abbrev pub stop_fs : Bool → Instance → Instance
stop_fs stops d = if stops then record d { fs_up = false } else d

-- The goroutine of instance `i`, up to the end of Stop.
unfoldable pub worker_stops : Bool → ℕ → Process → Process
worker_stops stops i p = elim (get i p.instances) [
  | none ↦ p
  | some d ↦ elim d.worker [
    | waiting ↦
        if d.cancelled
        then record p {
          instances = put i (record (stop_fs stops d) { worker = stopping }) p.instances;
        }
        else p
    | _ ↦ p
  ]
]

-- `close(instance.shutdownComplete)` of the instance of this moment, whichever it is.
unfoldable pub close_complete : Process → Process
close_complete p = elim p.instance_id [
  | none ↦ record p { crashed = true }
  | some j ↦ elim (get j p.instances) [
    | none ↦ record p { crashed = true }
    | some d ↦
        if d.shutdown_complete
        then record p { crashed = true }
        else record p { instances = put j (record d { shutdown_complete = true }) p.instances }
  ]
]

unfoldable pub worker_returns : ℕ → Process → Process
worker_returns i p = elim (get i p.instances) [
  | none ↦ p
  | some d ↦ record p { instances = put i (record d { worker = ended }) p.instances }
]

unfoldable pub worker_ends : ℕ → Process → Process
worker_ends i p = elim (get i p.instances) [
  | none ↦ p
  | some d ↦ elim d.worker [ stopping ↦ worker_returns i (close_complete p) | _ ↦ p ]
]

-- True where there is nothing to wait for or the channel is closed; otherwise the wait goes on until it
-- times out.
unfoldable pub wait_for_shutdown : Process → Bool
wait_for_shutdown p = elim p.instance_id [
  | none ↦ true
  | some i ↦ elim (get i p.instances) [ none ↦ true | some d ↦ d.shutdown_complete ]
]

unfoldable pub unmount_fs : Bool → Process → Process
unmount_fs stops p = elim p.instance_id [
  | none ↦ p
  | some i ↦ elim (get i p.instances) [
    | none ↦ p
    | some d ↦ record p { instances = put i (stop_fs stops d) p.instances }
  ]
]

pub data Move : Type 0 where
  starts : Bool → Bool → Move
  context_ends : ℕ → Move
  stops : Bool → ℕ → Move
  ends : ℕ → Move
  unmounts : Bool → Move
  shuts_down : Move

unfoldable pub step : Move → Process → Process
step (starts makes works) p = (start makes works p).0
step (context_ends i) p = cancel i p
step (stops works i) p = worker_stops works i p
step (ends i) p = worker_ends i p
step (unmounts works) p = unmount_fs works p
step shuts_down p = shutdown p

unfoldable pub run : List Move → Process → Process
run [] p = p
run (m ∷ ms) p = run ms (step m p)
