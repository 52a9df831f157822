-- ===== src/Lifecycle/Worker.antt =====
-- Service.process and Service.carryOut of api/internal/compute/worker.go.
use shake_cloud.Prelude.{
  length, leb, ℕ, ◌+◌, ℤ, Bool, true, false, ◌||◌, Option, none, some, List, [], ◌++◌, ltb,
  if◌then◌else◌, take, codes,
}
use shake_cloud.Db.Instance.{
  State, running, stopped, terminated, Action, launch, start, stop, reboot, terminate, Instance,
  same_action,
}
use shake_cloud.Db.Instances.{
  Rows, finish_action, release_lease, retry_later, abandon_launch, give_up_action,
}
use shake_cloud.Lifecycle.Backoff.{backoff, add_duration}

-- The power commands of the hypervisor that actions use.
pub data Power : Type 0 where
  power_start power_shutdown power_reboot power_reset : Power

-- What carrying an action out does to the world, with the text of the error on failure.
pub record Effects : Type 0 where
  pub launch_vm : Instance → Option (List ℕ)
  pub power : Instance → Power → Option (List ℕ)
  pub terminate_vm : Instance → Option (List ℕ)

pub data Outcome : Type 0 where
  done : State → Outcome
  fault : List ℕ → Outcome

abbrev outcome_of : State → Option (List ℕ) → Outcome
outcome_of s none = done s
outcome_of s (some message) = fault message

-- A reboot that fails is followed by a reset.
abbrev or_reset : Effects → Instance → Option (List ℕ) → Outcome
or_reset fx i none = done running
or_reset fx i (some message) = outcome_of running (fx.power i power_reset)

abbrev carry_out_action : Effects → Instance → Option Action → Outcome
carry_out_action fx i (some launch) = outcome_of running (fx.launch_vm i)
carry_out_action fx i (some start) = outcome_of running (fx.power i power_start)
carry_out_action fx i (some stop) = outcome_of stopped (fx.power i power_shutdown)
carry_out_action fx i (some reboot) = or_reset fx i (fx.power i power_reboot)
carry_out_action fx i (some terminate) = outcome_of terminated (fx.terminate_vm i)
carry_out_action fx i none = fault (codes "unknown action \"\"")

unfoldable pub carry_out : Effects → Instance → Outcome
carry_out fx i = carry_out_action fx i i.pending_action

unfoldable pub truncate : List ℕ → ℕ → List ℕ
truncate s n = if leb (length s) n then s else take n s

-- Which of the worker and the ledger sync were woken.
pub record Wakes : Type 0 where
  pub worker : Bool
  pub ledger : Bool

abbrev pub quiet : Wakes
quiet = record { worker = false; ledger = false }

-- The part of the service that the worker reads, and the two clocks: the database's `now` and
-- the server's `clock`.
pub record Setting : Type 0 where
  pub max_attempts : ℕ
  pub retry_delay : ℕ
  pub overflow : ℕ → ℤ
  pub now : ℕ
  pub clock : ℕ
  pub cancelled : Bool  -- ctx.Err() != nil

abbrev pub record_done : Setting → Instance → Bool × Rows → Rows × Wakes
record_done c i (true, rows) = (rows, record { worker = false; ledger = true })
record_done c i (false, rows) = (rows, record { worker = true; ledger = false })

abbrev pub give_up : Setting → Instance → List ℕ → Option Action → Rows → Rows × Wakes
give_up c i reason (some launch) rows =
    (abandon_launch c.now i.id reason rows, record { worker = true; ledger = false })
give_up c i reason (some start) rows =
    (give_up_action c.now i.id (some start) stopped reason rows, quiet)
give_up c i reason action rows = (give_up_action c.now i.id action running reason rows, quiet)

abbrev pub kept_reason : Instance → List ℕ
kept_reason i = if same_action i.pending_action (some terminate) then i.state_reason else []

abbrev pub may_retry : Setting → Instance → Bool
may_retry c i = ltb (i.attempts + 1) c.max_attempts || same_action i.pending_action (some terminate)

-- `i` is the instance as it was claimed.
unfoldable pub process : Setting → Instance → Outcome → Rows → Rows × Wakes
unfolding truncate
process c i (done state) rows =
    record_done c i (finish_action c.now i.id i.pending_action state (kept_reason i) rows)
process c i (fault text) rows =
    let message = truncate text 500 in
    if c.cancelled
    then (release_lease i.id rows, quiet)
    else if may_retry c i
    then (
      retry_later c.now i.id i.pending_action message
          (add_duration c.clock (backoff c.overflow c.retry_delay (i.attempts + 1))) rows,
      quiet,
    )
    else give_up c i (codes "Server.InternalError: " ++ message) i.pending_action rows
