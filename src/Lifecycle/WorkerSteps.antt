-- ===== src/Lifecycle/WorkerSteps.antt =====
-- The worker follows the diagram (Service.process of api/internal/compute/worker.go).
use shake_cloud.Prelude.{
  ℕ, ◌≡◌, ◌≢◌, inl, inr, refl, Bool, true, false, Option, none, some, List, Bool-cases, arith,
}
use shake_cloud.Db.Instance.{
  State, running, stopped, Action, launch, start, stop, reboot, terminate, Instance,
}
use shake_cloud.Db.Instances.{Rows}
use shake_cloud.Lifecycle.Worker.{
  Setting, Effects, Outcome, done, fault, carry_out, process, may_retry, kept_reason, record_done,
  give_up,
}
use shake_cloud.Lifecycle.Diagram.{target}
use shake_cloud.Lifecycle.Evolves.{
  Evolves, release_lease-Evolves, finish_action-Evolves, abandon_launch-Evolves,
  give_up_action-Evolves, retry_later-Evolves,
}

pub record_done-rows : (c : Setting) (i : Instance) (p : Bool × Rows) → (record_done c i p).0 ≡ p.1
record_done-rows c i (true, rows) = refl
record_done-rows c i (false, rows) = refl

pub carry_out-target :
    (fx : Effects) (i : Instance) {s : State}
    → carry_out fx i ≡ done s
    → (c : Action) → i.pending_action ≡ some c
    → s ≡ target c
unfolding carry_out
carry_out-target fx i h launch e = ground arith
carry_out-target fx i h start e = ground arith
carry_out-target fx i h stop e = ground arith
carry_out-target fx i h reboot e = ground arith
carry_out-target fx i h terminate e = ground arith

pub may_retry-terminate :
    (c : Setting) (i : Instance) → may_retry c i ≡ false → i.pending_action ≢ some terminate
may_retry-terminate c i h e = ground arith

give_up-Evolves :
    (c : Setting) (i : Instance) (reason : List ℕ) (a : Option Action) (rows : Rows)
    → a ≢ some terminate
    → Evolves rows (give_up c i reason a rows).0
give_up-Evolves c i reason (some launch) rows h = abandon_launch-Evolves c.now i.id reason rows
give_up-Evolves c i reason (some start) rows h =
    give_up_action-Evolves c.now i.id (some start) stopped reason rows λ a e. grind arith
give_up-Evolves c i reason (some stop) rows h =
    give_up_action-Evolves c.now i.id (some stop) running reason rows λ a e. grind arith
give_up-Evolves c i reason (some reboot) rows h =
    give_up_action-Evolves c.now i.id (some reboot) running reason rows λ a e. grind arith
give_up-Evolves c i reason (some terminate) rows h = absurd (h refl)
give_up-Evolves c i reason none rows h =
    give_up_action-Evolves c.now i.id none running reason rows λ a e. grind arith

fault-Evolves :
    (c : Setting) (i : Instance) (text : List ℕ) (rows : Rows)
    → Evolves rows (process c i (fault text) rows).0
unfolding process
fault-Evolves c i text rows = elim (Bool-cases c.cancelled) [
  | inl e ↦ simp e (release_lease-Evolves i.id rows)
  | inr e ↦ simp e (elim (Bool-cases (may_retry c i)) [
    | inl r ↦ rw r (retry_later-Evolves _ _ _ _ _ rows)
    | inr r ↦ rw r (give_up-Evolves c i _ i.pending_action rows (may_retry-terminate c i r))
  ])
]

outcome-Evolves :
    (c : Setting) (i : Instance) (o : Outcome) (rows : Rows)
    → ((s : State) → o ≡ done s → (a : Action) → i.pending_action ≡ some a → s ≡ target a)
    → Evolves rows (process c i o rows).0
unfolding process
outcome-Evolves c i (done s) rows h =
    rw record_done-rows
      (finish_action-Evolves c.now i.id i.pending_action s (kept_reason i) rows (h s refl))
outcome-Evolves c i (fault text) rows h = fault-Evolves c i text rows

-- However an action ends, and however old the claimed row is, each row moves along the diagram.
pub process-Evolves :
    (c : Setting) (fx : Effects) (i : Instance) (rows : Rows)
    → Evolves rows (process c i (carry_out fx i) rows).0
process-Evolves c fx i rows =
    outcome-Evolves c i (carry_out fx i) rows (λ s e. carry_out-target fx i e)
