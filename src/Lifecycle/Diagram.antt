-- ===== src/Lifecycle/Diagram.antt =====
-- The diagram that the states and pending actions of one instance follow, and what follows from
-- it alone. The modules Evolves, RequestSteps and
-- WorkerSteps show that the operations follow it.
use shake_cloud.Prelude.{◌≡◌, ◌≢◌, ◌⊎◌, inl, inr, refl, Option, none, some, arith}
use shake_cloud.Db.Instance.{
  State, pending, running, stopping, stopped, shutting_down, terminated, Action, launch, start,
  stop, reboot, terminate, Instance,
}

-- Where a finished action leaves an instance, and where one that is given up does.
abbrev pub target : Action → State
target launch = running
target start = running
target stop = stopped
target reboot = running
target terminate = terminated

abbrev pub fallback : Action → State
fallback start = stopped
fallback _ = running

-- The states that an instance with this pending action may be in.
abbrev pub Fits : State → Option Action → Type 0
Fits pending (some launch) = Unit
Fits pending (some start) = Unit
Fits running none = Unit
Fits running (some reboot) = Unit
Fits stopping (some stop) = Unit
Fits stopped none = Unit
Fits shutting_down (some terminate) = Unit
Fits terminated none = Unit
Fits _ _ = ⊥

abbrev pub IsConsistent : Instance → Type 0
IsConsistent i = Fits i.state i.pending_action

abbrev pub IsSettled : State → Type 0
IsSettled s = (s ≡ running) ⊎ (s ≡ stopped)

-- One edge of the diagram, from the row `i` to the row `j`.
pub data Moves (i j : Instance) : Type 0 where
  same : j.state ≡ i.state → j.pending_action ≡ i.pending_action → Moves i j
  ask_terminate :
      i.state ≢ terminated
      → i.pending_action ≢ some terminate
      → j.state ≡ shutting_down
      → j.pending_action ≡ some terminate
      → Moves i j
  ask_stop :
      i.state ≡ running
      → i.pending_action ≡ none
      → j.state ≡ stopping
      → j.pending_action ≡ some stop
      → Moves i j
  ask_start :
      i.state ≡ stopped
      → i.pending_action ≡ none
      → j.state ≡ pending
      → j.pending_action ≡ some start
      → Moves i j
  ask_reboot :
      i.state ≡ running
      → i.pending_action ≡ none
      → j.state ≡ running
      → j.pending_action ≡ some reboot
      → Moves i j
  finish :
      (a : Action)
      → i.pending_action ≡ some a
      → j.state ≡ target a
      → j.pending_action ≡ none
      → Moves i j
  abandon :
      i.pending_action ≡ some launch
      → j.state ≡ shutting_down
      → j.pending_action ≡ some terminate
      → Moves i j
  give_up :
      (a : Action)
      → i.pending_action ≡ some a
      → a ≢ launch
      → a ≢ terminate
      → j.state ≡ fallback a
      → j.pending_action ≡ none
      → Moves i j
  observe :
      IsSettled i.state
      → i.pending_action ≡ none
      → IsSettled j.state
      → j.pending_action ≡ none
      → Moves i j

ask_cases : (a : Action) → a ≢ launch → a ≢ terminate → Fits (fallback a) none
ask_cases launch n m = absurd (n refl)
ask_cases terminate n m = absurd (m refl)
ask_cases start n m = tt
ask_cases stop n m = tt
ask_cases reboot n m = tt

target-Fits : (a : Action) → Fits (target a) none
target-Fits launch = tt
target-Fits start = tt
target-Fits stop = tt
target-Fits reboot = tt
target-Fits terminate = tt

-- Every edge keeps the state and the pending action consistent.
pub Moves-IsConsistent : (i j : Instance) → Moves i j → IsConsistent i → IsConsistent j
Moves-IsConsistent i j (same p q) h = rw (p, q) h
Moves-IsConsistent i j (ask_terminate a b p q) h = rw (p, q) tt
Moves-IsConsistent i j (ask_stop a b p q) h = rw (p, q) tt
Moves-IsConsistent i j (ask_start a b p q) h = rw (p, q) tt
Moves-IsConsistent i j (ask_reboot a b p q) h = rw (p, q) tt
Moves-IsConsistent i j (finish a e p q) h = rw (p, q) (target-Fits a)
Moves-IsConsistent i j (abandon e p q) h = rw (p, q) tt
Moves-IsConsistent i j (give_up a e n m p q) h = rw (p, q) (ask_cases a n m)
Moves-IsConsistent i j (observe s e (inl p) q) h = rw (p, q) tt
Moves-IsConsistent i j (observe s e (inr p) q) h = rw (p, q) tt

-- An instance that is on its way out, or gone.
abbrev pub IsDoomed : Instance → Type 0
IsDoomed i =
    ((i.state ≡ shutting_down) × (i.pending_action ≡ some terminate))
    ⊎ ((i.state ≡ terminated) × (i.pending_action ≡ none))

-- A terminate is never lost: a doomed instance stays doomed.
pub Moves-IsDoomed : (i j : Instance) → Moves i j → IsDoomed i → IsDoomed j
Moves-IsDoomed i j (same p q) h = grind arith
Moves-IsDoomed i j (ask_terminate a b p q) h = grind arith
Moves-IsDoomed i j (ask_stop a b p q) h = grind arith
Moves-IsDoomed i j (ask_start a b p q) h = grind arith
Moves-IsDoomed i j (ask_reboot a b p q) h = grind arith
Moves-IsDoomed i j (finish a e p q) h = grind arith
Moves-IsDoomed i j (abandon e p q) h = grind arith
Moves-IsDoomed i j (give_up a e n m p q) h = grind arith
Moves-IsDoomed i j (observe s e t q) h = grind arith

-- A terminated instance stays as it is.
pub Moves-terminated :
    (i j : Instance)
    → Moves i j
    → i.state ≡ terminated
    → i.pending_action ≡ none
    → (j.state ≡ terminated) × (j.pending_action ≡ none)
Moves-terminated i j (same p q) h n = grind arith
Moves-terminated i j (ask_terminate a b p q) h n = absurd (a h)
Moves-terminated i j (ask_stop a b p q) h n = grind arith
Moves-terminated i j (ask_start a b p q) h n = grind arith
Moves-terminated i j (ask_reboot a b p q) h n = grind arith
Moves-terminated i j (finish a e p q) h n = grind arith
Moves-terminated i j (abandon e p q) h n = grind arith
Moves-terminated i j (give_up a e m l p q) h n = grind arith
Moves-terminated i j (observe s e t q) h n = grind arith
