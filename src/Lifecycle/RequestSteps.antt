-- ===== src/Lifecycle/RequestSteps.antt =====
-- Service.Request follows the diagram (api/internal/compute/service.go).
use shake_cloud.Prelude.{
  ℕ, String, ◌≡◌, ◌⊎◌, inl, inr, refl, Bool, true, some, All, All-map, find, Bool-cases, arith,
  subst, sym, ◌&&◌, ◌||◌, not,
}
use shake_cloud.Result.{Result, ok, err, begin_func, >>=-eq-ok, ok-injective}
use shake_cloud.Db.Instance.{
  State, pending, running, stopping, stopped, shutting_down, terminated, Action, launch, start,
  stop, reboot, terminate, Instance, has_id, same_action, state_eq,
}
use shake_cloud.Db.Instances.{Rows, with_action, lock_instance, set_action}
use shake_cloud.Db.Keys.{IsKeyed, find-only}
use shake_cloud.Lifecycle.Request.{request, request_body, request_action, visible, busy}
use shake_cloud.Lifecycle.Diagram.{Moves, ask_terminate, ask_stop, ask_start, ask_reboot}
use shake_cloud.Lifecycle.Evolves.{RowMoves, Evolves, Evolves-refl, update_where-Evolves}

set_action-row :
    (now : ℕ) (k : String) (to : State) (action : Action) (i x : Instance)
    → (has_id k x ≡ true → x ≡ i)
    → ((j : Instance) → j.state ≡ to → j.pending_action ≡ some action → Moves i j)
    → has_id k x ≡ true
    → RowMoves (with_action now to action) x
set_action-row now k to action i x only edge t =
    let j = with_action now to action x in
    (refl, subst (λ y. Moves y j) (sym (only t)) (edge j refl refl))

-- An action that a request records starts an edge from the row that the request read.
set_action-Evolves :
    (now : ℕ) (k : String) (to : State) (action : Action) (rows : Rows) (i : Instance)
    {r : Instance × Rows}
    → All (λ x. has_id k x ≡ true → x ≡ i) rows
    → ((j : Instance) → j.state ≡ to → j.pending_action ≡ some action → Moves i j)
    → set_action now k to action rows ≡ ok r
    → Evolves rows r.1
unfolding set_action
set_action-Evolves now k to action rows i {r} only edge h = subst (Evolves rows) (ground arith) (
    update_where-Evolves (has_id k) (with_action now to action) rows
      (All-map rows (λ x o. set_action-row now k to action i x o edge) only))

abbrev Asks : ℕ → String → Action → Instance → Rows → Instance × Rows → Type 0
Asks now k action i rows r =
    (r ≡ (i, rows))
    ⊎ ((to : State) × (set_action now k to action rows ≡ ok r)
        × ((j : Instance) → j.state ≡ to → j.pending_action ≡ some action → Moves i j))

request_action-Asks :
    (now : ℕ) (k : String) (action : Action) (i : Instance) (rows : Rows) {r : Instance × Rows}
    → request_action now k action i rows ≡ ok r
    → Asks now k action i rows r
unfolding request_action
request_action-Asks now k terminate i rows h =
    elim (Bool-cases
      (state_eq i.state terminated || same_action i.pending_action (some terminate))) [
        | inl e ↦ inl (ground arith)
        | inr e ↦ inr (
          shutting_down,
          ground arith,
          λ j p q. ask_terminate (λ t. ground arith) (λ t. ground arith) p q,
        )
      ]
request_action-Asks now k stop i rows h =
    elim (Bool-cases
      ((state_eq i.state stopped && not (busy i)) || same_action i.pending_action (some stop))) [
        | inl e ↦ inl (ground arith)
        | inr e ↦ inr (stopping, ground arith, λ j p q. ask_stop (ground arith) (ground arith) p q)
      ]
request_action-Asks now k start i rows h =
    elim (Bool-cases
      ((state_eq i.state running && not (busy i)) || same_action i.pending_action (some start))) [
        | inl e ↦ inl (ground arith)
        | inr e ↦ inr (pending, ground arith, λ j p q. ask_start (ground arith) (ground arith) p q)
      ]
request_action-Asks now k reboot i rows h =
    inr (running, ground arith, λ j p q. ask_reboot (ground arith) (ground arith) p q)
request_action-Asks now k launch i rows h = absurd (ground arith)

Asks-Evolves :
    (now : ℕ) (k : String) (action : Action) (rows : Rows) (i : Instance) (r : Instance × Rows)
    → All (λ x. has_id k x ≡ true → x ≡ i) rows
    → Asks now k action i rows r
    → Evolves rows r.1
Asks-Evolves now k action rows i r only (inl e) =
    subst (λ (t : Instance × Rows). Evolves rows t.1) (sym e) (Evolves-refl rows)
Asks-Evolves now k action rows i r only (inr (to, h, edge)) =
    set_action-Evolves now k to action rows i only edge h

pub visible-lock :
    (authorize : Instance → Bool) (k : String) (rows : Rows) {i : Instance}
    → visible authorize (lock_instance k rows) ≡ ok i
    → (find (has_id k) rows ≡ some i) × (authorize i ≡ true)
unfolding lock_instance
visible-lock authorize k rows h = ground arith

request_body-Evolves :
    (now : ℕ) (k : String) (action : Action) (authorize : Instance → Bool)
    (audit : Instance → Result (Unit {0})) (rows : Rows) {r : Instance × Rows}
    → IsKeyed rows
    → request_body now k action authorize audit rows ≡ ok r
    → Evolves rows r.1
unfolding request_body
request_body-Evolves now k action authorize audit rows {r} keyed h =
    let (i, locked, h1) = >>=-eq-ok (visible authorize (lock_instance k rows)) _ h in
    let (c, asked, h2) = >>=-eq-ok (request_action now k action i rows) _ h1 in
    let (u, audited, h3) = >>=-eq-ok (audit c.0) _ h2 in
    subst (λ (t : Instance × Rows). Evolves rows t.1) (ok-injective h3)
      (Asks-Evolves now k action rows i c
        (find-only k rows keyed (visible-lock authorize k rows locked).0)
        (request_action-Asks now k action i rows asked))

begin_func-keeps :
    (P : Rows → Type 0) (rows : Rows) (b : Result (Instance × Rows))
    → ((r : Instance × Rows) → b ≡ ok r → P r.1)
    → P rows
    → P (begin_func rows b).1
begin_func-keeps P rows (ok r) h k = h r refl
begin_func-keeps P rows (err e) h k = k

-- Whatever is asked of an instance, by whomever, each row moves along the diagram.
pub request-Evolves :
    (now : ℕ) (k : String) (action : Action) (authorize : Instance → Bool)
    (audit : Instance → Result (Unit {0})) (rows : Rows)
    → IsKeyed rows
    → Evolves rows (request now k action authorize audit rows).1
unfolding request
request-Evolves now k action authorize audit rows keyed =
    begin_func-keeps (Evolves rows) rows (request_body now k action authorize audit rows)
      (λ r h. request_body-Evolves now k action authorize audit rows keyed h) (Evolves-refl rows)
