-- ===== src/Lifecycle/Request.antt =====
-- Service.Request of api/internal/compute/service.go: terminate, start, stop or reboot.
use shake_cloud.Prelude.{ℕ, String, Bool, ◌&&◌, ◌||◌, not, some, if◌then◌else◌}
use shake_cloud.Result.{
  Err, Result, ok, err, ◌>>=◌, ◌>>◌, refuse, not_found, failed, begin_func, is_ok,
}
use shake_cloud.Db.Instance.{
  pending, running, stopping, stopped, shutting_down, terminated, Action, launch, start, stop,
  reboot, terminate, Instance, state_eq, same_action, is_none,
}
use shake_cloud.Db.Instances.{Rows, lock_instance, set_action}

abbrev pub missing_instance : Err
missing_instance = refuse 404 "InvalidInstanceID.NotFound"

abbrev pub incorrect_state : Err
incorrect_state = refuse 409 "IncorrectInstanceState"

-- An instance that the caller may not touch answers like one that does not exist.
abbrev pub visible : (Instance → Bool) → Result Instance → Result Instance
visible authorize (ok i) = if authorize i then ok i else err missing_instance
visible authorize (err not_found) = err missing_instance
visible authorize (err e) = err e

abbrev pub busy : Instance → Bool
busy i = not (is_none i.pending_action)

-- The `switch action`: an instance that is there already, or on its way, is returned unchanged.
unfoldable pub request_action : ℕ → String → Action → Instance → Rows → Result (Instance × Rows)
request_action now k terminate i rows =
    if state_eq i.state terminated || same_action i.pending_action (some terminate)
    then ok (i, rows)
    else set_action now k shutting_down terminate rows
request_action now k stop i rows =
    if (state_eq i.state stopped && not (busy i)) || same_action i.pending_action (some stop)
    then ok (i, rows)
    else if not (state_eq i.state running) || busy i
    then err incorrect_state
    else set_action now k stopping stop rows
request_action now k start i rows =
    if (state_eq i.state running && not (busy i)) || same_action i.pending_action (some start)
    then ok (i, rows)
    else if not (state_eq i.state stopped) || busy i
    then err incorrect_state
    else set_action now k pending start rows
request_action now k reboot i rows =
    if not (state_eq i.state running) || busy i
    then err incorrect_state
    else set_action now k running reboot rows
request_action now k launch i rows = err (failed "unknown action")

unfoldable pub request_body :
    ℕ
    → String
    → Action
    → (Instance → Bool)
    → (Instance → Result (Unit {0}))
    → Rows
    → Result (Instance × Rows)
request_body now k action authorize audit rows = do
  instance ← visible authorize (lock_instance k rows)
  changed ← request_action now k action instance rows
  audit changed.0
  ok changed

-- The result, the table after the transaction, and whether the worker was woken.
unfoldable pub request :
    ℕ
    → String
    → Action
    → (Instance → Bool)
    → (Instance → Result (Unit {0}))
    → Rows
    → Result Instance × Rows × Bool
unfolding request_body
request now k action authorize audit rows =
    let (result, rows') = begin_func rows (request_body now k action authorize audit rows) in
    (result, rows', is_ok result)
