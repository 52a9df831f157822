-- ===== src/Lifecycle/Examples.antt =====
-- Runs of the worker and of the requests on small tables.
use shake_cloud.Prelude.{
  find, update_where, All, pos, codes, is_text, ℕ, zero, suc, ◌+◌, ◌*◌, ◌≤◌, String, ◌≡◌, refl, ◌≢◌,
  inl, Bool, true, false, Option, none, some, List, [], ◌∷◌, arith,
}
use shake_cloud.Result.{not_found, Result, err, ok}
use shake_cloud.Db.Instance.{
  State, pending, running, stopping, stopped, shutting_down, terminated, Action, launch, start,
  stop, terminate, Instance, has_id,
}
use shake_cloud.Db.Instances.{
  Rows, lock_instance, with_action, set_action, first_of_rows, claim_work, settled_instances,
  observe_state, note_reason,
}
use shake_cloud.Lifecycle.Request.{missing_instance, request_action, request_body, request}
use shake_cloud.Lifecycle.Backoff.{second, backoff, add_duration, amd64, backoff_overflows}
use shake_cloud.Lifecycle.Worker.{Effects, fault, carry_out, truncate, Setting, process}
use shake_cloud.Lifecycle.Diagram.{IsDoomed}
use shake_cloud.Lifecycle.Reach.{Step, Reach, here, next, IsSound, Reach-IsSound}
use shake_cloud.Lifecycle.Fate.{IsDoomed-stays, IsTerminated, IsTerminated-stays}
use shake_cloud.Lifecycle.Asking.{hidden_like_missing, Heads, request-Heads, terminate_accepted}
use shake_cloud.Lifecycle.Claim.{is_claimable, leased, claim_earliest, claim_none, claim_exclusive}
use shake_cloud.Lifecycle.Reconcile.{Vm, settle, reconcile_each, reconcile, reconcile_blind}
use shake_cloud.Lifecycle.Observed.{IsReconciled}
use shake_cloud.Lifecycle.Reconciled.{reconcile-IsReconciled}
use shake_cloud.Lifecycle.Rounds.{round_settles, round_retries, round_unrecorded}

abbrev instance_in : String → State → Option Action → Instance
instance_in k s a = record {
  id = k;
  account_id = "a1";
  owner_username = "ann";
  client_token = k;
  request_sha256 = [];
  name = "web";
  image_id = "img-debian";
  guest_os = "";
  install_iso_id = "";
  driver_iso_id = "";
  instance_type = "small";
  cpu_cores = pos 2;
  memory_mib = pos 2048;
  memory_min_mib = pos 512;
  ballooning = true;
  root_disk_gib = pos 20;
  disk_tier = "ssd";
  subnet = "";
  user_data = "";
  key_name = "";
  key_public_key = "";
  tags = [];
  state = s;
  pending_action = a;
  state_reason = [];
  last_error = [];
  attempts = 0;
  next_attempt_at = 5;
  lease_until = none;
  vmid = none;
  vm_created = false;
  mac_address = "";
  ip_address = "";
  netbox_ip_id = none;
  seed_volume = "";
  launch_time = 1;
  terminated_at = none;
  updated_at = 1;
  adopted = false;
  firewall_generation = 0;
  firewall_applied = 0;
  firewall_last_error = "";
  firewall_next_attempt_at = 0;
  firewall_lease_until = none;
}

abbrev one : Rows
one = instance_in "i-1" running none ∷ []

-- Two instances that wait for the worker.
abbrev two : Rows
two = instance_in "i-1" pending (some launch) ∷ instance_in "i-2" stopped none ∷ []

abbrev ending : Rows
ending = instance_in "i-1" shutting_down (some terminate) ∷ []

abbrev ended : Rows
ended = instance_in "i-1" terminated none ∷ []

abbrev anyone : Instance → Bool
anyone i = true

abbrev nobody : Instance → Bool
nobody i = false

abbrev audited : Instance → Result (Unit {0})
audited i = ok tt

abbrev unlocked : String → Bool
unlocked k = false

abbrev setting : Setting
setting = record {
  max_attempts = 5;
  retry_delay = 5 * second;
  overflow = amd64;
  now = 10;
  clock = 10 * second;
  cancelled = false;
}

abbrev effects : Effects
effects = record { launch_vm = λ i. none; power = λ i p. none; terminate_vm = λ i. none }

two-IsSound : IsSound two
two-IsSound = record { keyed = (refl, (refl, tt)); consistent = (tt, (tt, tt)) }

ending-IsSound : IsSound ending
ending-IsSound = record { keyed = (refl, tt); consistent = (tt, tt) }

ended-IsSound : IsSound ended
ended-IsSound = record { keyed = (refl, tt); consistent = (tt, tt) }

asked-again : (s : Rows) → Reach s (request 9 "i-1" start anyone audited s).1
asked-again s = next here (Step.asks 9 "i-1" start anyone audited refl)

Reach-IsSound_example : IsSound (request 9 "i-1" start anyone audited two).1
Reach-IsSound_example = Reach-IsSound two-IsSound (asked-again two)

IsDoomed-stays_example :
    (j : Instance) × (find (has_id "i-1") (request 9 "i-1" start anyone audited ending).1 ≡ some j)
    × IsDoomed j
IsDoomed-stays_example =
    IsDoomed-stays "i-1" (instance_in "i-1" shutting_down (some terminate)) ending-IsSound
      (asked-again ending) refl (inl (refl, refl))

IsTerminated-stays_example :
    (j : Instance) × (find (has_id "i-1") (request 9 "i-1" start anyone audited ended).1 ≡ some j)
    × IsTerminated j
IsTerminated-stays_example =
    IsTerminated-stays "i-1" (instance_in "i-1" terminated none) ended-IsSound (asked-again ended)
      refl (refl, refl)

hidden_like_missing_example :
    request 9 "i-2" stop nobody audited two ≡ (err missing_instance, two, false)
hidden_like_missing_example = hidden_like_missing 9 "i-2" stop nobody audited two (λ i h. refl)

request-Heads_example :
    (find (has_id "i-1") (request 9 "i-1" stop anyone audited one).1
      ≡ some (with_action 9 stopping stop (instance_in "i-1" running none)))
    × Heads stop (with_action 9 stopping stop (instance_in "i-1" running none))
unfolding request request_body request_action lock_instance set_action
request-Heads_example = request-Heads 9 "i-1" stop anyone audited one (tt, tt) refl

terminate_accepted_example :
    (j : Instance) × ((request 9 "i-1" terminate anyone audited two).0 ≡ ok j)
terminate_accepted_example =
    terminate_accepted 9 "i-1" anyone audited two (instance_in "i-1" pending (some launch)) refl
      refl (λ j. refl)

-- Two launches that wait for the worker.
abbrev waiting : Rows
waiting = instance_in "i-1" pending (some launch) ∷ instance_in "i-2" pending (some launch) ∷ []

abbrev after_one : Rows
after_one =
    leased 10 60 (instance_in "i-1" pending (some launch))
    ∷ instance_in "i-2" pending (some launch)
    ∷ []

abbrev after_two : Rows
after_two =
    leased 10 60 (instance_in "i-1" pending (some launch))
    ∷ leased 20 60 (instance_in "i-2" pending (some launch))
    ∷ []

first_claim :
    claim_work 10 60 unlocked waiting
    ≡ ok (leased 10 60 (instance_in "i-1" pending (some launch)), after_one)
unfolding claim_work first_of_rows
first_claim = refl

second_claim :
    claim_work 20 60 unlocked after_one
    ≡ ok (leased 20 60 (instance_in "i-2" pending (some launch)), after_two)
unfolding claim_work first_of_rows
second_claim = refl

claim_earliest_example :
    (c : Instance) × (find (has_id c.id) waiting ≡ some c)
    × (is_claimable 10 unlocked c ≡ true)
    × (leased 10 60 (instance_in "i-1" pending (some launch)) ≡ leased 10 60 c)
    × (after_one ≡ update_where (has_id c.id) (leased 10 60) waiting)
    × All (λ x. is_claimable 10 unlocked x ≡ true → c.next_attempt_at ≤ x.next_attempt_at) waiting
claim_earliest_example = claim_earliest 10 60 unlocked waiting (refl, (refl, tt)) first_claim

claim_none_example : All (λ x. is_claimable 3 unlocked x ≡ false) two
unfolding claim_work first_of_rows
claim_none_example = claim_none 3 60 unlocked two {e = not_found} (refl, (refl, tt)) refl

claim_exclusive_example : ◌≢◌ {A = String} "i-2" "i-1"
claim_exclusive_example =
    claim_exclusive 10 60 20 60 unlocked unlocked waiting (refl, (refl, tt)) (omega arith)
      first_claim second_claim

abbrev launching : Instance
launching = instance_in "i-1" pending (some launch)

round_settles_example :
    (j : Instance) × (find
        (has_id "i-1")
        (process setting launching (carry_out effects launching) waiting).0
      ≡ some j)
    × (j.state ≡ running)
    × (j.pending_action ≡ none)
    × (j.lease_until ≡ none)
    × (j.attempts ≡ 0)
unfolding carry_out
round_settles_example =
    round_settles setting effects launching launch waiting {s = running}
      (refl, (launching, refl, refl)) refl

round_retries_example :
    (x j : Instance) × (find (has_id "i-1") waiting ≡ some x)
    × (find (has_id "i-1") (process setting launching (fault (codes "timeout")) waiting).0 ≡ some j)
    × (j.state ≡ x.state)
    × (j.pending_action ≡ some launch)
    × (j.attempts ≡ x.attempts + 1)
    × (j.lease_until ≡ none)
    × (j.last_error ≡ truncate (codes "timeout") 500)
    × (j.next_attempt_at ≡ add_duration (10 * second) (backoff amd64 (5 * second) (0 + 1)))
unfolding is_text truncate
round_retries_example =
    round_retries setting launching launch (codes "timeout") waiting (refl, (launching, refl, refl))
      refl refl refl

-- The last attempt.
abbrev spent : Instance
spent = record launching { attempts = 4 }

-- 499 letters and a character of two bytes, which is cut.
abbrev letters : ℕ → List ℕ
letters zero = 195 ∷ 169 ∷ []
letters (suc n) = 97 ∷ letters n

round_unrecorded_example : (process setting launching (fault (letters 499)) waiting).0 ≡ waiting
unfolding is_text truncate
round_unrecorded_example = round_unrecorded setting launching (letters 499) waiting refl refl

backoff_overflows_example : add_duration 7 (backoff amd64 (5 * second) 40) ≡ 0
backoff_overflows_example = backoff_overflows 40 7 (omega arith)

-- Two settled instances, and a hypervisor that shows neither, or one that shows the other stopped.
abbrev settled_two : Rows
settled_two =
    record (instance_in "i-1" running none) { vmid = some 9000 }
    ∷ instance_in "i-2" stopped none
    ∷ []

abbrev alive : ℕ → Result String
alive n = ok "stopped"

reconcile_blind_example : reconcile 10 (ok []) alive settled_two ≡ (none, settled_two)
unfolding settled_instances
reconcile_blind_example = reconcile_blind 10 [] alive settled_two (omega arith) (refl, (refl, tt))

abbrev shown : List Vm
shown = record { vmid = 9000; status = "stopped" } ∷ []

-- Its machine has stopped.
abbrev shut_down : Instance
shut_down = record (instance_in "i-1" running none) {
  vmid = some 9000;
  state = stopped;
  state_reason = codes "Client.InstanceInitiatedShutdown: the VM stopped outside the API";
  updated_at = 10;
}

reconcile-IsReconciled_example :
    (j : Instance) × (find (has_id "i-1") (reconcile 10 (ok shown) alive settled_two).1 ≡ some j)
    × IsReconciled 10 shown alive (record (instance_in "i-1" running none) { vmid = some 9000 }) j
reconcile-IsReconciled_example =
    reconcile-IsReconciled 10 (ok shown) alive settled_two "i-1"
      (record (instance_in "i-1" running none) { vmid = some 9000 }) (refl, (refl, tt)) refl

written : find (has_id "i-1") (reconcile 10 (ok shown) alive settled_two).1 ≡ some shut_down
unfolding reconcile settled_instances reconcile_each settle observe_state note_reason
written = refl
