-- ===== src/Db/Instances.antt =====
-- The statements of api/internal/db/instances.go that read and write the instances table. The
-- table is the list of its rows; `now` is PostgreSQL's now(), the start of the transaction.
use Prim.Native.String.{compare}
use text.Mathlib.Text.{is_lt}
use shake_cloud.Prelude.{
  ℕ, ◌+◌, ℤ, String, Bool, true, false, ◌&&◌, ◌||◌, not, Option, none, some, List, [], ◌∷◌, any,
  find, select, update_where, ltb, leb, ◌==◌, if◌then◌else◌, str_eq, stored,
}
use shake_cloud.Result.{Result, ok, err, not_found, failed}
use shake_cloud.Db.Instance.{
  State, pending, running, stopped, shutting_down, terminated, Action, launch, terminate, Instance,
  state_eq, same_action, is_live, is_none, has_id,
}

abbrev pub Rows : Type 0
Rows = List Instance

abbrev pub or_missing : Option Instance → Result Instance
or_missing none = err not_found
or_missing (some i) = ok i

unfoldable pub get_instance : String → Rows → Result Instance
get_instance k rows = or_missing (find (has_id k) rows)

-- The row lock has no effect on the values: transactions are taken one at a time.
unfoldable pub lock_instance : String → Rows → Result Instance
lock_instance k rows = or_missing (find (has_id k) rows)

unfoldable pub instance_by_client_token : String → String → Rows → Result Instance
instance_by_client_token account token rows =
    or_missing (find (λ i. str_eq i.account_id account && str_eq i.client_token token) rows)

abbrev same_vmid : Option ℕ → Option ℕ → Bool
same_vmid (some a) (some b) = a == b
same_vmid _ _ = false

-- The unique constraints: the key, a client token within an account, and a VMID among live rows.
unfoldable pub collides : Instance → Instance → Bool
collides new i =
    str_eq i.id new.id
    || (not (str_eq new.client_token "")
        && str_eq i.account_id new.account_id
        && str_eq i.client_token new.client_token)
    || (is_live i && same_vmid i.vmid new.vmid)

-- The row that the INSERT writes: the given values and the columns' defaults.
abbrev pub new_row : ℕ → Instance → Instance
new_row now new = record new {
  state = pending;
  pending_action = some launch;
  state_reason = [];
  last_error = [];
  attempts = 0;
  next_attempt_at = now;
  lease_until = none;
  vm_created = false;
  ip_address = "";
  netbox_ip_id = none;
  seed_volume = "";
  launch_time = now;
  terminated_at = none;
  updated_at = now;
  adopted = false;
  disk_tier = if str_eq new.disk_tier "" then "ssd" else new.disk_tier;
  firewall_generation = 0;
  firewall_applied = 0;
  firewall_last_error = "";
  firewall_next_attempt_at = now;
  firewall_lease_until = none;
}

unfoldable pub insert_instance : ℕ → Instance → Rows → Result (Instance × Rows)
insert_instance now new rows =
    if any (collides (new_row now new)) rows
    then err (failed "unique violation")
    else ok (new_row now new, new_row now new ∷ rows)

-- `UPDATE … WHERE instance_id = $1 RETURNING …`
abbrev pub update_returning : String → (Instance → Instance) → Rows → Result (Instance × Rows)
update_returning k f rows =
    let rows' = update_where (has_id k) f rows in
    elim (find (has_id k) rows') [ none ↦ err not_found | some i ↦ ok (i, rows') ]

unfoldable pub release_lease : String → Rows → Rows
release_lease k = update_where (has_id k) (λ i. record i { lease_until = none })

pub record Resources : Type 0 where
  pub vmid : Option ℕ
  pub vm_created : Bool
  pub ip_address : String
  pub netbox_ip_id : Option ℕ
  pub seed_volume : String

unfoldable pub record_resources : ℕ → String → Resources → Rows → Rows
record_resources now k r = update_where (has_id k) λ i. record i {
  vmid = r.vmid;
  vm_created = r.vm_created;
  ip_address = r.ip_address;
  netbox_ip_id = r.netbox_ip_id;
  seed_volume = r.seed_volume;
  updated_at = now;
}

-- `WHERE instance_id = $1 AND pending_action = $2`
abbrev pub has_action : String → Option Action → Instance → Bool
has_action k a i = has_id k i && same_action i.pending_action a

abbrev pub finished : ℕ → State → List ℕ → Instance → Instance
finished now to reason i = record i {
  state = to;
  pending_action = none;
  state_reason = reason;
  last_error = [];
  attempts = 0;
  lease_until = none;
  updated_at = now;
  terminated_at = if state_eq to terminated then some now else i.terminated_at;
}

unfoldable pub finish_action : ℕ → String → Option Action → State → List ℕ → Rows → Bool × Rows
unfolding release_lease
finish_action now k action to reason rows =
    if any (has_action k action) rows
    then (true, update_where (has_action k action) (finished now to reason) rows)
    else (false, release_lease k rows)

abbrev pub retried : ℕ → List ℕ → ℕ → Instance → Instance
retried now last_error next i = record i {
  attempts = i.attempts + 1;
  last_error = last_error;
  next_attempt_at = next;
  lease_until = none;
  updated_at = now;
}

unfoldable pub retry_later : ℕ → String → Option Action → List ℕ → ℕ → Rows → Rows
unfolding release_lease
retry_later now k action last_error next rows =
    stored last_error
      (release_lease k (update_where (has_action k action) (retried now last_error next) rows)) rows

abbrev pub abandoned : ℕ → List ℕ → Instance → Instance
abandoned now reason i = record i {
  state = shutting_down;
  pending_action = some terminate;
  state_reason = reason;
  attempts = 0;
  next_attempt_at = now;
  lease_until = none;
  updated_at = now;
}

unfoldable pub abandon_launch : ℕ → String → List ℕ → Rows → Rows
abandon_launch now k reason rows =
    stored reason (update_where (has_action k (some launch)) (abandoned now reason) rows) rows

abbrev pub given_up : ℕ → State → List ℕ → Instance → Instance
given_up now to reason i = record i {
  state = to;
  pending_action = none;
  state_reason = reason;
  attempts = 0;
  lease_until = none;
  updated_at = now;
}

unfoldable pub give_up_action : ℕ → String → Option Action → State → List ℕ → Rows → Rows
give_up_action now k action to reason rows =
    stored reason (update_where (has_action k action) (given_up now to reason) rows) rows

unfoldable pub set_spec : ℕ → String → ℤ → ℤ → ℤ → Bool → ℤ → Rows → Result (Instance × Rows)
set_spec now k cpu_cores memory_mib memory_min_mib ballooning root_disk_gib =
    update_returning k λ i. record i {
      cpu_cores = cpu_cores;
      memory_mib = memory_mib;
      memory_min_mib = memory_min_mib;
      ballooning = ballooning;
      root_disk_gib = root_disk_gib;
      instance_type = "";
      updated_at = now;
    }

-- What the UPDATE of SetAction does to its row.
abbrev pub with_action : ℕ → State → Action → Instance → Instance
with_action now to action i = record i {
  state = to;
  pending_action = some action;
  attempts = 0;
  last_error = [];
  next_attempt_at = now;
  updated_at = now;
}

unfoldable pub set_action : ℕ → String → State → Action → Rows → Result (Instance × Rows)
set_action now k to action = update_returning k (with_action now to action)

unfoldable pub set_instance_tags : ℕ → String → String → List (String × String) → Rows → Rows
set_instance_tags now k name tags =
    update_where (has_id k) (λ i. record i { tags = tags; name = name; updated_at = now })

-- `lease_until IS NULL OR lease_until < now()`
abbrev pub lease_free : ℕ → Option ℕ → Bool
lease_free now none = true
lease_free now (some t) = ltb t now

abbrev pub is_due : ℕ → Instance → Bool
is_due now i =
    not (is_none i.pending_action) && leb i.next_attempt_at now && lease_free now i.lease_until

-- `ORDER BY next_attempt_at, instance_id`
abbrev pub before : Instance → Instance → Bool
before a b =
    ltb a.next_attempt_at b.next_attempt_at
    || (a.next_attempt_at == b.next_attempt_at && is_lt (compare a.id b.id))

-- The first of the rows in the order of the claim.
unfoldable pub first_of_rows : Rows → Option Instance
first_of_rows [] = none
first_of_rows (i ∷ rows) = elim (first_of_rows rows) [
  | none ↦ some i
  | some j ↦ if before j i then some j else some i
]

-- `locked` are the rows that other transactions hold (SKIP LOCKED).
unfoldable pub claim_work : ℕ → ℕ → (String → Bool) → Rows → Result (Instance × Rows)
unfolding first_of_rows
claim_work now lease locked rows =
    elim (first_of_rows (select (λ i. is_due now i && not (locked i.id)) rows)) [
      | none ↦ err not_found
      | some i ↦ update_returning i.id (λ j. record j { lease_until = some (now + lease) }) rows
    ]

unfoldable pub settled_instances : ℕ → Rows → Rows
settled_instances now = select λ i.
    (state_eq i.state running || state_eq i.state stopped)
    && is_none i.pending_action
    && lease_free now i.lease_until

unfoldable pub observe_state : ℕ → String → State → State → List ℕ → Rows → Rows
observe_state now k from to reason =
    update_where (λ i. has_id k i && state_eq i.state from && is_none i.pending_action)
      λ i. record i { state = to; state_reason = reason; updated_at = now }

abbrev pub bytes_eq : List ℕ → List ℕ → Bool
bytes_eq [] [] = true
bytes_eq (x ∷ xs) (y ∷ ys) = x == y && bytes_eq xs ys
bytes_eq _ _ = false

unfoldable pub note_reason : ℕ → String → List ℕ → Rows → Rows
note_reason now k reason =
    update_where
      (λ i. has_id k i && is_none i.pending_action && not (bytes_eq i.state_reason reason))
      λ i. record i { state_reason = reason; updated_at = now }
