-- ===== src/Launch/Run.antt =====
-- Service.Run and idempotent of api/internal/compute/service.go, and GetKeyPair of
-- api/internal/db/keypairs.go. The hash of a request (SHA-256 of its JSON) is a parameter.
use shake_cloud.Prelude.{
  ◌==◌, if◌then◌else◌, find, lookup, ℕ, String, Bool, true, false, ◌&&◌, not, Option, none, some,
  List, [], ◌∷◌, str_eq,
}
use shake_cloud.Result.{
  refuse, not_found, no_vmid, Result, err, ok, ◌>>=◌, ◌>>◌, unless, begin_func,
}
use shake_cloud.Db.Instance.{pending, launch, Instance}
use shake_cloud.Db.Instances.{Rows, get_instance, instance_by_client_token, insert_instance}
use shake_cloud.Db.Volumes.{Volumes}
use shake_cloud.Db.Groups.{Tables, set_instance_groups}
use shake_cloud.Groups.Handlers.{Fresh, resolve_groups}
use shake_cloud.Admission.Size.{Spec}
use shake_cloud.Admission.Limits.{Limits}
use shake_cloud.Admission.Quota.{check_quota}
use shake_cloud.Admission.Host.{Proxmox, check_host, disk_tier_pool}
use shake_cloud.Admission.Vmid.{Quarantined, allocate_vmid, skip_vmids}
use shake_cloud.Launch.Network.{subnet_name}
use shake_cloud.Launch.Validate.{RunRequest, Catalogue, validate}

pub record KeyPair : Type 0 where
  pub account_id : String
  pub key_name : String
  pub public_key : String
  pub fingerprint : String
  pub created_at : ℕ

-- The numbers of the site, what the hypervisor answers, and what is read of other tables.
pub record Launchpad : Type 0 where
  pub catalogue : Catalogue
  pub limits : Limits
  pub vmid_from : ℕ
  pub vmid_to : ℕ
  pub volume_holder : ℕ
  pub probes : List ℕ
  pub pve : Proxmox
  pub visible : Result (List ℕ)
  pub key_pairs : List KeyPair
  pub volumes : Volumes
  pub quarantine : List Quarantined
  pub hash : RunRequest → List ℕ

-- The random values of one call.
pub record Drawn : Type 0 where
  pub instance : String
  pub mac : String
  pub fresh : Fresh

-- requestHash: the token is left out.
abbrev pub request_hash : (RunRequest → List ℕ) → RunRequest → List ℕ
request_hash hash r = hash (record r { client_token = "" })

unfoldable pub get_key_pair : String → String → List KeyPair → Result KeyPair
get_key_pair account name pairs =
    elim (find (λ (p : KeyPair). str_eq p.account_id account && str_eq p.key_name name) pairs) [
      | none ↦ err not_found
      | some p ↦ ok p
    ]

abbrev pub key_or_refusal : Result KeyPair → Result String
key_or_refusal (ok p) = ok p.public_key
key_or_refusal (err not_found) = err (refuse 400 "InvalidKeyPair.NotFound")
key_or_refusal (err e) = err e

unfoldable pub public_key_of : String → String → List KeyPair → Result String
unfolding get_key_pair
public_key_of account name pairs =
    if str_eq name "" then ok "" else key_or_refusal (get_key_pair account name pairs)

-- Go's `bytes.Equal`
abbrev pub bytes_eq : List ℕ → List ℕ → Bool
bytes_eq [] [] = true
bytes_eq (a ∷ as_) (b ∷ bs) = a == b && bytes_eq as_ bs
bytes_eq _ _ = false

unfoldable pub idempotent : Instance → List ℕ → Result (Instance × Bool)
idempotent existing hash =
    unless (not (bytes_eq existing.request_sha256 hash)) (refuse 409 "IdempotentParameterMismatch")
    >> ok (existing, false)

-- The row of an earlier launch with the token. No token matches none.
unfoldable pub earlier : String → String → Rows → Result (Option Instance)
earlier account token rows =
    if str_eq token ""
    then ok none
    else elim (instance_by_client_token account token rows) as (λ _. Result (Option Instance)) [
      | ok i ↦ ok (some i)
      | err e ↦ elim e [ not_found ↦ ok none | other ↦ err other ]
    ]

abbrev pub or_full : Result ℕ → Result ℕ
or_full (err no_vmid) = err (refuse 503 "InsufficientInstanceCapacity")
or_full r = r

-- The name of the instance: `r.Tags["Name"]`.
abbrev pub text_or_empty : Option String → String
text_or_empty none = ""
text_or_empty (some s) = s

-- The row that is inserted; the columns that InsertInstance does not take stand at their defaults.
abbrev pub row_of : Drawn → String → RunRequest → Spec → List ℕ → String → ℕ → Instance
row_of drawn account r spec hash public_key vmid = record {
  id = drawn.instance;
  account_id = account;
  owner_username = "";
  client_token = r.client_token;
  request_sha256 = hash;
  name = text_or_empty (lookup "Name" r.tags);
  image_id = r.image_id;
  guest_os = r.guest_os;
  install_iso_id = r.install_iso_id;
  driver_iso_id = r.driver_iso_id;
  instance_type = spec.type_name;
  cpu_cores = spec.cpu_cores;
  memory_mib = spec.memory_mib;
  memory_min_mib = spec.memory_min_mib;
  ballooning = spec.ballooning;
  root_disk_gib = r.root_disk_gib;
  disk_tier = r.disk_tier;
  subnet = subnet_name r.subnet_id;
  user_data = r.user_data;
  key_name = r.key_name;
  key_public_key = public_key;
  tags = r.tags;
  state = pending;
  pending_action = some launch;
  state_reason = [];
  last_error = [];
  attempts = 0;
  next_attempt_at = 0;
  lease_until = none;
  vmid = some vmid;
  vm_created = false;
  mac_address = drawn.mac;
  ip_address = "";
  netbox_ip_id = none;
  seed_volume = "";
  launch_time = 0;
  terminated_at = none;
  updated_at = 0;
  adopted = false;
  firewall_generation = 0;
  firewall_applied = 0;
  firewall_last_error = "";
  firewall_next_attempt_at = 0;
  firewall_lease_until = none;
}

-- The transaction, when no earlier launch has the token.
unfoldable pub admit :
    ℕ
    → Launchpad
    → Drawn
    → String
    → Spec
    → RunRequest
    → List ℕ
    → String
    → List ℕ
    → (Instance → Result (Unit {0}))
    → Tables
    → Result ((Instance × Bool) × Tables)
admit now pad drawn account spec r hash public_key visible audit t =
    check_quota account spec r.root_disk_gib pad.limits none t.instances pad.volumes
    >> (resolve_groups now drawn.fresh account r.security_group_ids t >>= λ g.
        or_full (
          allocate_vmid pad.vmid_from pad.vmid_to (skip_vmids pad.volume_holder pad.probes visible)
            g.1.instances pad.quarantine)
        >>= λ vmid.
            insert_instance now (row_of drawn account r spec hash public_key vmid) g.1.instances
            >>= λ c.
                let t' = set_instance_groups now c.0.id g.0 (record g.1 { instances = c.1 }) in
                get_instance c.0.id t'.instances >>= λ created.
                audit created >> ok ((created, true), t'))

-- The transaction under the capacity lock: another request with the token may have come first.
unfoldable pub admit_once :
    ℕ
    → Launchpad
    → Drawn
    → String
    → Spec
    → RunRequest
    → List ℕ
    → String
    → List ℕ
    → (Instance → Result (Unit {0}))
    → Tables
    → Result ((Instance × Bool) × Tables)
unfolding admit earlier
admit_once now pad drawn account spec r hash public_key visible audit t =
    earlier account r.client_token t.instances >>= λ found. elim found [
      | some existing ↦ ok ((existing, false), t)
      | none ↦ admit now pad drawn account spec r hash public_key visible audit t
    ]

abbrev pub answered : List ℕ → Result (Instance × Bool) → Result (Instance × Bool)
answered hash (err e) = err e
answered hash (ok (i, created)) = if created then ok (i, true) else idempotent i hash

-- What only the host knows, then the transaction.
unfoldable pub run_fresh :
    ℕ
    → Launchpad
    → Drawn
    → String
    → Spec
    → RunRequest
    → List ℕ
    → (Instance → Result (Unit {0}))
    → Tables
    → Result ((Instance × Bool) × Tables)
unfolding admit_once
run_fresh now pad drawn account spec r hash audit t =
    public_key_of account r.key_name pad.key_pairs >>= λ public_key.
    disk_tier_pool pad.catalogue.storage r.disk_tier >>= λ pool.
    check_host pad.pve pad.catalogue.storage.images spec spec.memory_mib pad.limits pool
    >> (pad.visible >>= λ visible.
        admit_once now pad drawn account spec r hash public_key visible audit t)

-- The request as it is validated, and an earlier launch with its token among `rows`.
unfoldable pub looked_up :
    Launchpad → String → RunRequest → Rows → Result ((Spec × RunRequest) × Option Instance)
unfolding earlier
looked_up pad account r rows = validate pad.catalogue pad.limits r >>= λ v.
    earlier account v.1.client_token rows >>= λ found. ok (v, found)

abbrev pub replied :
    List ℕ
    → Tables
    → Option Instance
    → Result ((Instance × Bool) × Tables)
    → Result (Instance × Bool) × Tables
replied hash t (some existing) inserted = (idempotent existing hash, t)
replied hash t none inserted =
    let (result, t') = begin_func t inserted in (answered hash result, t')

-- Run after the first lookup.
unfoldable pub run_after :
    ℕ
    → Launchpad
    → Drawn
    → String
    → (Instance → Result (Unit {0}))
    → Tables
    → Result ((Spec × RunRequest) × Option Instance)
    → Result (Instance × Bool) × Tables
unfolding run_fresh
run_after now pad drawn account audit t (err e) = (err e, t)
run_after now pad drawn account audit t (ok ((spec, r'), found)) =
    let hash = request_hash pad.hash r' in
    replied hash t found (run_fresh now pad drawn account spec r' hash audit t)

-- Run: `seen` is the table at the first lookup, `t` the tables when the transaction starts. The
-- tables after it come with the answer.
unfoldable pub run :
    ℕ
    → Launchpad
    → Drawn
    → String
    → RunRequest
    → (Instance → Result (Unit {0}))
    → Rows
    → Tables
    → Result (Instance × Bool) × Tables
unfolding run_after looked_up
run now pad drawn account r audit seen t =
    run_after now pad drawn account audit t (looked_up pad account r seen)
