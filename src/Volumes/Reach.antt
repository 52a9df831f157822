-- ===== src/Volumes/Reach.antt =====
-- Any sequence of writes of the volumes table: the requests, the worker's claims and outcomes, the
-- places that it records, and the return of the disks of an instance that is terminated.
use shake_cloud.Prelude.{
  stored, is_text, if◌then◌else◌, Bool-cases, any, ℤ, ℕ, ◌+◌, String, ◌≡◌, refl, sym, subst, inl,
  inr, Bool, true, false, Option, none, some, List,
}
use shake_cloud.Result.{not_found, Result, err, ok}
use shake_cloud.Db.Instances.{Rows}
use shake_cloud.Db.Volume.{
  VolumeAction, create, attach, detach, resize, delete, Location, Volume, has_volume_id,
  has_volume_action,
}
use shake_cloud.Db.Volumes.{
  Volumes, volume_returning, release_volume_lease, finished_volume, finish_volume_action,
  retried_volume, retry_volume_later, create_given_up, give_up_create, attach_given_up,
  give_up_attach, resize_given_up, give_up_resize, record_location, returned, return_to_holder,
  claim_volume_work,
}
use shake_cloud.Admission.Limits.{Limits}
use shake_cloud.Admission.Host.{Storage, Proxmox}
use shake_cloud.Volumes.Requests.{
  Audit, delete_checked, detach_checked, delete_volume, detach_volume, modify_checked, or_refused,
  modify_volume, attach_checked, attach_volume,
}
use shake_cloud.Volumes.Worker.{
  VolumeOutcome, carried, fault, permanent, recorded_volume, measured, give_up_volume, retry_volume,
  process_volume,
}
use shake_cloud.Lifecycle.Worker.{Setting}
use shake_cloud.Volumes.Create.{CreateVolumeRequest, Workshop, create_volume}
use shake_cloud.Volumes.Created.{IsMadeOrKept, create_volume-IsMadeOrKept}
use shake_cloud.Volumes.Keys.{collides-any}
use shake_cloud.Volumes.Coherence.{
  IsCoherent, finished-IsCoherent, create_given_up-IsCoherent, attach_given_up-IsCoherent,
  resize_given_up-IsCoherent, returned-IsCoherent,
}
use shake_cloud.Volumes.Steps.{IsSoundVolumes, update-IsSoundVolumes, returning-rows}
use shake_cloud.Volumes.Requested.{
  delete_checked-IsSoundVolumes, detach_checked-IsSoundVolumes, modify_checked-IsSoundVolumes,
  attach_checked-IsSoundVolumes, in_transaction-IsSoundVolumes,
}

-- One write of the table. The worker may hold any earlier row, however stale.
pub data VolumeStep (s t : Volumes) : Type 0 where
  creates :
      (now : ℕ) (shop : Workshop) (k account : String) (r : CreateVolumeRequest) (audit : Audit)
      (instances : Rows) (seen : Volumes)
      → t ≡ (create_volume now shop k account r audit instances seen s).1
      → VolumeStep s t
  deletes :
      (now : ℕ) (k : String) (authorize : Volume → Bool) (audit : Audit)
      → t ≡ (delete_volume now k authorize audit s).1
      → VolumeStep s t
  detaches :
      (now : ℕ) (k : String) (authorize : Volume → Bool) (audit : Audit)
      → t ≡ (detach_volume now k authorize audit s).1
      → VolumeStep s t
  modifies :
      (now : ℕ) (pve : Proxmox) (storage : Storage) (limits : Limits) (k : String) (size : ℤ)
      (authorize : Volume → Bool) (audit : Audit) (instances : Rows)
      → t ≡ (modify_volume now pve storage limits k size authorize audit instances s).1
      → VolumeStep s t
  attaches :
      (now : ℕ) (k instance_id : String) (device : Option String) (authorize : Volume → Bool)
      (audit : Audit) (instances : Rows)
      → t ≡ (attach_volume now k instance_id device authorize audit instances s).1
      → VolumeStep s t
  claims_volume :
      (now lease : ℕ) (locked : String → Bool) (v : Volume)
      → claim_volume_work now lease locked s ≡ ok (v, t)
      → VolumeStep s t
  works_volume :
      (c : Setting) (v : Volume) (outcome : VolumeOutcome) (size : Option ℤ)
      → t ≡ (process_volume c v outcome size s).0
      → VolumeStep s t
  locates : (now : ℕ) (k : String) (l : Location) → t ≡ record_location now k l s → VolumeStep s t
  returns :
      (now : ℕ) (k : String) (l : Location) (reason : List ℕ)
      → t ≡ return_to_holder now k l reason s
      → VolumeStep s t

pub data VolumeReach (s : Volumes) : Volumes → Type 0 where
  at_start : VolumeReach s s
  then_write : {t u : Volumes} → VolumeReach s t → VolumeStep t u → VolumeReach s u

release_volume_lease-IsSoundVolumes :
    (k : String) (rows : Volumes)
    → IsSoundVolumes rows
    → IsSoundVolumes (release_volume_lease k rows)
unfolding release_volume_lease
release_volume_lease-IsSoundVolumes k rows h =
    update-IsSoundVolumes (has_volume_id k) (λ v. record v { lease_until = none }) rows (λ v. refl)
      (λ v e c. c) h

-- A write of a text that may be refused.
stored-IsSoundVolumes :
    (text : List ℕ) (rows written : Volumes)
    → IsSoundVolumes rows
    → IsSoundVolumes written
    → IsSoundVolumes (stored text written rows)
stored-IsSoundVolumes text rows written h k = elim (Bool-cases (is_text text)) [
  | inl e ↦ rw e k
  | inr e ↦ rw e h
]

retry_volume_later-IsSoundVolumes :
    (now : ℕ) (k : String) (a : Option VolumeAction) (message : List ℕ) (at : ℕ) (rows : Volumes)
    → IsSoundVolumes rows
    → IsSoundVolumes (retry_volume_later now k a message at rows)
unfolding retry_volume_later
retry_volume_later-IsSoundVolumes now k a message at rows h =
    stored-IsSoundVolumes message rows _ h (
      update-IsSoundVolumes (has_volume_action k a) (retried_volume now message at) rows (λ v. refl)
        (λ v e c. c) h)

finish_volume_action-IsSoundVolumes :
    (now : ℕ) (k : String) (a : Option VolumeAction) (rows : Volumes)
    → IsSoundVolumes rows
    → IsSoundVolumes (finish_volume_action now k a rows).1
unfolding finish_volume_action
finish_volume_action-IsSoundVolumes now k a rows h =
    elim (Bool-cases (any (has_volume_action k a) rows)) [
      | inl e ↦ rw e (
          update-IsSoundVolumes (has_volume_action k a) (finished_volume now a) rows (λ v. refl)
            (finished-IsCoherent now k a) h)
      | inr e ↦ rw e (release_volume_lease-IsSoundVolumes k rows h)
    ]

give_up_volume-IsSoundVolumes :
    (c : Setting) (v : Volume) (size : Option ℤ) (reason : List ℕ) (a : Option VolumeAction)
    (rows : Volumes)
    → IsSoundVolumes rows
    → IsSoundVolumes (give_up_volume c v size reason a rows).0
unfolding give_up_create give_up_attach give_up_resize
give_up_volume-IsSoundVolumes c v size reason (some create) rows h =
    stored-IsSoundVolumes reason rows _ h (
      update-IsSoundVolumes (has_volume_action v.id (some create)) (create_given_up c.now reason)
        rows (λ v. refl) (create_given_up-IsCoherent c.now v.id reason) h)
give_up_volume-IsSoundVolumes c v size reason (some attach) rows h =
    stored-IsSoundVolumes reason rows _ h (
      update-IsSoundVolumes (has_volume_action v.id (some attach)) (attach_given_up c.now reason)
        rows (λ v. refl) (attach_given_up-IsCoherent c.now v.id reason) h)
give_up_volume-IsSoundVolumes c v size reason (some resize) rows h =
    stored-IsSoundVolumes reason rows _ h (
      update-IsSoundVolumes (has_volume_action v.id (some resize))
        (resize_given_up c.now (measured v size) reason) rows (λ v. refl)
        (resize_given_up-IsCoherent c.now v.id (measured v size) reason) h)
give_up_volume-IsSoundVolumes c v size reason (some detach) rows h = h
give_up_volume-IsSoundVolumes c v size reason (some delete) rows h = h
give_up_volume-IsSoundVolumes c v size reason none rows h = h

recorded-rows : (p : Bool × Volumes) → (recorded_volume p).0 ≡ p.1
recorded-rows (true, rows) = refl
recorded-rows (false, rows) = refl

retry_volume-IsSoundVolumes :
    (c : Setting) (v : Volume) (text : List ℕ) (rows : Volumes)
    → IsSoundVolumes rows
    → IsSoundVolumes (retry_volume c v text rows).0
unfolding retry_volume
retry_volume-IsSoundVolumes c v text rows h =
    retry_volume_later-IsSoundVolumes c.now v.id v.pending_action _ _ rows h

-- Whichever way a failed round ends.
failed_round :
    (b r : Bool) (x y z : Volumes × Bool)
    → IsSoundVolumes x.0
    → IsSoundVolumes y.0
    → IsSoundVolumes z.0
    → IsSoundVolumes (if b then x else if r then y else z).0
failed_round true r x y z hx hy hz = hx
failed_round false true x y z hx hy hz = hy
failed_round false false x y z hx hy hz = hz

process_volume-IsSoundVolumes :
    (c : Setting) (v : Volume) (outcome : VolumeOutcome) (size : Option ℤ) (rows : Volumes)
    → IsSoundVolumes rows
    → IsSoundVolumes (process_volume c v outcome size rows).0
unfolding process_volume
process_volume-IsSoundVolumes c v carried size rows h =
    rw (recorded-rows (finish_volume_action c.now v.id v.pending_action rows))
      (finish_volume_action-IsSoundVolumes c.now v.id v.pending_action rows h)
process_volume-IsSoundVolumes c v (fault text) size rows h =
    failed_round c.cancelled _ _ _ _ (release_volume_lease-IsSoundVolumes v.id rows h)
      (retry_volume-IsSoundVolumes c v text rows h)
      (give_up_volume-IsSoundVolumes c v size _ v.pending_action rows h)
process_volume-IsSoundVolumes c v (permanent reason) size rows h =
    failed_round c.cancelled _ _ _ _ (release_volume_lease-IsSoundVolumes v.id rows h)
      (retry_volume-IsSoundVolumes c v reason rows h)
      (give_up_volume-IsSoundVolumes c v size _ v.pending_action rows h)

claimed-IsSoundVolumes :
    (now lease : ℕ) (rows : Volumes) (o : Option Volume) {r : Volume × Volumes}
    → IsSoundVolumes rows
    → elim o as (λ _. Result (Volume × Volumes)) [
      | none ↦ err not_found
      | some v ↦ volume_returning v.id (λ w. record w { lease_until = some (now + lease) }) rows
    ]
      ≡ ok r
    → IsSoundVolumes r.1
claimed-IsSoundVolumes now lease rows none h e = cc
claimed-IsSoundVolumes now lease rows (some v) h e =
    subst IsSoundVolumes
      (sym (returning-rows v.id (λ w. record w { lease_until = some (now + lease) }) rows e))
      (update-IsSoundVolumes (has_volume_id v.id)
        (λ w. record w { lease_until = some (now + lease) }) rows (λ w. refl) (λ w e c. c) h)

or_refused-IsSoundVolumes :
    (rows : Volumes) (m : Result (Unit {0})) (run : Result Volume × Volumes × Bool)
    → IsSoundVolumes rows
    → IsSoundVolumes run.1
    → IsSoundVolumes (or_refused rows m run).1
or_refused-IsSoundVolumes rows (ok u) run h k = k
or_refused-IsSoundVolumes rows (err e) run h k = h

-- A creation keeps the table, or puts one new row with its own key on it.
created-IsSoundVolumes :
    (now : ℕ) (shop : Workshop) (k account : String) (r : CreateVolumeRequest) (instances : Rows)
    (rows : Volumes) (x : Result (Volume × Bool) × Volumes)
    → IsMadeOrKept now shop k account r instances rows x
    → IsSoundVolumes rows
    → IsSoundVolumes x.1
created-IsSoundVolumes now shop k account r instances rows x (inr (other, kept)) h =
    subst IsSoundVolumes (sym kept) h
created-IsSoundVolumes now shop k account r instances rows x (inl (v, answer, made)) h =
    subst IsSoundVolumes (sym made.rows_after) (record {
      keyed = (collides-any v rows made.new_key, h.keyed);
      coherent = (subst IsCoherent (sym made.row) (tt, refl, refl), h.coherent);
    })

VolumeStep-IsSoundVolumes : {s t : Volumes} → IsSoundVolumes s → VolumeStep s t → IsSoundVolumes t
unfolding delete_volume detach_volume modify_volume attach_volume claim_volume_work record_location
    return_to_holder
VolumeStep-IsSoundVolumes {s} h (creates now shop k account r audit instances seen e) = rw e (
    created-IsSoundVolumes now shop k account r instances s _
      (create_volume-IsMadeOrKept now shop k account audit instances r seen s) h)
VolumeStep-IsSoundVolumes {s} h (deletes now k authorize audit e) = rw e (
    in_transaction-IsSoundVolumes k authorize s (delete_checked now k audit s) h
      (λ v r f g. delete_checked-IsSoundVolumes now k audit s v h f g))
VolumeStep-IsSoundVolumes {s} h (detaches now k authorize audit e) = rw e (
    in_transaction-IsSoundVolumes k authorize s (detach_checked now k audit s) h
      (λ v r f g. detach_checked-IsSoundVolumes now k audit s v h f g))
VolumeStep-IsSoundVolumes {s} h
      (modifies now pve storage limits k size authorize audit instances e) =
    rw e (
      or_refused-IsSoundVolumes s _ _ h (
        in_transaction-IsSoundVolumes k authorize s
          (modify_checked now k size limits instances audit s) h
          (λ v r f g. modify_checked-IsSoundVolumes now k size limits instances audit s v h f g)))
VolumeStep-IsSoundVolumes {s} h (attaches now k instance_id device authorize audit instances e) =
    rw e (
      or_refused-IsSoundVolumes s _ _ h (
        in_transaction-IsSoundVolumes k authorize s
          (attach_checked now k instance_id device audit instances s) h
          (λ v r f g.
            attach_checked-IsSoundVolumes now k instance_id device audit instances s v h f g)))
VolumeStep-IsSoundVolumes {s} h (claims_volume now lease locked v e) =
    claimed-IsSoundVolumes now lease s _ h e
VolumeStep-IsSoundVolumes {s} h (works_volume c v outcome size e) =
    rw e (process_volume-IsSoundVolumes c v outcome size s h)
VolumeStep-IsSoundVolumes {s} h (locates now k l e) = rw e (
    update-IsSoundVolumes (has_volume_id k) (λ v. record v { location = l; updated_at = now }) s
      (λ v. refl) (λ v e c. c) h)
VolumeStep-IsSoundVolumes {s} h (returns now k l reason e) = rw e (
    update-IsSoundVolumes (has_volume_id k) (returned now l reason) s (λ v. refl)
      (λ v e c. returned-IsCoherent now l reason v c) h)

-- From a sound table of volumes, in whatever order the writes come, keys stay unique, every volume
-- has an instance and a device just when it has an attachment, and its state, attachment and pending
-- action belong together: no volume is deleted, or being deleted, while it is attached.
pub VolumeReach-IsSoundVolumes :
    {s t : Volumes} → IsSoundVolumes s → VolumeReach s t → IsSoundVolumes t
VolumeReach-IsSoundVolumes h at_start = h
VolumeReach-IsSoundVolumes h (then_write r st) =
    VolumeStep-IsSoundVolumes (VolumeReach-IsSoundVolumes h r) st
