-- ===== src/Volumes/Requested.antt =====
-- The requests of owners keep the invariant of the table (api/internal/compute/volumes.go).
use shake_cloud.Prelude.{
  ◌⊎◌, pos, wrap64, ◌-ℤ◌, ℤ, ℕ, String, ◌≡◌, inl, inr, refl, subst, Bool, true, false, ◌&&◌, ◌||◌,
  not, Option, none, some, find, find-All, Bool-cases, arith,
}
use shake_cloud.Result.{
  ◌>>=◌, begin_func, Err, Result, ok, err, ◌>>◌, unless, >>=-eq-ok, ok-injective,
}
use shake_cloud.Db.Instance.{is_none}
use shake_cloud.Db.Instances.{Rows, lock_instance}
use shake_cloud.Admission.Limits.{Limits}
use shake_cloud.Db.Volume.{
  available, deleted, error, Attachment, attached, VolumeAction, detach, delete, Volume,
  volume_state_eq, same_volume_action, has_volume_id, VolumeState, in_use,
}
use shake_cloud.Db.Volumes.{
  Volumes, request_detach, request_delete, asked_detach, asked_delete, request_resize,
  request_attach, asked_resize, asked_attach, lock_volume, volumes_of_instance,
}
use shake_cloud.Volumes.Requests.{
  Audit, audited, visible_volume, delete_checked, detach_checked, is_owed, is_attached,
  modify_checked, attach_checked, check_volume_quota, found_instance, pick_device, in_transaction,
}
use shake_cloud.Volumes.Coherence.{
  IsCoherent, asked_detach-IsCoherent, asked_delete-IsCoherent, asked_resize-IsCoherent,
  asked_attach-IsCoherent,
}
use shake_cloud.Volumes.Steps.{
  IsSoundVolumes, returning-IsSoundVolumes, audited-ok, locked_row, guarded, twice_guarded,
}

pub delete_checked-IsSoundVolumes :
    (now : ℕ) (k : String) (audit : Audit) (rows : Volumes) (v : Volume) {r : Volume × Volumes}
    → IsSoundVolumes rows
    → find (has_volume_id k) rows ≡ some v
    → delete_checked now k audit rows v ≡ ok r
    → IsSoundVolumes r.1
unfolding delete_checked request_delete
delete_checked-IsSoundVolumes now k audit rows v {r} h found e =
    elim (Bool-cases
      (volume_state_eq v.state deleted || same_volume_action v.pending_action (some delete))) [
        | inl t ↦
            let same = ok-injective (rw t at e) in
            subst (λ (r : Volume × Volumes). IsSoundVolumes r.1) same h
        | inr t ↦
            let (free, fit, e2) =
              twice_guarded (not (is_none v.instance_id))
                ((not (volume_state_eq v.state available) && not (volume_state_eq v.state error))
                  || is_owed v)
                _ _ _ (rw t at e) in
            let c = find-All IsCoherent (has_volume_id k) rows h.coherent found in
            returning-IsSoundVolumes k (asked_delete now) rows (λ x. refl) h found
              (asked_delete-IsCoherent now v (ground arith) c) (audited-ok audit _ e2)
      ]

is_attached-attached :
    (t : Option Attachment) (a : Option VolumeAction)
    → (not (elim t as (λ _. Bool) [ some attached ↦ true | _ ↦ false ]) || not (is_none a)) ≡ false
    → t ≡ some attached
is_attached-attached t a h = ground arith

pub detach_checked-IsSoundVolumes :
    (now : ℕ) (k : String) (audit : Audit) (rows : Volumes) (v : Volume) {r : Volume × Volumes}
    → IsSoundVolumes rows
    → find (has_volume_id k) rows ≡ some v
    → detach_checked now k audit rows v ≡ ok r
    → IsSoundVolumes r.1
unfolding detach_checked request_detach
detach_checked-IsSoundVolumes now k audit rows v {r} h found e =
    elim (Bool-cases (same_volume_action v.pending_action (some detach))) [
      | inl t ↦
          let same = ok-injective (rw t at e) in
          subst (λ (r : Volume × Volumes). IsSoundVolumes r.1) same h
      | inr t ↦
          let (named, fit, e2) =
            twice_guarded (is_none v.instance_id) (not (is_attached v) || is_owed v) _ _ _
              (rw t at e) in
          let c = find-All IsCoherent (has_volume_id k) rows h.coherent found in
          returning-IsSoundVolumes k (asked_detach now) rows (λ x. refl) h found
            (asked_detach-IsCoherent now v
              (is_attached-attached v.attachment_state v.pending_action fit) c)
            (audited-ok audit _ e2)
    ]

guarded_unit :
    (b : Bool) (e : Err) (m : Result (Unit {0})) {u : Unit {0}}
    → (unless b e >> m) ≡ ok u
    → (b ≡ false) × (m ≡ ok u)
guarded_unit true e m h = cc
guarded_unit false e m h = (refl, h)

committed :
    (rows : Volumes) (m : Result (Volume × Volumes))
    → IsSoundVolumes rows
    → ((r : Volume × Volumes) → m ≡ ok r → IsSoundVolumes r.1)
    → IsSoundVolumes (begin_func rows m).1
committed rows (ok (v, t)) h keep = keep (v, t) refl
committed rows (err e) h keep = h

resizable :
    (t : VolumeState) (a : Option VolumeAction)
    → ((not (volume_state_eq t available) && not (volume_state_eq t in_use)) || not (is_none a))
      ≡ false
    → (a ≡ none) × ((t ≡ available) ⊎ (t ≡ in_use))
resizable t a h = (ground arith, ground arith)

pub modify_checked-IsSoundVolumes :
    (now : ℕ) (k : String) (size : ℤ) (limits : Limits) (instances : Rows) (audit : Audit)
    (rows : Volumes) (v : Volume) {r : Volume × Volumes}
    → IsSoundVolumes rows
    → find (has_volume_id k) rows ≡ some v
    → modify_checked now k size limits instances audit rows v ≡ ok r
    → IsSoundVolumes r.1
unfolding modify_checked request_resize
modify_checked-IsSoundVolumes now k size limits instances audit rows v {r} h found e =
    let (u, quota, e2) = >>=-eq-ok _ (λ _. audited audit (request_resize now k size rows)) e in
    let (u1, grows, within) =
      >>=-eq-ok _
        (λ _.
          check_volume_quota v.account_id (pos 0) (wrap64 (size -ℤ v.size_gib)) limits instances
            rows)
        quota in
    let (fit, more) =
      guarded_unit
        ((not (volume_state_eq v.state available) && not (volume_state_eq v.state in_use))
          || is_owed v)
        _ _ grows in
    let (idle, state) = resizable v.state v.pending_action fit in
    let c = find-All IsCoherent (has_volume_id k) rows h.coherent found in
    returning-IsSoundVolumes k (asked_resize now size) rows (λ x. refl) h found
      (asked_resize-IsCoherent now size v idle state c) (audited-ok audit _ e2)

attachable :
    (t : VolumeState) (a b : Bool)
    → (not (volume_state_eq t available) || a || b) ≡ false
    → t ≡ available
attachable t a b h = ground arith

pub attach_checked-IsSoundVolumes :
    (now : ℕ) (k instance_id : String) (device : Option String) (audit : Audit) (instances : Rows)
    (rows : Volumes) (v : Volume) {r : Volume × Volumes}
    → IsSoundVolumes rows
    → find (has_volume_id k) rows ≡ some v
    → attach_checked now k instance_id device audit instances rows v ≡ ok r
    → IsSoundVolumes r.1
unfolding attach_checked request_attach
attach_checked-IsSoundVolumes now k instance_id device audit instances rows v {r} h found e =
    let (fit, e1) =
      guarded (not (volume_state_eq v.state available) || is_owed v || not (is_none v.instance_id))
        _ _ e in
    let (instance, is_there, e2) =
      >>=-eq-ok (found_instance (lock_instance instance_id instances)) _ e1 in
    let (u, checks, e3) =
      >>=-eq-ok _
        (λ _. pick_device device (volumes_of_instance instance_id rows) >>= λ d.
          audited audit (request_attach now k instance_id d rows))
        e2 in
    let (d, picked, e4) =
      >>=-eq-ok (pick_device device (volumes_of_instance instance_id rows)) _ e3 in
    let c = find-All IsCoherent (has_volume_id k) rows h.coherent found in
    returning-IsSoundVolumes k (asked_attach now instance_id d) rows (λ x. refl) h found
      (asked_attach-IsCoherent now instance_id d v
        (attachable v.state (is_owed v) (not (is_none v.instance_id)) fit) c)
      (audited-ok audit _ e4)

-- A transaction that keeps the table sound when its body accepts keeps it sound.
pub in_transaction-IsSoundVolumes :
    (k : String) (authorize : Volume → Bool) (rows : Volumes)
    (checked : Volume → Result (Volume × Volumes))
    → IsSoundVolumes rows
    → ((v : Volume) (r : Volume × Volumes)
        → find (has_volume_id k) rows ≡ some v
        → checked v ≡ ok r
        → IsSoundVolumes r.1)
    → IsSoundVolumes (in_transaction k authorize rows checked).1
unfolding lock_volume
in_transaction-IsSoundVolumes k authorize rows checked h keep =
    committed rows (visible_volume authorize (lock_volume k rows) >>= checked) h (λ r e.
      let (v, found, accepted) =
        >>=-eq-ok (visible_volume authorize (lock_volume k rows)) checked e in
      keep v r (locked_row authorize (find (has_volume_id k) rows) found) accepted)
