-- ===== src/Volumes/Created.antt =====
-- What CreateVolume leaves of the table, whatever it answers (api/internal/compute/volumes.go).
use shake_cloud.Prelude.{
  Bool-cases, any, pos, ltℤ, ℕ, String, ◌≡◌, refl, ap, ◌∙◌, subst, ◌⊎◌, inl, inr, Bool, true, false,
  not, Option, none, some, List, ◌∷◌, arith,
}
use shake_cloud.Result.{Result, err, ok, ◌>>◌, >>=-eq-ok, ok-injective}
use shake_cloud.Db.Instances.{Rows}
use shake_cloud.Db.Volume.{Volume}
use shake_cloud.Db.Volumes.{Volumes, live_volume_count, volume_collides, new_volume, insert_volume}
use shake_cloud.Volumes.Requests.{Audit, audited, check_volume_quota}
use shake_cloud.Admission.Host.{check_disk_pool}
use shake_cloud.Launch.Run.{bytes_eq}
use shake_cloud.Volumes.Create.{
  CreateVolumeRequest, Workshop, volume_request_hash, idempotent_volume, volume_checked,
  earlier_volume, volume_row, holder_slots, admit_volume, admit_volume_once, replied_volume,
  create_after, create_volume,
}
use shake_cloud.Volumes.Steps.{audited-ok, guarded}

-- A volume that is new in the table `rows`, which left it as `rows'`.
pub record Made (now : ℕ) (shop : Workshop) (k account : String) (r : CreateVolumeRequest)
    (instances : Rows) (rows : Volumes) (v : Volume) (rows' : Volumes) : Type 0 where
  pub filled : CreateVolumeRequest
  pub pool : String
  pub valid : volume_checked shop.storage shop.limits r ≡ ok (pool, filled)
  pub measured : check_disk_pool shop.pve shop.limits pool ≡ ok tt
  pub new_token : earlier_volume account filled.client_token rows ≡ ok none
  pub quota : check_volume_quota account (pos 1) filled.size_gib shop.limits instances rows ≡ ok tt
  pub has_slot : ltℤ (live_volume_count rows) holder_slots ≡ true
  pub row : v ≡ new_volume now (volume_row k account filled (volume_request_hash shop.hash filled))
  pub new_key : any (volume_collides v) rows ≡ false
  pub rows_after : rows' ≡ v ∷ rows

-- Every answer of CreateVolume: it created a volume, or left the table as it is.
abbrev pub IsMadeOrKept :
    ℕ
    → Workshop
    → String
    → String
    → CreateVolumeRequest
    → Rows
    → Volumes
    → Result (Volume × Bool) × Volumes
    → Type 0
IsMadeOrKept now shop k account r instances rows x =
    ((v : Volume) × (x.0 ≡ ok (v, true)) × Made now shop k account r instances rows v x.1)
    ⊎ (((v : Volume) → x.0 ≡ ok (v, true) → ⊥) × (x.1 ≡ rows))

inserted_volume :
    (now : ℕ) (new : Volume) (rows : Volumes) {c : Volume × Volumes}
    → insert_volume now new rows ≡ ok c
    → (any (volume_collides new) rows ≡ false)
      × ((new_volume now new, new_volume now new ∷ rows) ≡ c)
unfolding insert_volume
inserted_volume now new rows {c} e = elim (Bool-cases (any (volume_collides new) rows)) [
  | inl h ↦ cc (rw h at e)
  | inr h ↦ (h, ok-injective (rw h at e))
]

not_idempotent :
    (existing : Volume) (hash : List ℕ) {v : Volume}
    → idempotent_volume existing hash ≡ ok (v, true)
    → ⊥
unfolding idempotent_volume
not_idempotent existing hash h = elim (Bool-cases (bytes_eq existing.request_sha256 hash)) [
  | inl e ↦ let k = ap (λ (x : Volume × Bool). x.1) (ok-injective (rw e at h)) in cc
  | inr e ↦ cc (rw e at h)
]

module _ (now : ℕ) (shop : Workshop) (k account : String) (audit : Audit) (instances : Rows) where
  admitted_volume :
      (r : CreateVolumeRequest) (hash : List ℕ) (rows : Volumes) {x : (Volume × Bool) × Volumes}
      → admit_volume now shop.limits k account r hash audit instances rows ≡ ok x
      → (check_volume_quota account (pos 1) r.size_gib shop.limits instances rows ≡ ok tt)
        × (ltℤ (live_volume_count rows) holder_slots ≡ true)
        × (any (volume_collides (volume_row k account r hash)) rows ≡ false)
        × ((
          (new_volume now (volume_row k account r hash), true),
          new_volume now (volume_row k account r hash) ∷ rows,
        )
            ≡ x)
  unfolding admit_volume
  admitted_volume r hash rows {x} h =
      let row = volume_row k account r hash in
      let (u, quota, h1) =
        >>=-eq-ok (check_volume_quota account (pos 1) r.size_gib shop.limits instances rows) _ h in
      let (slot, h2) = guarded (not (ltℤ (live_volume_count rows) holder_slots)) _ _ h1 in
      let (c, inserted, same) = >>=-eq-ok (audited audit (insert_volume now row rows)) _ h2 in
      let (fresh, new) = inserted_volume now row rows (audited-ok audit _ inserted) in
      (
        quota,
        ground arith,
        fresh,
        ap (λ (c : Volume × Volumes). ((c.0, true), c.1)) new ∙ ok-injective same,
      )

  found_once :
      (r filled : CreateVolumeRequest) (pool : String) (rows : Volumes)
      → volume_checked shop.storage shop.limits r ≡ ok (pool, filled)
      → check_disk_pool shop.pve shop.limits pool ≡ ok tt
      → (found : Option Volume) (x : (Volume × Bool) × Volumes)
      → earlier_volume account filled.client_token rows ≡ ok found
      → elim found as (λ _. Result ((Volume × Bool) × Volumes)) [
        | some existing ↦ ok ((existing, false), rows)
        | none ↦
            admit_volume now shop.limits k account filled
              (volume_request_hash shop.hash filled)
              audit
              instances
              rows
      ]
        ≡ ok x
      → IsMadeOrKept now shop k account r instances rows
          (replied_volume (volume_request_hash shop.hash filled) rows none (ok x))
  found_once r filled pool rows valid measured (some existing) x looked h =
      let hash = volume_request_hash shop.hash filled in
      subst
        (λ (y : (Volume × Bool) × Volumes).
          IsMadeOrKept now shop k account r instances rows (replied_volume hash rows none (ok y)))
        (ok-injective h) (inr (λ v e. not_idempotent existing hash e, refl))
  found_once r filled pool rows valid measured none x looked h =
      let hash = volume_request_hash shop.hash filled in
      let row = volume_row k account filled hash in
      let (quota, slot, fresh, same) = admitted_volume filled hash rows h in
      subst
        (λ (y : (Volume × Bool) × Volumes).
          IsMadeOrKept now shop k account r instances rows (replied_volume hash rows none (ok y)))
        same
        (inl (
          new_volume now row,
          refl,
          record {
            filled = filled;
            pool = pool;
            valid = valid;
            measured = measured;
            new_token = looked;
            quota = quota;
            has_slot = slot;
            row = refl;
            new_key = fresh;
            rows_after = refl;
          },
        ))

  created_once :
      (r filled : CreateVolumeRequest) (pool : String) (rows : Volumes)
      → volume_checked shop.storage shop.limits r ≡ ok (pool, filled)
      → (m : Result ((Volume × Bool) × Volumes))
      → (check_disk_pool shop.pve shop.limits pool
          >> admit_volume_once now shop.limits k account filled
              (volume_request_hash shop.hash filled)
              audit
              instances
              rows)
        ≡ m
      → IsMadeOrKept now shop k account r instances rows
          (replied_volume (volume_request_hash shop.hash filled) rows none m)
  unfolding admit_volume_once
  created_once r filled pool rows valid (err e) h = inr (λ v e. cc, refl)
  created_once r filled pool rows valid (ok x) h =
      let (u, measured, h1) = >>=-eq-ok (check_disk_pool shop.pve shop.limits pool) _ h in
      let (found, looked, h2) = >>=-eq-ok (earlier_volume account filled.client_token rows) _ h1 in
      found_once r filled pool rows valid measured found x looked h2

  made_after :
      (r : CreateVolumeRequest) (rows : Volumes)
      (checked : Result ((String × CreateVolumeRequest) × Option Volume))
      → ((pool : String) (filled : CreateVolumeRequest) (found : Option Volume)
          → checked ≡ ok ((pool, filled), found)
          → volume_checked shop.storage shop.limits r ≡ ok (pool, filled))
      → IsMadeOrKept now shop k account r instances rows
          (create_after now shop k account audit instances rows checked)
  unfolding create_after
  made_after r rows (err e) valid = inr (λ v e. cc, refl)
  made_after r rows (ok ((pool, filled), some existing)) valid =
      inr (λ v e. not_idempotent existing _ e, refl)
  made_after r rows (ok ((pool, filled), none)) valid =
      created_once r filled pool rows (valid pool filled none refl) _ refl

  -- CreateVolume, however it answers: it created a volume and the table has it, or it did not and
  -- the table is as it was.
  pub create_volume-IsMadeOrKept :
      (r : CreateVolumeRequest) (seen rows : Volumes)
      → IsMadeOrKept now shop k account r instances rows
          (create_volume now shop k account r audit instances seen rows)
  unfolding create_volume
  create_volume-IsMadeOrKept r seen rows = made_after r rows _ (λ pool filled found e.
      let (c, valid, e1) = >>=-eq-ok (volume_checked shop.storage shop.limits r) _ e in
      let (o, looked, e2) = >>=-eq-ok (earlier_volume account c.1.client_token seen) _ e1 in
      valid ∙ ap (λ (x : (String × CreateVolumeRequest) × Option Volume). ok x.0) (ok-injective e2))
