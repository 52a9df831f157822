-- ===== src/Volumes/Granted.antt =====
-- What CreateVolume has checked of a volume that it created (api/internal/compute/volumes.go).
use shake_cloud.Prelude.{
  ◌||◌, Bool-cases, length, select, ℤ, pos, ◌+ℤ◌, ◌≤ℤ◌, ltℤ, InInt64, codes, str_eq-refl_of, ℕ, suc,
  String, ◌≡◌, refl, sym, ap, ◌∙◌, inl, inr, Bool, true, false, ◌&&◌, not, none, some, ◌∷◌, map,
  arith, eq_refl,
}
use shake_cloud.Result.{Err, Result, ok, unless, >>=-eq-ok, ok-injective}
use shake_cloud.Db.Instances.{Rows}
use shake_cloud.Db.Volume.{creating, create, Volume}
use shake_cloud.Db.Volumes.{Volumes, lock_volume, is_live_volume, live_volume_count}
use shake_cloud.Volumes.Requests.{Audit, check_volume_quota}
use shake_cloud.Admission.Limits.{Limits}
use shake_cloud.Admission.Usage.{sum, volume_of, account_usage}
use shake_cloud.Admission.Quota.{over, IsWithin, not_over, +ℤ_comm, one_more}
use shake_cloud.Admission.Host.{Storage, disk_tier_pool}
use shake_cloud.Launch.Validate.{is_empty_text, validate_tags, is_token}
use shake_cloud.Volumes.Create.{
  CreateVolumeRequest, Workshop, tiered, volume_checked, earlier_volume, holder_slots,
  create_volume,
}
use shake_cloud.Volumes.Steps.{guarded}
use shake_cloud.Volumes.Created.{Made, IsMadeOrKept, create_volume-IsMadeOrKept}

pub record Granted (limits : Limits) (account : String) (r : CreateVolumeRequest) (instances : Rows)
    (rows : Volumes) (v : Volume) (rows' : Volumes) : Type 0 where
  pub of_account : v.account_id ≡ account
  pub is_creating : v.state ≡ creating
  pub is_asked : v.pending_action ≡ some create
  pub is_detached : v.instance_id ≡ none
  pub sized : v.size_gib ≡ r.size_gib
  pub at_least : limits.volume_size_gib.least ≤ℤ v.size_gib
  pub at_most : v.size_gib ≤ℤ limits.volume_size_gib.most
  pub new_token : earlier_volume account r.client_token rows ≡ ok none
  pub others : rows' ≡ v ∷ rows
  pub found : lock_volume v.id rows' ≡ ok v
  pub has_slot : live_volume_count rows' ≤ℤ holder_slots
  pub count : IsWithin limits.account_quota.volumes (account_usage account instances rows').volumes
  pub room :
      IsWithin limits.account_quota.volume_gib (account_usage account instances rows').volume_gib

in_bounds : (n low high : ℤ) → (ltℤ n low || ltℤ high n) ≡ false → (low ≤ℤ n) × (n ≤ℤ high)
in_bounds n low high h = elim (Bool-cases (ltℤ n low)) [
  | inl e ↦ cc (rw e at h)
  | inr e ↦ let k : ltℤ high n ≡ false = rw e at h in (ground arith, ground arith)
]

-- The checks keep the size and the token, and the size is within the site's bounds.
checked-kept :
    (s : Storage) (limits : Limits) (r : CreateVolumeRequest) {c : String × CreateVolumeRequest}
    → volume_checked s limits r ≡ ok c
    → (tiered r ≡ c.1)
      × (limits.volume_size_gib.least ≤ℤ r.size_gib)
      × (r.size_gib ≤ℤ limits.volume_size_gib.most)
unfolding volume_checked
checked-kept s limits r h =
    let (bad, h1) =
      guarded
        (ltℤ r.size_gib limits.volume_size_gib.least || ltℤ limits.volume_size_gib.most r.size_gib)
        _ _ h in
    let (pool, tier, h2) = >>=-eq-ok (disk_tier_pool s (tiered r).disk_tier) _ h1 in
    let (fit, h3) =
      guarded (not (is_empty_text r.client_token) && not (is_token (codes r.client_token))) _ _
        h2 in
    let (u, tags, h4) = >>=-eq-ok (validate_tags r.tags) _ h3 in
    let bounds =
      in_bounds r.size_gib limits.volume_size_gib.least limits.volume_size_gib.most bad in
    (ap (λ (x : String × CreateVolumeRequest). x.1) (ok-injective h4), bounds.0, bounds.1)

below :
    (n : ℕ) → ltℤ (pos n) (pos 256) ≡ true → (pos (suc n) ≤ℤ holder_slots) × (pos n ≤ℤ holder_slots)
below n h = (ground arith, ground arith)

one_more_slot :
    (v : Volume) (rows : Volumes)
    → ltℤ (live_volume_count rows) holder_slots ≡ true
    → live_volume_count (v ∷ rows) ≤ℤ holder_slots
unfolding live_volume_count
one_more_slot v rows h = elim (Bool-cases (is_live_volume v)) [
  | inl e ↦ rw e (below (length (select is_live_volume rows)) h).0
  | inr e ↦ rw e (below (length (select is_live_volume rows)) h).1
]

unless_passed : (b : Bool) (e : Err) → unless b e ≡ ok tt → b ≡ false
unless_passed true e h = cc
unless_passed false e h = refl

volume_usage_grown :
    (account : String) (v : Volume) (instances : Rows) (rows : Volumes)
    → volume_of account v ≡ true
    → ((account_usage account instances (v ∷ rows)).volumes
        ≡ (account_usage account instances rows).volumes +ℤ pos 1)
      × ((account_usage account instances (v ∷ rows)).volume_gib
          ≡ (account_usage account instances rows).volume_gib +ℤ v.size_gib)
unfolding account_usage
volume_usage_grown account v instances rows h =
    let mine = select (volume_of account) rows in
    (
      rw h (one_more (length mine)),
      rw h (+ℤ_comm v.size_gib (sum (map (λ (w : Volume). w.size_gib) mine))),
    )

quota_kept :
    (account : String) (limits : Limits) (v : Volume) (instances : Rows) (rows : Volumes)
    → volume_of account v ≡ true
    → InInt64 (account_usage account instances (v ∷ rows)).volumes
    → InInt64 (account_usage account instances (v ∷ rows)).volume_gib
    → check_volume_quota account (pos 1) v.size_gib limits instances rows ≡ ok tt
    → IsWithin limits.account_quota.volumes (account_usage account instances (v ∷ rows)).volumes
      × IsWithin limits.account_quota.volume_gib
          (account_usage account instances (v ∷ rows)).volume_gib
unfolding check_volume_quota
quota_kept account limits v instances rows held count room h =
    let used = account_usage account instances rows in
    let (one, size) = volume_usage_grown account v instances rows held in
    let (few, h1) = guarded (over limits.account_quota.volumes used.volumes (pos 1)) _ _ h in
    let small =
      unless_passed (over limits.account_quota.volume_gib used.volume_gib v.size_gib) _ h1 in
    (
      rw one (not_over limits.account_quota.volumes used.volumes (pos 1) (rw one at count) few),
      rw size (
          not_over limits.account_quota.volume_gib used.volume_gib v.size_gib (rw size at room)
            small),
    )

held_volume :
    (account : String) (v : Volume)
    → v.account_id ≡ account
    → v.state ≡ creating
    → volume_of account v ≡ true
held_volume account v mine state =
    let same = str_eq-refl_of v.account_id account mine in rw state (ground arith)

Made-Granted :
    (now : ℕ) (shop : Workshop) (k account : String) (r : CreateVolumeRequest) (instances : Rows)
    (rows : Volumes) (v : Volume) (rows' : Volumes)
    → Made now shop k account r instances rows v rows'
    → InInt64 (account_usage account instances rows').volumes
    → InInt64 (account_usage account instances rows').volume_gib
    → Granted shop.limits account r instances rows v rows'
unfolding lock_volume
Made-Granted now shop k account r instances rows v rows' m count room =
    let (same, low, high) = checked-kept shop.storage shop.limits r m.valid in
    let size : v.size_gib ≡ r.size_gib =
      ap (λ (x : Volume). x.size_gib) m.row
      ∙ ap (λ (x : CreateVolumeRequest). x.size_gib) (sym same) in
    let size_filled : v.size_gib ≡ m.filled.size_gib = ap (λ (x : Volume). x.size_gib) m.row in
    let mine : v.account_id ≡ account = ap (λ (x : Volume). x.account_id) m.row in
    let state : v.state ≡ creating = ap (λ (x : Volume). x.state) m.row in
    let (few, small) =
      quota_kept account shop.limits v instances rows (held_volume account v mine state)
        (rw m.rows_after at count) (rw m.rows_after at room) (rw size_filled m.quota) in
    record {
      of_account = mine;
      is_creating = state;
      is_asked = ap (λ (x : Volume). x.pending_action) m.row;
      is_detached = ap (λ (x : Volume). x.instance_id) m.row;
      sized = size;
      at_least = rw size low;
      at_most = rw size high;
      new_token =
          ap (λ (x : CreateVolumeRequest). earlier_volume account x.client_token rows) same
          ∙ m.new_token;
      others = m.rows_after;
      found = rw m.rows_after (rw (eq_refl v.id) refl);
      has_slot = rw m.rows_after (one_more_slot v rows m.has_slot);
      count = rw m.rows_after few;
      room = rw m.rows_after small;
    }

answer-Granted :
    (now : ℕ) (shop : Workshop) (k account : String) (r : CreateVolumeRequest) (instances : Rows)
    (rows : Volumes) (v : Volume) (rows' : Volumes) {x : Result (Volume × Bool) × Volumes}
    → x ≡ (ok (v, true), rows')
    → IsMadeOrKept now shop k account r instances rows x
    → InInt64 (account_usage account instances rows').volumes
    → InInt64 (account_usage account instances rows').volume_gib
    → Granted shop.limits account r instances rows v rows'
answer-Granted now shop k account r instances rows v rows' h (inr (other, kept)) count room =
    absurd (other v (ap (λ (x : Result (Volume × Bool) × Volumes). x.0) h))
answer-Granted now shop k account r instances rows v rows' h (inl (w, answer, made)) count room =
    let same : w ≡ v =
      ap (λ (y : Volume × Bool). y.0)
        (ok-injective (sym answer ∙ ap (λ (x : Result (Volume × Bool) × Volumes). x.0) h)) in
    let after = ap (λ (x : Result (Volume × Bool) × Volumes). x.1) h in
    Made-Granted now shop k account r instances rows v rows' (rw after at (rw same at made)) count
      room

-- When CreateVolume answers a volume that it created, the size is within the site's bounds, no volume
-- of the account had the request's token, and the table has the volume as one more row, under its
-- key, being created and on no instance. With it at most 256 volumes are live, which is what the
-- holder can keep, and the account is within its quotas of volumes and of their size, where the sums
-- fit an int64.
pub create_volume-Granted :
    (now : ℕ) (shop : Workshop) (k account : String) (r : CreateVolumeRequest) (audit : Audit)
    (instances : Rows) (seen rows : Volumes) {v : Volume} {rows' : Volumes}
    → create_volume now shop k account r audit instances seen rows ≡ (ok (v, true), rows')
    → InInt64 (account_usage account instances rows').volumes
    → InInt64 (account_usage account instances rows').volume_gib
    → Granted shop.limits account r instances rows v rows'
create_volume-Granted now shop k account r audit instances seen rows {v} {rows'} h count room =
    answer-Granted now shop k account r instances rows v rows' h
      (create_volume-IsMadeOrKept now shop k account audit instances r seen rows) count room
