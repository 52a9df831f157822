-- ===== src/Admission/Quota.antt =====
-- The account's share and the memory budget of the cloud (Service.checkQuota of
-- api/internal/compute/service.go). An `int` wraps at 64 bits.
use shake_cloud.Prelude.{
  suc, select, length, map, ◌∷◌, sym, InInt64, wrap64-InInt64, ◌⊎◌, inl, inr, Bool-cases, int_laws,
  ℕ, ℤ, pos, ◌+ℤ◌, ◌-ℤ◌, wrap64, ltℤ, ◌≤ℤ◌, String, ◌≡◌, refl, Bool, true, false, ◌&&◌, Option,
  none, some, List, arith,
}
use shake_cloud.Result.{Result, ok, Err, refuse, unless, ◌>>◌}
use shake_cloud.Db.Instance.{Instance, is_live}
use shake_cloud.Db.Instances.{Rows}
use shake_cloud.Admission.Limits.{Limits}
use shake_cloud.Admission.Size.{Spec}
use shake_cloud.Db.Volume.{Volume}
use shake_cloud.Admission.Usage.{Usage, account_usage, live_memory_mib, held_by, sum}

-- The instance that is resized does not count against its new size.
abbrev pub without : Option Instance → Usage → Usage
without none u = u
without (some i) u = record u {
  vcpus = wrap64 (u.vcpus -ℤ i.cpu_cores);
  memory_mib = wrap64 (u.memory_mib -ℤ i.memory_mib);
  root_disk_gib = wrap64 (u.root_disk_gib -ℤ i.root_disk_gib);
}

abbrev pub added : Option Instance → ℤ
added none = pos 1
added (some i) = pos 0

abbrev pub live_without : Option Instance → ℤ → ℤ
live_without none live = live
live_without (some i) live = wrap64 (live -ℤ i.memory_mib)

-- `limit > 0 && used+more > limit`
abbrev pub over : ℤ → ℤ → ℤ → Bool
over limit used more = ltℤ (pos 0) limit && ltℤ limit (wrap64 (used +ℤ more))

unfoldable pub check_quota :
    String → Spec → ℤ → Limits → Option Instance → Rows → List Volume → Result (Unit {0})
check_quota account spec root_disk limits replacing rows volumes =
    let usage = without replacing (account_usage account rows volumes) in
    let quota = limits.account_quota in
    let live = live_without replacing (live_memory_mib rows) in
    unless (over quota.instances usage.instances (added replacing))
      (refuse 409 "InstanceLimitExceeded")
    >> unless (over quota.vcpus usage.vcpus spec.cpu_cores) (refuse 409 "VcpuLimitExceeded")
    >> unless (over quota.memory_mib usage.memory_mib spec.memory_mib)
        (refuse 409 "InstanceLimitExceeded")
    >> unless (over quota.root_disk_gib usage.root_disk_gib root_disk)
        (refuse 409 "VolumeLimitExceeded")
    >> unless (over limits.capacity.memory_budget_mib live spec.memory_mib)
        (refuse 503 "InsufficientInstanceCapacity")

-- A quantity within a limit, where 0 is no limit.
abbrev pub IsWithin : ℤ → ℤ → Type 0
IsWithin limit z = (limit ≤ℤ pos 0) ⊎ (z ≤ℤ limit)

guards :
    (e1 e2 e3 e4 e5 : Err) (a b c d f : Bool)
    → (unless a e1 >> unless b e2 >> unless c e3 >> unless d e4 >> unless f e5) ≡ ok tt
    → (a ≡ false) × (b ≡ false) × (c ≡ false) × (d ≡ false) × (f ≡ false)
guards e1 e2 e3 e4 e5 true b c d f h = cc
guards e1 e2 e3 e4 e5 false true c d f h = cc
guards e1 e2 e3 e4 e5 false false true d f h = cc
guards e1 e2 e3 e4 e5 false false false true f h = cc
guards e1 e2 e3 e4 e5 false false false false true h = cc
guards e1 e2 e3 e4 e5 false false false false false h = (refl, refl, refl, refl, refl)

pub within : (limit z : ℤ) → (ltℤ (pos 0) limit && ltℤ limit z) ≡ false → IsWithin limit z
within limit z h = elim (Bool-cases (ltℤ (pos 0) limit)) [
  | inl e ↦ let k : ltℤ limit z ≡ false = rw e at h in inr (ground arith)
  | inr e ↦ inl (ground arith)
]

pub not_over :
    (limit used more : ℤ)
    → InInt64 (used +ℤ more)
    → over limit used more ≡ false
    → IsWithin limit (used +ℤ more)
not_over limit used more fits h =
    let exact = wrap64-InInt64 (used +ℤ more) fits in
    let k : (ltℤ (pos 0) limit && ltℤ limit (used +ℤ more)) ≡ false = rw exact at h in
    within limit (used +ℤ more) k

-- What the account and the cloud hold once the launch is in the table.
abbrev pub IsAdmitted : Limits → Usage → ℤ → Type 0
IsAdmitted limits u live =
    IsWithin limits.account_quota.instances u.instances
    × IsWithin limits.account_quota.vcpus u.vcpus
    × IsWithin limits.account_quota.memory_mib u.memory_mib
    × IsWithin limits.account_quota.root_disk_gib u.root_disk_gib
    × IsWithin limits.capacity.memory_budget_mib live

-- The sums that the check forms, and that an int64 holds.
abbrev pub Fits64 : Usage → ℤ → Type 0
Fits64 u live =
    InInt64 u.instances
    × InInt64 u.vcpus
    × InInt64 u.memory_mib
    × InInt64 u.root_disk_gib
    × InInt64 live

pub +ℤ_comm : (a b : ℤ) → a +ℤ b ≡ b +ℤ a
+ℤ_comm a b = grind int_laws

-- The usage once an instance is added.
abbrev grown : Usage → Instance → Usage
grown u i = record {
  instances = u.instances +ℤ pos 1;
  vcpus = u.vcpus +ℤ i.cpu_cores;
  memory_mib = u.memory_mib +ℤ i.memory_mib;
  root_disk_gib = u.root_disk_gib +ℤ i.root_disk_gib;
  volumes = u.volumes;
  volume_gib = u.volume_gib;
}

pub one_more : (n : ℕ) → pos (suc n) ≡ pos n +ℤ pos 1
unfolding ◌+ℤ◌
one_more n = ground arith

account_usage-grown :
    (account : String) (new : Instance) (rows : Rows) (volumes : List Volume)
    → held_by account new ≡ true
    → account_usage account (new ∷ rows) volumes ≡ grown (account_usage account rows volumes) new
unfolding account_usage
account_usage-grown account new rows volumes h =
    let mine = select (held_by account) rows in
    rw h (
      rw
        (
          one_more (length mine),
          +ℤ_comm new.cpu_cores (sum (map (λ i. i.cpu_cores) mine)),
          +ℤ_comm new.memory_mib (sum (map (λ i. i.memory_mib) mine)),
          +ℤ_comm new.root_disk_gib (sum (map (λ i. i.root_disk_gib) mine)),
        )
        refl)

live_memory-grown :
    (new : Instance) (rows : Rows)
    → is_live new ≡ true
    → live_memory_mib (new ∷ rows) ≡ live_memory_mib rows +ℤ new.memory_mib
unfolding live_memory_mib
live_memory-grown new rows h =
    rw h (+ℤ_comm new.memory_mib (sum (map (λ i. i.memory_mib) (select is_live rows))))

held-is_live : (account : String) (i : Instance) → held_by account i ≡ true → is_live i ≡ true
held-is_live account i h = ground arith

-- The instance has the size that the check was asked about.
abbrev pub Sized : Instance → Spec → ℤ → Type 0
Sized i spec root_disk =
    (i.cpu_cores ≡ spec.cpu_cores)
    × (i.memory_mib ≡ spec.memory_mib)
    × (i.root_disk_gib ≡ root_disk)

admits :
    (account : String) (new : Instance) (limits : Limits) (rows : Rows) (volumes : List Volume)
    → (spec : Spec) → spec.cpu_cores ≡ new.cpu_cores
    → spec.memory_mib ≡ new.memory_mib
    → check_quota account spec new.root_disk_gib limits none rows volumes ≡ ok tt
    → let u = grown (account_usage account rows volumes) new in
      let live = live_memory_mib rows +ℤ new.memory_mib in Fits64 u live → IsAdmitted limits u live
unfolding check_quota
admits account new limits rows volumes spec cpu memory h fits =
    let u = account_usage account rows volumes in
    let q = limits.account_quota in
    let live = live_memory_mib rows in
    let (a, b, c, d, f) =
      guards _ _ _ _ _ (over q.instances u.instances (pos 1)) (over q.vcpus u.vcpus new.cpu_cores)
        (over q.memory_mib u.memory_mib new.memory_mib)
        (over q.root_disk_gib u.root_disk_gib new.root_disk_gib)
        (over limits.capacity.memory_budget_mib live new.memory_mib) (rw (cpu, memory) at h) in
    let (fa, fb, fc, fd, ff) = fits in
    (
      not_over q.instances u.instances (pos 1) fa a,
      not_over q.vcpus u.vcpus new.cpu_cores fb b,
      not_over q.memory_mib u.memory_mib new.memory_mib fc c,
      not_over q.root_disk_gib u.root_disk_gib new.root_disk_gib fd d,
      not_over limits.capacity.memory_budget_mib live new.memory_mib ff f,
    )

-- When the check accepts a launch whose sums fit an int64, the account with the new instance is
-- within each of its quotas, and the cloud within its memory budget.
pub check_quota-admits :
    (account : String) (spec : Spec) (root_disk : ℤ) (new : Instance) (limits : Limits)
    (rows : Rows) (volumes : List Volume)
    → check_quota account spec root_disk limits none rows volumes ≡ ok tt
    → held_by account new ≡ true
    → Sized new spec root_disk
    → Fits64 (account_usage account (new ∷ rows) volumes) (live_memory_mib (new ∷ rows))
    → IsAdmitted limits (account_usage account (new ∷ rows) volumes) (live_memory_mib (new ∷ rows))
check_quota-admits account spec root_disk new limits rows volumes h held (cpu, memory, disk) fits =
    let usage = account_usage-grown account new rows volumes held in
    let live = live_memory-grown new rows (held-is_live account new held) in
    rw (usage, live)
      (admits account new limits rows volumes spec (sym cpu) (sym memory) (rw (sym disk) at h)
        (rw (usage, live) at fits))
