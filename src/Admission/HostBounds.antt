-- ===== src/Admission/HostBounds.antt =====
-- What an accepted request leaves the host, and the pools of disk tiers (checkHost, DiskTierStorage).
use shake_cloud.Prelude.{
  if◌then◌else◌, Bool-cases, ℤ, pos, ◌-ℤ◌, ◌≤ℤ◌, ltℤ, wrap64, InInt64, wrap64-InInt64, ℕ, zero, suc,
  ◌+◌, ◌*◌, ◌^◌, ◌≤◌, ◌<◌, String, ◌≡◌, refl, sym, ◌∙◌, subst, ◌⊎◌, inl, inr, Bool, true, false,
  Option, none, some, arith, str_eq, eq_iff,
}
use shake_cloud.Result.{Err, Result, err, ok, ◌>>◌, unless}
use shake_cloud.Admission.Limits.{Limits}
use shake_cloud.Admission.Size.{Spec, invalid_parameter}
use shake_cloud.Admission.Host.{
  NodeStatus, Storage, Proxmox, shift_20, too_full, check_disk_pool, too_many_vcpus,
  too_little_memory, check_host, some_pool, disk_tier_storage, disk_tier_pool, tier_of_storage,
}

same_pool : {a b : String} → ◌≡◌ {A = Option String} (some a) (some b) → a ≡ b
same_pool h = cc

pool-some :
    (pool : String) {p : String} → some_pool pool ≡ some p → (pool ≡ p) × (str_eq p "" ≡ false)
pool-some pool {p} h = elim (Bool-cases (str_eq pool "")) [
  | inl e ↦ absurd (ground arith)
  | inr e ↦ let same = same_pool (rw e at h) in (same, subst (λ q. str_eq q "" ≡ false) same e)
]

or_pool :
    (o : Option String) {pool : String}
    → elim o as (λ _. Result String) [ none ↦ err invalid_parameter | some p ↦ ok p ] ≡ ok pool
    → o ≡ some pool
or_pool none h = cc
or_pool (some p) h = cc

str_eq-same : {a b : String} (c : String) → a ≡ b → str_eq b c ≡ false → str_eq a c ≡ false
str_eq-same c e h = subst (λ x. str_eq x c ≡ false) (sym e) h

no_pool : {pool : String} → ◌≡◌ {A = Option String} none (some pool) → ⊥
no_pool h = cc

first_pool :
    (s : Storage) {pool : String}
    → some_pool s.vm_disks ≡ some pool
    → str_eq s.vm_disks s.vm_disks_hdd ≡ false
    → tier_of_storage s pool ≡ "ssd"
unfolding tier_of_storage
first_pool s {pool} h apart =
    let (same, full) = pool-some s.vm_disks h in
    let other : str_eq pool s.vm_disks_hdd ≡ false = str_eq-same s.vm_disks_hdd (sym same) apart in
    rw (full, other) refl

second_pool :
    (s : Storage) {pool : String}
    → some_pool s.vm_disks_hdd ≡ some pool
    → tier_of_storage s pool ≡ "hdd"
unfolding tier_of_storage
second_pool s {pool} h =
    let (same, full) = pool-some s.vm_disks_hdd h in
    let equal : str_eq pool s.vm_disks_hdd ≡ true = (eq_iff pool s.vm_disks_hdd).1 (sym same) in
    rw (full, equal) refl

-- The pool of a tier names the tier back, where the site's two tiers have pools of their own.
pub tier_of_storage-disk_tier :
    (s : Storage) (tier : String) {pool : String}
    → disk_tier_pool s tier ≡ ok pool
    → str_eq s.vm_disks s.vm_disks_hdd ≡ false
    → tier_of_storage s pool ≡ (if str_eq tier "" then "ssd" else tier)
unfolding disk_tier_storage disk_tier_pool tier_of_storage
tier_of_storage-disk_tier s tier {pool} h apart =
    let k = or_pool (disk_tier_storage s tier) h in
    elim (Bool-cases (str_eq tier "")) [
      | inl e ↦ rw e (first_pool s (rw e at k) apart)
      | inr e ↦ elim (Bool-cases (str_eq tier "ssd")) [
        | inl f ↦ rw e (first_pool s (rw (e, f) at k) apart ∙ sym ((eq_iff tier "ssd").0 f))
        | inr f ↦ elim (Bool-cases (str_eq tier "hdd")) [
          | inl g ↦ rw e (second_pool s (rw (e, f, g) at k) ∙ sym ((eq_iff tier "hdd").0 g))
          | inr g ↦ absurd (no_pool (rw (e, f, g) at k))
        ]
      ]
    ]

shift_20-small : (n : ℕ) → n < 2 ^ 42 → shift_20 (pos n) ≡ pos (2 ^ 20 * n)
shift_20-small n h = wrap64-InInt64 (pos (2 ^ 20 * n)) (omega arith, omega arith)

-ℤ-InInt64 : (a b : ℕ) → a < 2 ^ 62 → b < 2 ^ 62 → InInt64 (pos a -ℤ pos b)
unfolding ◌-ℤ◌
-ℤ-InInt64 a b h k = ground arith

not_less : (a b r : ℕ) → ltℤ (pos a -ℤ pos b) (pos r) ≡ false → r + b ≤ a
unfolding ◌-ℤ◌
not_less a b r h = ground arith

memory_left :
    (available needed reserve : ℕ)
    → available < 2 ^ 62
    → needed < 2 ^ 42
    → reserve < 2 ^ 42
    → too_little_memory (pos available) (pos needed) (pos reserve) ≡ false
    → 2 ^ 20 * reserve + 2 ^ 20 * needed ≤ available
memory_left available needed reserve a b c h =
    let k =
      rw
        (
          shift_20-small needed b,
          shift_20-small reserve c,
          wrap64-InInt64 _ (-ℤ-InInt64 available (2 ^ 20 * needed) a (omega arith)),
        )
        at h in
    not_less available (2 ^ 20 * needed) (2 ^ 20 * reserve) k

seq-ok : (m n : Result (Unit {0})) → (m >> n) ≡ ok tt → (m ≡ ok tt) × (n ≡ ok tt)
seq-ok (ok a) n h = (refl, h)
seq-ok (err e) n h = cc

unless-ok : (b : Bool) (e : Err) → unless b e ≡ ok tt → b ≡ false
unless-ok true e h = cc
unless-ok false e h = refl

threads_enough :
    (threads vcpus : ℤ)
    → too_many_vcpus threads vcpus ≡ false
    → (threads ≤ℤ pos 0) ⊎ (vcpus ≤ℤ threads)
threads_enough threads vcpus h = elim (Bool-cases (ltℤ (pos 0) threads)) [
  | inl e ↦ let k : ltℤ threads vcpus ≡ false = rw e at h in inr (ground arith)
  | inr e ↦ inl (ground arith)
]

-- A pool's use in percent is below the threshold, where there is one and the pool has a size.
abbrev pub IsBelow : ℕ → ℕ → ℕ → Type 0
IsBelow percent used total = (percent ≡ 0) ⊎ (total ≡ 0) ⊎ (100 * used < percent * total)

pool-IsBelow :
    (percent used total : ℕ) (avail : ℤ)
    → 100 * used < 2 ^ 63
    → percent * total < 2 ^ 63
    → too_full (pos percent) (record { total = pos total; used = pos used; avail = avail }) ≡ false
    → IsBelow percent used total
pool-IsBelow zero used total avail small fits h = inl refl
pool-IsBelow (suc n) used zero avail small fits h = inr (inl refl)
pool-IsBelow (suc n) used (suc m) avail small fits h =
    let k =
      rw
        (
          wrap64-InInt64 (pos (100 * used)) (omega arith, omega arith),
          wrap64-InInt64 (pos (suc n * suc m)) (omega arith, omega arith),
        )
        at h in
    inr (inr (ground arith))

-- An accepted request leaves the node its reserve of memory, has no more vCPUs than the node has
-- threads, if the node reports any, and goes to a disk pool below its threshold, if there is a
-- threshold and the pool reports a size. The node's memory is below 2^62 bytes, the request and the
-- reserve are below 2^42 MiB, and the two products that the pool's check compares fit an int64.
pub check_host-leaves :
    (pve : Proxmox) (images : String) (spec : Spec) (needed reserve available : ℕ) (limits : Limits)
    (pool : String) (percent used total : ℕ) {status : NodeStatus} {avail : ℤ}
    → check_host pve images spec (pos needed) limits pool ≡ ok tt
    → pve.node_status ≡ ok status
    → status.available ≡ pos available
    → limits.capacity.node_memory_reserve_mib ≡ pos reserve
    → pve.storage_status pool ≡ ok (record { total = pos total; used = pos used; avail = avail })
    → limits.capacity.vm_disk_max_used_percent ≡ pos percent
    → available < 2 ^ 62
    → needed < 2 ^ 42
    → reserve < 2 ^ 42
    → 100 * used < 2 ^ 63
    → percent * total < 2 ^ 63
    → (2 ^ 20 * reserve + 2 ^ 20 * needed ≤ available)
      × ((status.cpus ≤ℤ pos 0) ⊎ (spec.cpu_cores ≤ℤ status.cpus))
      × IsBelow percent used total
unfolding check_host check_disk_pool
check_host-leaves pve images spec needed reserve available limits pool percent used total {status}
      {avail} h e has keeps measured threshold a b c d f =
    let k = rw e at h in
    let (h3, last) = seq-ok _ _ k in
    let (h2, disk) = seq-ok _ _ h3 in
    let (vcpus, memory) = seq-ok _ _ h2 in
    let enough = unless-ok _ _ memory in
    let free = unless-ok _ _ (rw (measured, threshold) at disk) in
    (
      memory_left available needed reserve a b c (rw (has, keeps) at enough),
      threads_enough status.cpus spec.cpu_cores (unless-ok _ _ vcpus),
      pool-IsBelow percent used total avail d f free,
    )

-- A request of any multiple of 2^44 MiB of memory is answered like a request of none: the shift
-- wraps to 0.
pub check_host_wraps :
    (pve : Proxmox) (images : String) (spec : Spec) (n : ℕ) (limits : Limits) (pool : String)
    → check_host pve images spec (pos (2 ^ 44 * n)) limits pool
      ≡ check_host pve images spec (pos 0) limits pool
unfolding check_host wrap64
check_host_wraps pve images spec n limits pool =
    let e : shift_20 (pos (2 ^ 44 * n)) ≡ shift_20 (pos 0) = ground arith in rw e refl
