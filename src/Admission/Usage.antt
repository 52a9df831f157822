-- ===== src/Admission/Usage.antt =====
-- What accounts hold (Usage, usageQuery, AccountUsage, CloudUsage and LiveMemoryMiB of
-- api/internal/db/instances.go). The sums are Postgres bigints and do not wrap.
use shake_cloud.Prelude.{
  ℤ, pos, ◌+ℤ◌, String, Bool, ◌&&◌, ◌||◌, List, [], ◌∷◌, map, length, select, str_eq,
}
use shake_cloud.Db.Instance.{Instance, is_live}
use shake_cloud.Db.Instances.{Rows}
use shake_cloud.Db.Volume.{Volume}
use shake_cloud.Db.Volumes.{is_live_volume}

pub record Usage : Type 0 where
  pub instances : ℤ
  pub vcpus : ℤ
  pub memory_mib : ℤ
  pub root_disk_gib : ℤ
  pub volumes : ℤ
  pub volume_gib : ℤ

-- `coalesce(sum(…), 0)`
abbrev pub sum : List ℤ → ℤ
sum [] = pos 0
sum (z ∷ zs) = z +ℤ sum zs

-- `($1::text = '' OR account_id = $1)`
abbrev pub of_account : String → String → Bool
of_account account id = str_eq account "" || str_eq id account

abbrev pub held_by : String → Instance → Bool
held_by account i = of_account account i.account_id && is_live i

abbrev pub volume_of : String → Volume → Bool
volume_of account v = of_account account v.account_id && is_live_volume v

unfoldable pub account_usage : String → Rows → List Volume → Usage
account_usage account rows volumes =
    let mine = select (held_by account) rows in
    let disks = select (volume_of account) volumes in
    record {
      instances = pos (length mine);
      vcpus = sum (map (λ i. i.cpu_cores) mine);
      memory_mib = sum (map (λ i. i.memory_mib) mine);
      root_disk_gib = sum (map (λ i. i.root_disk_gib) mine);
      volumes = pos (length disks);
      volume_gib = sum (map (λ v. v.size_gib) disks);
    }

abbrev pub cloud_usage : Rows → List Volume → Usage
cloud_usage = account_usage ""

unfoldable pub live_memory_mib : Rows → ℤ
live_memory_mib rows = sum (map (λ i. i.memory_mib) (select is_live rows))
