-- ===== src/Admission/Resizes.antt =====
-- What an accepted resize is (Service.Modify of api/internal/compute/modify.go).
use shake_cloud.Prelude.{find, update_where, ◌≤ℤ◌, ℕ, String, ◌≡◌, ◌⊎◌, true, none, some}
use shake_cloud.Result.{Result}
use shake_cloud.Db.Instance.{stopped, Instance, has_id}
use shake_cloud.Db.Instances.{Rows}
use shake_cloud.Db.Volumes.{Volumes}
use shake_cloud.Admission.Limits.{Limits}
use shake_cloud.Admission.Size.{ModifyRequest, spec_of, target}
use shake_cloud.Admission.Bootable.{IsBootable}
use shake_cloud.Admission.Modify.{same_spec, wanted_disk}

-- A row with the size that the request asks of the instance `i`.
abbrev pub resized : ℕ → ModifyRequest → Instance → Instance → Instance
resized now r i j = record j {
  cpu_cores = (target r (spec_of i)).cpu_cores;
  memory_mib = (target r (spec_of i)).memory_mib;
  memory_min_mib = (target r (spec_of i)).memory_min_mib;
  ballooning = (target r (spec_of i)).ballooning;
  root_disk_gib = wanted_disk r i;
  instance_type = "";
  updated_at = now;
}

-- The row `j` of the table got the size, and no other row changed.
abbrev pub IsResized : ℕ → String → ModifyRequest → Instance → Rows → Instance × Rows → Type 0
IsResized now k r i rows c =
    (j : Instance) × (find (has_id k) rows ≡ some j)
    × (c.0 ≡ resized now r i j)
    × (c.1 ≡ update_where (has_id k) (resized now r i) rows)

-- Either nothing was to change, or the instance was idle, its new size boots, its disk did not
-- shrink, a changed size was given to a stopped machine, and its row has the new size.
abbrev pub IsModified : ℕ → String → ModifyRequest → Instance → Rows → Instance × Rows → Type 0
IsModified now k r i rows c =
    (c ≡ (i, rows))
    ⊎ ((i.pending_action ≡ none)
        × IsBootable (target r (spec_of i))
        × (i.root_disk_gib ≤ℤ wanted_disk r i)
        × ((same_spec (target r (spec_of i)) (spec_of i) ≡ true) ⊎ (i.state ≡ stopped))
        × IsResized now k r i rows c)
