-- ===== src/Machines/Interface.antt =====
-- What the instance worker uses of Proxmox and of NetBox, besides the calls of Disks.Cloud, as
-- api/internal/compute/worker.go calls them.
use shake_cloud.Prelude.{ℕ, String, List}
use shake_cloud.Db.Instance.{Instance}
use shake_cloud.Disks.Cloud.{Outcome, Eff, Config, Cloud}

-- netbox.IPAddress
pub record Address : Type 0 where
  pub id : ℕ
  pub address : String
  pub description : String
  pub dns_name : String

pub record Machines (cloud : Cloud) : Type 0 where
  -- VMStatus
  pub vm_status : ℕ → cloud.State → Outcome String
  -- Power and its task.
  pub power : ℕ → String → Eff cloud.State (Unit {0})
  -- CreateVM and its task.
  pub create_vm : Config → Eff cloud.State (Unit {0})
  -- DeleteVM and its task.
  pub delete_vm : ℕ → Eff cloud.State (Unit {0})
  -- UpdateVMConfig
  pub update_config : ℕ → String → String → Eff cloud.State (Unit {0})
  -- The ISO files of a storage.
  pub list_isos : String → cloud.State → Outcome (List String)
  pub delete_volume : String → String → Eff cloud.State (Unit {0})
  -- UploadISO and its task.
  pub upload_iso : String → String → List ℕ → Eff cloud.State (Unit {0})
  -- NetBox.
  pub addresses_of : String → cloud.State → Outcome (List Address)
  pub range_id : String → cloud.State → Outcome ℕ
  pub allocate_ip : ℕ → String → String → Eff cloud.State Address
  pub delete_ip : ℕ → Eff cloud.State (Unit {0})
  -- seed.Hostname of the instance's name, and the ISO that seed.Build writes for an address.
  pub hostname : Instance → String
  pub seed_iso : Instance → String → Outcome (List ℕ)
