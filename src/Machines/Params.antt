-- ===== src/Machines/Params.antt =====
-- The parameters of a new VM (vlanTag, vmParams, windowsParams and installVmParams of
-- api/internal/compute/worker.go). The host name that package seed makes is a parameter.
use Prim.Native.String.{◌++◌ as ◌^^◌}
use shake_cloud.Prelude.{if◌then◌else◌, ℤ, pos, negsuc, ltℤ, ℕ, ◌+◌, String, not, [], ◌∷◌, str_eq}
use shake_cloud.Db.Instance.{Instance}
use shake_cloud.Launch.Network.{Network}
use shake_cloud.Disks.Cloud.{Config}
use shake_cloud.Disks.Keys.{itoa}

-- strconv.Itoa on an int.
abbrev int_text : ℤ → String
int_text (pos n) = itoa n
int_text (negsuc n) = "-" ^^ itoa (n + 1)

unfoldable pub vlan_tag : ℤ → String
vlan_tag id = if not (ltℤ (pos 0) id) then "" else ",tag=" ^^ int_text id

-- `values.Set`
unfoldable pub put : String → String → Config → Config
put key value [] = (key, value) ∷ []
put key value ((k, old) ∷ config) =
    let rest = put key value config in if str_eq k key then (k, value) ∷ config else (k, old) ∷ rest

unfoldable pub windows_params : String → Config → Config
unfolding put
windows_params pool config = put "agent" "enabled=1" (
    put "tpmstate0" (pool ^^ ":4,version=v2.0") (
      put "efidisk0" (pool ^^ ":0,efitype=4m,pre-enrolled-keys=1")
        (put "machine" "q35" (put "bios" "ovmf" (put "ostype" "win11" config)))))

abbrev nic : Network → ℤ → Instance → String
nic network tag i =
    "virtio=" ^^ i.mac_address ^^ ",bridge=" ^^ network.bridge ^^ ",firewall=1" ^^ vlan_tag tag

unfoldable pub vm_params :
    Network → String → String → ℤ → Instance → ℕ → String → String → String → String → Config
unfolding windows_params
vm_params network node_pool hostname tag i vmid seed_volume image_volume guest_os pool =
    let values : Config =
      ("vmid", itoa vmid)
      ∷ ("name", hostname)
      ∷ ("pool", node_pool)
      ∷ ("ostype", "l26")
      ∷ ("cores", int_text i.cpu_cores)
      ∷ ("cpu", "host")
      ∷ ("memory", int_text i.memory_mib)
      ∷ ("balloon", int_text i.memory_min_mib)
      ∷ ("scsihw", "virtio-scsi-single")
      ∷ ("virtio0", pool ^^ ":0,import-from=" ^^ image_volume ^^ ",discard=on")
      ∷ ("ide2", seed_volume ^^ ",media=cdrom")
      ∷ ("net0", nic network tag i)
      ∷ ("boot", "order=virtio0")
      ∷ ("serial0", "socket")
      ∷ ("onboot", "1")
      ∷ ("tags", "shakecloud")
      ∷ (
        "description",
        "shake-cloud instance " ^^ i.id ^^ " (account " ^^ i.account_id
            ^^ "). Managed by cloud/api; do not edit.",
      )
      ∷ [] in
    if str_eq guest_os "windows" then windows_params pool values else values

unfoldable pub install_vm_params :
    Network → String → String → ℤ → Instance → ℕ → String → String → String → String → Config
unfolding windows_params put
install_vm_params network node_pool hostname tag i vmid seed_volume install_volume driver_volume
      pool =
    let values : Config =
      ("vmid", itoa vmid)
      ∷ ("name", hostname)
      ∷ ("pool", node_pool)
      ∷ ("ostype", "l26")
      ∷ ("cores", int_text i.cpu_cores)
      ∷ ("cpu", "host")
      ∷ ("memory", int_text i.memory_mib)
      ∷ ("balloon", int_text i.memory_min_mib)
      ∷ ("scsihw", "virtio-scsi-single")
      ∷ ("virtio0", pool ^^ ":" ^^ int_text i.root_disk_gib ^^ ",discard=on")
      ∷ ("ide0", seed_volume ^^ ",media=cdrom")
      ∷ ("ide2", install_volume ^^ ",media=cdrom")
      ∷ ("net0", nic network tag i)
      ∷ ("boot", "order=ide2;virtio0")
      ∷ ("serial0", "socket")
      ∷ ("onboot", "1")
      ∷ ("tags", "shakecloud")
      ∷ (
        "description",
        "shake-cloud instance " ^^ i.id ^^ " (account " ^^ i.account_id
            ^^ ", ISO install). Managed by cloud/api; do not edit.",
      )
      ∷ [] in
    let with_driver =
      if str_eq driver_volume ""
      then values
      else put "ide3" (driver_volume ^^ ",media=cdrom") values in
    if str_eq i.guest_os "windows" then windows_params pool with_driver else with_driver
