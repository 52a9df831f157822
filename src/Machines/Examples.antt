-- ===== src/Machines/Examples.antt =====
-- A terminate on a hypervisor with one machine.
-- The machine 9000 exists until it is deleted.
use shake_cloud.Prelude.{
  if◌then◌else◌, pos, lookup, ◌≡◌, refl, Bool, true, false, none, some, [], ◌∷◌,
}
use shake_cloud.Db.Volumes.{volumes_of_instance}
use shake_cloud.Db.Instance.{shutting_down, terminate, Instance}
use shake_cloud.Disks.Cloud.{busy, absent, fault, done, Cloud, Site, World}
use shake_cloud.Disks.Keys.{is_disk_key}
use shake_cloud.Disks.Moves.{volume_by_volid, owns}
use shake_cloud.Disks.Returns.{volumes_on_vm, return_volumes}
use shake_cloud.Machines.Interface.{Machines}
use shake_cloud.Machines.Steps.{remove_vm}

abbrev one_machine : Cloud
one_machine = record {
  State = Bool;
  vm_config = λ n here.
      if here
      then done (("description", "shake-cloud instance i-1") ∷ ("virtio0", "ssd:root") ∷ [])
      else fault absent;
  list_vms = λ here. done (if here then record { vmid = 9000; status = "stopped" } ∷ [] else []);
  pending_keys = λ n here. done [];
  list_disks = λ storage here. done [];
  create_holder = λ n here. (done tt, here);
  configure = λ n key value here. (done tt, here);
  unlink = λ n key force here. (done tt, here);
  move_disk = λ source from target to here. (done tt, here);
  resize_disk = λ n key size here. (done tt, here);
  commit = λ here. (done tt, here);
}

abbrev its_machines : Machines one_machine
its_machines = record {
  vm_status = λ n here. done "stopped";
  power = λ n action here. (done tt, here);
  create_vm = λ params here. (done tt, true);
  delete_vm = λ n here. (done tt, false);
  update_config = λ n key value here. (done tt, here);
  list_isos = λ storage here. done [];
  delete_volume = λ storage volume here. (done tt, here);
  upload_iso = λ storage name content here. (done tt, here);
  addresses_of = λ k here. done [];
  range_id = λ start here. done 1;
  allocate_ip = λ range k host here. (fault busy, here);
  delete_ip = λ id here. (done tt, here);
  hostname = λ i. i.name;
  seed_iso = λ i ip. done [];
}

abbrev box : Instance
box = record {
  id = "i-1";
  account_id = "a1";
  owner_username = "ann";
  client_token = "";
  request_sha256 = [];
  name = "web";
  image_id = "debian";
  guest_os = "";
  install_iso_id = "";
  driver_iso_id = "";
  instance_type = "small";
  cpu_cores = pos 2;
  memory_mib = pos 2048;
  memory_min_mib = pos 512;
  ballooning = true;
  root_disk_gib = pos 20;
  disk_tier = "ssd";
  subnet = "";
  user_data = "";
  key_name = "";
  key_public_key = "";
  tags = [];
  state = shutting_down;
  pending_action = some terminate;
  state_reason = [];
  last_error = [];
  attempts = 0;
  next_attempt_at = 5;
  lease_until = none;
  vmid = some 9000;
  vm_created = true;
  mac_address = "";
  ip_address = "";
  netbox_ip_id = none;
  seed_volume = "";
  launch_time = 1;
  terminated_at = none;
  updated_at = 1;
  adopted = false;
  firewall_generation = 0;
  firewall_applied = 0;
  firewall_last_error = "";
  firewall_next_attempt_at = 0;
  firewall_lease_until = none;
}

abbrev its_world : World one_machine
its_world = record {
  state = true;
  volumes = [];
  instances = box ∷ [];
  location = record { vmid = none; config_key = ""; vol_id = ""; move_vmid = none; move_key = "" };
  quarantine = [];
}

abbrev its_site : Site
its_site = record {
  holder = 9999;
  storage = record { vm_disks = "ssd"; vm_disks_hdd = ""; images = "store" };
  now = 7;
}

-- The machine is deleted.
box_goes : (remove_vm one_machine its_machines its_site box 9000 its_world).1.state ≡ false
unfolding remove_vm owns lookup return_volumes volumes_on_vm volumes_of_instance volume_by_volid
    is_disk_key
box_goes = refl
