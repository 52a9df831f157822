-- ===== src/Launch/Examples.antt =====
-- A launch on a small site, and its retry.
use shake_cloud.Prelude.{
  pos, ◌+ℤ◌, ◌-ℤ◌, wrap64, lookup, codes, ◌^◌, ◌≡◌, refl, true, false, none, some, [], ◌∷◌,
}
use shake_cloud.Result.{not_found, Result, err, ok}
use shake_cloud.Db.Instance.{Instance}
use shake_cloud.Db.Instances.{get_instance, instance_by_client_token, collides, insert_instance}
use shake_cloud.Db.Groups.{Tables, lock_security_group, set_instance_groups}
use shake_cloud.Groups.Handlers.{resolve_groups}
use shake_cloud.Admission.Size.{Spec, validate_spec, resolve_spec}
use shake_cloud.Admission.Quota.{check_quota}
use shake_cloud.Admission.Host.{check_disk_pool, check_host, disk_tier_storage, disk_tier_pool}
use shake_cloud.Admission.Vmid.{allocate_vmid}
use shake_cloud.Launch.Media.{resolve_image}
use shake_cloud.Launch.Network.{subnet_name, launch_subnet}
use shake_cloud.Launch.Validate.{RunRequest, validate_tags, validate}
use shake_cloud.Launch.Run.{Launchpad, Drawn, public_key_of, row_of, run}
use shake_cloud.Launch.Admitted.{launched}
use shake_cloud.Launch.Again.{run_again}
use shake_cloud.Admission.Usage.{account_usage, live_memory_mib}

abbrev everyone : Instance → Result (Unit {0})
everyone i = ok tt

abbrev asked : RunRequest
asked = record {
  image_id = "debian";
  size = record {
    instance_type = "";
    vcpus = some (pos 2);
    memory_mib = some (pos 1024);
    memory_min_mib = none;
    ballooning = none;
  };
  key_name = "";
  root_disk_gib = pos 0;
  disk_tier = "";
  subnet_id = "";
  user_data = "";
  client_token = "t1";
  install_iso_id = "";
  driver_iso_id = "";
  guest_os = "";
  tags = [];
  security_group_ids = "sg-1" ∷ [];
}

abbrev pad : Launchpad
pad = record {
  catalogue = record {
    images = ("debian", record { name = "Debian"; volume = "v"; os = "" }) ∷ [];
    stored_images = [];
    isos = [];
    stored_isos = [];
    admin = ok [];
    types = [];
    storage = record { vm_disks = "ssd"; vm_disks_hdd = ""; images = "store" };
    network = record {
      bridge = "vmbr0";
      gateway = "g";
      dns_servers = [];
      ip_range_start = "10.0.0.1/24";
      vlan_id = pos 0;
      bridge_vlan_aware = false;
      subnets = [];
    };
    masked = λ range. range;
  };
  limits = record {
    account_quota = record {
      instances = pos 2;
      vcpus = pos 0;
      memory_mib = pos 0;
      root_disk_gib = pos 0;
      volumes = pos 0;
      volume_gib = pos 0;
    };
    root_disk_gib = record { least = pos 1; most = pos 100; usual = pos 20 };
    volume_size_gib = record { least = pos 1; most = pos 100 };
    capacity = record {
      memory_budget_mib = pos 0;
      node_memory_reserve_mib = pos 0;
      vm_disk_max_used_percent = pos 0;
      image_store_min_free_mib = pos 0;
      max_image_gib = pos 0;
    };
  };
  vmid_from = 9000;
  vmid_to = 9009;
  volume_holder = 9999;
  probes = [];
  pve = record {
    node_status = ok (record { cpus = pos 8; available = pos (2 ^ 34) });
    storage_status = λ pool. ok (record { total = pos 100; used = pos 1; avail = pos 99 });
  };
  visible = ok (9000 ∷ []);
  key_pairs = [];
  volumes = [];
  quarantine = [];
  hash = λ r. codes r.image_id;
}

abbrev first_drawn : Drawn
first_drawn = record {
  instance = "i-1";
  mac = "m1";
  fresh = record { group = "sg-a"; default_group = "sg-b"; rule = λ n. "r" };
}

abbrev second_drawn : Drawn
second_drawn = record {
  instance = "i-2";
  mac = "m2";
  fresh = record { group = "sg-c"; default_group = "sg-d"; rule = λ n. "r" };
}

abbrev at_first : Tables
at_first = record {
  instances = [];
  groups =
      record {
        id = "sg-1";
        account_id = "a1";
        owner_username = "ann";
        name = "web";
        description = "";
        is_default = false;
        created_at = 0;
        updated_at = 0;
      }
      ∷ [];
  rules = [];
  members = [];
}

abbrev spec_asked : Spec
spec_asked = record {
  cpu_cores = pos 2;
  memory_mib = pos 1024;
  memory_min_mib = pos 512;
  ballooning = true;
  type_name = "";
}

abbrev asked_filled : RunRequest
asked_filled = record asked { root_disk_gib = pos 20; disk_tier = "ssd" }

abbrev made : Instance
made = launched 7 (row_of first_drawn "a1" asked_filled spec_asked (codes "debian") "" 9001)

abbrev after_first : Tables
after_first = record at_first {
  instances = made ∷ [];
  members = record { instance_id = "i-1"; group_id = "sg-1" } ∷ [];
}

made_first : run 7 pad first_drawn "a1" asked everyone [] at_first ≡ (ok (made, true), after_first)
unfolding run validate resolve_image lookup resolve_spec validate_spec disk_tier_pool
    disk_tier_storage launch_subnet validate_tags instance_by_client_token public_key_of check_host
    wrap64 ◌-ℤ◌ check_disk_pool check_quota ◌+ℤ◌ account_usage live_memory_mib allocate_vmid
    lock_security_group set_instance_groups collides get_instance insert_instance resolve_groups
    subnet_name
made_first = refl

-- The retry finds no hypervisor and no key pair, and does not need them.
abbrev dark_pad : Launchpad
dark_pad = record pad { visible = err not_found; key_pairs = [] }

run_again_example :
    run 8 dark_pad second_drawn "a1" asked everyone after_first.instances at_first
    ≡ (ok (made, false), at_first)
run_again_example =
    (run_again 7 pad dark_pad first_drawn "a1" asked everyone [] at_first refl (refl, refl, refl)
        made_first).0
      8 second_drawn everyone at_first
