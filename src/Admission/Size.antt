-- ===== src/Admission/Size.antt =====
-- The size of an instance (Spec, balloonFloor, resolveSpec and validateSpec of
-- api/internal/compute/service.go, ModifyRequest of api/internal/compute/modify.go, InstanceType of
-- api/internal/site/site.go).
use shake_cloud.Prelude.{
  ◌/◌, ◌-◌, ◌==◌, suc, ℤ, pos, negsuc, ltℤ, eqℤ, String, Bool, true, false, ◌||◌, ◌&&◌, not, Option,
  none, some, List, lookup, str_eq, if◌then◌else◌,
}
use shake_cloud.Result.{Result, ok, err, Err, refuse, unless, ◌>>=◌, ◌>>◌}
use shake_cloud.Db.Instance.{Instance, is_none}

pub record InstanceType : Type 0 where
  pub cpu_cores : ℤ
  pub memory_mib : ℤ
  pub memory_min_mib : ℤ

pub record Spec : Type 0 where
  pub cpu_cores : ℤ
  pub memory_mib : ℤ
  pub memory_min_mib : ℤ
  pub ballooning : Bool
  pub type_name : String

-- The fields of RunRequest that decide the size.
pub record SizeRequest : Type 0 where
  pub instance_type : String
  pub vcpus : Option ℤ
  pub memory_mib : Option ℤ
  pub memory_min_mib : Option ℤ
  pub ballooning : Option Bool

pub record ModifyRequest : Type 0 where
  pub vcpus : Option ℤ
  pub memory_mib : Option ℤ
  pub memory_min_mib : Option ℤ
  pub ballooning : Option Bool
  pub root_disk_gib : Option ℤ

abbrev pub min_memory_mib : ℤ
min_memory_mib = pos 512

-- Go's `/` by four, which rounds towards zero.
abbrev quarter : ℤ → ℤ
quarter (pos n) = pos (n / 4)
quarter (negsuc n) = let q = suc n / 4 in if q == 0 then pos 0 else negsuc (q - 1)

abbrev pub maxℤ : ℤ → ℤ → ℤ
maxℤ a b = if ltℤ a b then b else a

abbrev pub balloon_floor : ℤ → ℤ
balloon_floor memory_mib = maxℤ min_memory_mib (quarter memory_mib)

abbrev pub or_default {ℓ} : {A : Type ℓ} → Option A → A → A
or_default none d = d
or_default (some a) d = a

abbrev pub invalid_parameter : Err
invalid_parameter = refuse 400 "InvalidParameterValue"

unfoldable pub validate_spec : Spec → Result (Unit {0})
validate_spec spec =
    unless (ltℤ spec.cpu_cores (pos 1)) invalid_parameter
    >> unless (ltℤ spec.memory_mib min_memory_mib) invalid_parameter
    >> unless (spec.ballooning && ltℤ spec.memory_min_mib min_memory_mib) invalid_parameter
    >> unless (spec.ballooning && ltℤ spec.memory_mib spec.memory_min_mib) invalid_parameter

-- The `switch` of resolveSpec: the floor of the memory, given the preset's.
abbrev pub launch_floor : SizeRequest → Bool → ℤ → ℤ → ℤ
launch_floor r false memory floor = pos 0
launch_floor r true memory floor = elim r.memory_min_mib [
  | some given ↦ given
  | none ↦ if eqℤ floor (pos 0) || not (is_none r.memory_mib) then balloon_floor memory else floor
]

-- What resolveSpec makes of a starting point, before it is validated.
abbrev pub overridden : SizeRequest → Spec → Spec
overridden r start =
    let memory = or_default r.memory_mib start.memory_mib in
    let ballooning = or_default r.ballooning true in
    let untouched =
      is_none r.vcpus && is_none r.memory_mib && is_none r.memory_min_mib && is_none r.ballooning in
    record {
      cpu_cores = or_default r.vcpus start.cpu_cores;
      memory_mib = memory;
      memory_min_mib = launch_floor r ballooning memory start.memory_min_mib;
      ballooning = ballooning;
      type_name = if untouched then start.type_name else "";
    }

abbrev pub preset : String → Option InstanceType → Result Spec
preset name none = err invalid_parameter
preset name (some t) = ok (record {
  cpu_cores = t.cpu_cores;
  memory_mib = t.memory_mib;
  memory_min_mib = t.memory_min_mib;
  ballooning = false;
  type_name = name;
})

-- Go's zero value.
abbrev pub zero_spec : Spec
zero_spec = record {
  cpu_cores = pos 0;
  memory_mib = pos 0;
  memory_min_mib = pos 0;
  ballooning = false;
  type_name = "";
}

abbrev pub starting_point : List (String × InstanceType) → SizeRequest → Result Spec
starting_point types r =
    if str_eq r.instance_type ""
    then (if is_none r.vcpus || is_none r.memory_mib then err invalid_parameter else ok zero_spec)
    else preset r.instance_type (lookup r.instance_type types)

abbrev pub validated : Spec → Result Spec
validated spec = validate_spec spec >> ok spec

unfoldable pub resolve_spec : List (String × InstanceType) → SizeRequest → Result Spec
resolve_spec types r = starting_point types r >>= λ start. validated (overridden r start)

-- The `switch` of ModifyRequest.target.
abbrev pub changed_floor : ModifyRequest → Bool → ℤ → ℤ → ℤ
changed_floor r false memory floor = pos 0
changed_floor r true memory floor = elim r.memory_min_mib [
  | some given ↦ given
  | none ↦
      if not (is_none r.memory_mib) || eqℤ floor (pos 0) || ltℤ memory floor
      then balloon_floor memory
      else floor
]

abbrev pub spec_of : Instance → Spec
spec_of i = record {
  cpu_cores = i.cpu_cores;
  memory_mib = i.memory_mib;
  memory_min_mib = i.memory_min_mib;
  ballooning = i.ballooning;
  type_name = "";
}

-- The size that the request leads to, from the size of the instance.
unfoldable pub target : ModifyRequest → Spec → Spec
target r current =
    let memory = or_default r.memory_mib current.memory_mib in
    let ballooning = or_default r.ballooning current.ballooning in
    record {
      cpu_cores = or_default r.vcpus current.cpu_cores;
      memory_mib = memory;
      memory_min_mib = changed_floor r ballooning memory current.memory_min_mib;
      ballooning = ballooning;
      type_name = "";
    }
