-- ===== src/Disks/Keys.antt =====
-- The keys of a VM's configuration (volidAt, diskKeyOf, freeKey and plugged of
-- api/internal/compute/volume_worker.go).
use Prim.Native.String.{len, slice, find as find_in, ◌++◌ as ◌^^◌}
use text.Mathlib.Text.{starts_with}
use shake_cloud.Prelude.{
  leb, ◌==◌, if◌then◌else◌, length, any, find, lookup, codes, ℕ, zero, suc, ◌+◌, ◌-◌, ◌/◌, ◌%◌,
  String, Bool, true, ◌&&◌, not, Option, none, some, List, [], ◌∷◌, str_eq,
}
use shake_cloud.Disks.Cloud.{Config}

-- strings.SplitN(value, ",", 2)[0]
abbrev pub before_comma : String → String
before_comma s = slice s 0 (find_in s ",")

unfoldable pub volid_at : Config → String → String
volid_at config key = elim (lookup key config) [ none ↦ "" | some value ↦ before_comma value ]

abbrev all_digits : List ℕ → Bool
all_digits [] = true
all_digits (c ∷ cs) = leb 48 c && leb c 57 && all_digits cs

-- The key is the prefix and one digit or more.
abbrev pub numbered_after : String → String → Bool
numbered_after key prefix =
    starts_with key prefix
    && (let rest = codes (slice key (len prefix) (len key)) in
        leb 1 (length rest) && all_digits rest)

-- `^(virtio|scsi|sata|ide|unused)\d+$`
unfoldable pub is_disk_key : String → Bool
is_disk_key key = any (numbered_after key) ("virtio" ∷ "scsi" ∷ "sata" ∷ "ide" ∷ "unused" ∷ [])

abbrev pub holds : Config → String → String × String → Bool
holds config volid (key, value) = is_disk_key key && str_eq (before_comma value) volid

abbrev key_or_empty : Option (String × String) → String
key_or_empty none = ""
key_or_empty (some (key, value)) = key

-- The source ranges over a map, whose keys are in no order; here it is the list's.
unfoldable pub disk_key_of : Config → String → String
unfolding is_disk_key
disk_key_of config volid = key_or_empty (find (holds config volid) config)

abbrev digit : ℕ → String
digit d = slice "0123456789" d (d + 1)

-- strconv.Itoa
unfoldable pub itoa_from : ℕ → ℕ → String
itoa_from zero n = digit (n % 10)
itoa_from (suc fuel) n =
    let front = itoa_from fuel (n / 10) in
    if n / 10 == 0 then digit (n % 10) else front ^^ digit (n % 10)

-- The numbers below 2 ^ 64 have twenty digits at most.
abbrev pub itoa : ℕ → String
itoa n = itoa_from 20 n

abbrev taken : Config → String → Bool
taken config key = any (λ ((k, value) : String × String). str_eq k key) config

-- The loop, over `left` numbers from `n`.
unfoldable pub free_from : Config → String → ℕ → ℕ → String
unfolding itoa_from
free_from config prefix n zero = ""
free_from config prefix n (suc left) =
    let rest = free_from config prefix (suc n) left in
    if taken config (prefix ^^ itoa n) then rest else prefix ^^ itoa n

unfoldable pub free_key : Config → String → ℕ → ℕ → String
unfolding free_from
free_key config prefix from to = free_from config prefix from (suc to - from)

abbrev pub is_unused : String → Bool
is_unused key = starts_with key "unused"

abbrev pub plugged : String → Bool
plugged key = not (str_eq key "") && not (is_unused key)
