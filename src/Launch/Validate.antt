-- ===== src/Launch/Validate.antt =====
-- RunRequest, validate and validateTags of api/internal/compute/service.go.
use Prim.Native.String.{len}
use text.Mathlib.Text.{starts_with}
use shake_cloud.Prelude.{
  ◌||◌, ltb, leb, if◌then◌else◌, length, any, ℤ, pos, ltℤ, eqℤ, codes, ℕ, String, Bool, ◌&&◌, not,
  List, str_eq,
}
use shake_cloud.Result.{Result, ok, ◌>>=◌, ◌>>◌, unless}
use shake_cloud.Admission.Size.{InstanceType, Spec, SizeRequest, invalid_parameter, resolve_spec}
use shake_cloud.Admission.Limits.{Limits}
use shake_cloud.Admission.Host.{Storage, disk_tier_pool}
use shake_cloud.Launch.Media.{Shared, StoredImage, StoredIso, Iso, resolve_image, resolve_iso}
use shake_cloud.Launch.Network.{Network, launch_subnet}

-- The fields that decide the size are a record of their own.
pub record RunRequest : Type 0 where
  pub image_id : String
  pub size : SizeRequest
  pub key_name : String
  pub root_disk_gib : ℤ
  pub disk_tier : String
  pub subnet_id : String
  pub user_data : String
  pub client_token : String
  pub install_iso_id : String
  pub driver_iso_id : String
  pub guest_os : String
  pub tags : List (String × String)
  pub security_group_ids : List String

-- What validate reads: the site, the stored images and ISOs, and the administrator's store.
pub record Catalogue : Type 0 where
  pub images : List (String × Shared)
  pub stored_images : List StoredImage
  pub isos : List (String × Shared)
  pub stored_isos : List StoredIso
  pub admin : Result (List Iso)
  pub types : List (String × InstanceType)
  pub storage : Storage
  pub network : Network
  pub masked : String → String

abbrev pub is_empty_text : String → Bool
is_empty_text s = str_eq s ""

-- `key == "" || RuneCount(key) > 128 || RuneCount(value) > 256 || HasPrefix(key, "shakecloud:")`
abbrev pub bad_tag : String × String → Bool
bad_tag (key, value) =
    is_empty_text key
    || ltb 128 (length (codes key))
    || ltb 256 (length (codes value))
    || starts_with key "shakecloud:"

unfoldable pub validate_tags : List (String × String) → Result (Unit {0})
validate_tags tags =
    unless (ltb 20 (length tags)) invalid_parameter >> unless (any bad_tag tags) invalid_parameter

-- `^[\x21-\x7e]{1,64}$`
abbrev pub is_token : List ℕ → Bool
is_token cs = leb 1 (length cs) && leb (length cs) 64 && not (any (λ c. ltb c 33 || ltb 126 c) cs)

-- The first `switch`.
abbrev pub source_checked : RunRequest → Result (Unit {0})
source_checked r =
    unless (is_empty_text r.image_id && is_empty_text r.install_iso_id) invalid_parameter
    >> unless (not (is_empty_text r.image_id) && not (is_empty_text r.install_iso_id))
        invalid_parameter
    >> unless
        (not (is_empty_text r.guest_os)
          && not (str_eq r.guest_os "linux")
          && not (str_eq r.guest_os "windows"))
        invalid_parameter

-- The guest's system, given that of the image or the ISO.
abbrev pub guest_of : String → String → Result String
guest_of asked os =
    let guest = if is_empty_text asked then os else asked in
    unless (not (is_empty_text os) && not (str_eq guest os)) invalid_parameter >> ok guest

abbrev pub driver_checked : Catalogue → RunRequest → Result (Unit {0})
driver_checked c r =
    if is_empty_text r.driver_iso_id
    then ok tt
    else (unless (str_eq r.driver_iso_id r.install_iso_id) invalid_parameter
        >> (resolve_iso c.isos c.stored_isos c.admin r.driver_iso_id >>= λ driver. ok tt))

unfoldable pub guest_checked : Catalogue → RunRequest → Result String
guest_checked c r =
    if not (is_empty_text r.image_id)
    then (resolve_image c.images c.stored_images r.image_id >>= λ image.
        guest_of r.guest_os image.os)
    else (resolve_iso c.isos c.stored_isos c.admin r.install_iso_id >>= λ iso.
        guest_of r.guest_os iso.os >>= λ guest. driver_checked c r >> ok guest)

-- What is filled in where the request left it out.
abbrev pub filled : Limits → String → RunRequest → RunRequest
filled limits guest r = record r {
  guest_os = guest;
  root_disk_gib =
      if eqℤ r.root_disk_gib (pos 0) then limits.root_disk_gib.usual else r.root_disk_gib;
  disk_tier = if is_empty_text r.disk_tier then "ssd" else r.disk_tier;
}

abbrev pub disk_in_range : Limits → ℤ → Result (Unit {0})
disk_in_range limits gib =
    unless (ltℤ gib limits.root_disk_gib.least || ltℤ limits.root_disk_gib.most gib)
      invalid_parameter

abbrev pub texts_checked : RunRequest → Result (Unit {0})
texts_checked r =
    unless (ltb 16384 (len r.user_data)) invalid_parameter
    >> unless (not (is_empty_text r.client_token) && not (is_token (codes r.client_token)))
        invalid_parameter
    >> validate_tags r.tags

-- The request as it is filled in, and its size.
unfoldable pub validate : Catalogue → Limits → RunRequest → Result (Spec × RunRequest)
unfolding guest_checked
validate c limits r =
    source_checked r
    >> (guest_checked c r >>= λ guest. resolve_spec c.types r.size >>= λ spec.
        let r' = filled limits guest r in
        disk_in_range limits r'.root_disk_gib
        >> (disk_tier_pool c.storage r'.disk_tier >>= λ pool.
            launch_subnet c.masked c.network r.subnet_id >>= λ subnet.
            texts_checked r' >> ok (spec, r')))
