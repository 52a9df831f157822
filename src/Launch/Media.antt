-- ===== src/Launch/Media.antt =====
-- What an instance starts from: images and ISOs (ResolveImage of api/internal/compute/images.go,
-- ResolveISO and ISOs of api/internal/compute/isos.go). The names that Go's path package cuts out of
-- a volume, the hexadecimal SHA-256 and what the hypervisor lists are parameters.
use Prim.Native.String.{slice, ◌++◌ as ◌^^◌}
use shake_cloud.Prelude.{
  if◌then◌else◌, find, ℤ, pos, lookup, ℕ, String, Bool, true, false, Option, none, some, List, [],
  map, str_eq,
}
use shake_cloud.Result.{refuse, not_found, Result, err, ok, ◌>>=◌}

-- site.Image and site.ISO
pub record Shared : Type 0 where
  pub name : String
  pub volume : String
  pub os : String

-- db.Image
pub record StoredImage : Type 0 where
  pub id : String
  pub account_id : String
  pub owner_username : String
  pub name : String
  pub volume : String
  pub format : String
  pub size_bytes : ℤ
  pub created_at : ℕ

-- db.ISO
pub record StoredIso : Type 0 where
  pub id : String
  pub account_id : String
  pub owner_username : String
  pub name : String
  pub volume : String
  pub size_bytes : ℤ
  pub os : String
  pub created_at : ℕ

pub record Image : Type 0 where
  pub id : String
  pub name : String
  pub os : String
  pub volume : String
  pub format : String
  pub is_public : Bool
  pub account_id : String
  pub owner_username : String
  pub size_bytes : ℤ
  pub created_at : ℕ

pub record Iso : Type 0 where
  pub id : String
  pub name : String
  pub volume : String
  pub os : String
  pub is_public : Bool
  pub account_id : String
  pub owner_username : String
  pub size_bytes : ℤ
  pub created_at : ℕ

abbrev pub image_of : StoredImage → Image
image_of i = record {
  id = i.id;
  name = i.name;
  os = "";
  volume = i.volume;
  format = i.format;
  is_public = false;
  account_id = i.account_id;
  owner_username = i.owner_username;
  size_bytes = i.size_bytes;
  created_at = i.created_at;
}

abbrev pub shared_image : String → Shared → Image
shared_image id s = record {
  id = id;
  name = s.name;
  os = s.os;
  volume = s.volume;
  format = "";
  is_public = true;
  account_id = "";
  owner_username = "";
  size_bytes = pos 0;
  created_at = 0;
}

unfoldable pub get_image : String → List StoredImage → Result StoredImage
get_image id images = elim (find (λ (i : StoredImage). str_eq i.id id) images) [
  | none ↦ err not_found
  | some i ↦ ok i
]

abbrev pub found_image : Result StoredImage → Result Image
found_image (ok i) = ok (image_of i)
found_image (err not_found) = err (refuse 400 "InvalidImageID.NotFound")
found_image (err e) = err e

unfoldable pub resolve_image : List (String × Shared) → List StoredImage → String → Result Image
unfolding get_image
resolve_image shared stored id = elim (lookup id shared) [
  | some s ↦ ok (shared_image id s)
  | none ↦ found_image (get_image id stored)
]

abbrev pub iso_of : StoredIso → Iso
iso_of i = record {
  id = i.id;
  name = i.name;
  volume = i.volume;
  os = i.os;
  is_public = false;
  account_id = i.account_id;
  owner_username = i.owner_username;
  size_bytes = i.size_bytes;
  created_at = i.created_at;
}

abbrev pub shared_iso : String → Shared → Iso
shared_iso id s = record {
  id = id;
  name = s.name;
  volume = s.volume;
  os = s.os;
  is_public = true;
  account_id = "";
  owner_username = "";
  size_bytes = pos 0;
  created_at = 0;
}

-- A file of the administrator's store, as the hypervisor lists it.
pub record Listed : Type 0 where
  pub volid : String
  pub size : ℤ

unfoldable pub auto_iso_id : (String → String) → String → String
auto_iso_id hex_sha256 volume = "iso-" ^^ slice (hex_sha256 volume) 0 17

unfoldable pub admin_isos :
    (String → String) → (String → String) → String → Result (List Listed) → Result (List Iso)
unfolding auto_iso_id
admin_isos hex_sha256 base_name store listed =
    if str_eq store ""
    then ok []
    else (listed >>= λ files. ok (
        map {B = Iso}
          (λ (f : Listed). record {
            id = auto_iso_id hex_sha256 f.volid;
            name = base_name f.volid;
            volume = f.volid;
            os = "";
            is_public = true;
            account_id = "";
            owner_username = "";
            size_bytes = f.size;
            created_at = 0;
          })
          files))

abbrev or_no_iso : Option Iso → Result Iso
or_no_iso none = err (refuse 400 "InvalidISOID.NotFound")
or_no_iso (some i) = ok i

unfoldable pub resolve_iso :
    List (String × Shared) → List StoredIso → Result (List Iso) → String → Result Iso
resolve_iso shared stored admin id = elim (lookup id shared) [
  | some s ↦ ok (shared_iso id s)
  | none ↦ elim (find (λ (i : StoredIso). str_eq i.id id) stored) [
    | some i ↦ ok (iso_of i)
    | none ↦ admin >>= λ isos. or_no_iso (find (λ (i : Iso). str_eq i.id id) isos)
  ]
]
