-- ===== src/Volumes/Coherence.antt =====
-- The states, attachments and actions that belong together, and that each write of a row keeps them
-- so.
use shake_cloud.Prelude.{
  refl, ℤ, List, true, false, ℕ, sym, ◌∙◌, ◌⊎◌, String, ◌≡◌, Option, none, some, arith,
  if◌then◌else◌,
}
use shake_cloud.Db.Instance.{is_none}
use shake_cloud.Db.Volume.{
  Location, has_volume_action, same_volume_action, VolumeState, creating, available, in_use,
  deleting, deleted, error, Attachment, attaching, attached, detaching, VolumeAction, create,
  attach, detach, resize, delete, Volume, volume_state_eq,
}
use shake_cloud.Db.Volumes.{
  asked_resize, returned, resize_given_up, attach_given_up, create_given_up, asked_delete,
  asked_detach, asked_attach, finished_volume, state_after, attachment_after, unless_detach,
  moves_between,
}

abbrev pub FitsVolume : VolumeState → Option Attachment → Option VolumeAction → Type 0
FitsVolume creating none (some create) = Unit
FitsVolume available none none = Unit
FitsVolume available none (some resize) = Unit
FitsVolume available (some attaching) (some attach) = Unit
FitsVolume available (some detaching) (some detach) = Unit
FitsVolume in_use (some attached) none = Unit
FitsVolume in_use (some attached) (some resize) = Unit
FitsVolume in_use (some detaching) (some detach) = Unit
FitsVolume deleting none (some delete) = Unit
FitsVolume deleted none none = Unit
FitsVolume error none none = Unit
FitsVolume _ _ _ = ⊥

-- A volume names an instance and a device just when it has an attachment, and its state, attachment
-- and action belong together.
abbrev pub IsCoherent : Volume → Type 0
IsCoherent v =
    FitsVolume v.state v.attachment_state v.pending_action
    × (is_none v.instance_id ≡ is_none v.attachment_state)
    × (is_none v.device ≡ is_none v.attachment_state)

after-FitsVolume :
    (s : VolumeState) (t : Option Attachment) (a : VolumeAction)
    → FitsVolume s t (some a)
    → FitsVolume (state_after (some a) s) (attachment_after (some a) t) none
after-FitsVolume s t a h = ground arith

after-named :
    (n : Option String) (s : VolumeState) (t : Option Attachment) (a : VolumeAction)
    → FitsVolume s t (some a)
    → is_none n ≡ is_none t
    → is_none (unless_detach (some a) n) ≡ is_none (attachment_after (some a) t)
after-named n s t a h e = ground arith

returned-FitsVolume :
    (s : VolumeState) (t : Option Attachment) (a : Option VolumeAction)
    → FitsVolume s t a
    → FitsVolume
        (if volume_state_eq s in_use then available else s)
        none
        (if moves_between a then none else a)
returned-FitsVolume s t a h = ground arith

-- A row that an UPDATE takes by its action is owed that action.
acted :
    (p a : Option VolumeAction)
    → same_volume_action p a ≡ true
    → (b : VolumeAction) × (p ≡ some b) × (a ≡ some b)
acted (some b) (some c) h = (b, refl, ground arith)
acted none a h = cc
acted (some b) none h = cc

taken :
    (k : String) (a : Option VolumeAction) (v : Volume)
    → has_volume_action k a v ≡ true
    → (b : VolumeAction) × (v.pending_action ≡ some b) × (a ≡ some b)
taken k a v h = acted v.pending_action a (ground arith)

pub finished-IsCoherent :
    (now : ℕ) (k : String) (a : Option VolumeAction) (v : Volume)
    → has_volume_action k a v ≡ true
    → IsCoherent v
    → IsCoherent (finished_volume now a v)
finished-IsCoherent now k a v h (fits, instance, device) =
    let (b, mine, e) = taken k a v h in
    let here : FitsVolume v.state v.attachment_state (some b) = rw mine at fits in
    rw e (
      after-FitsVolume v.state v.attachment_state b here,
      after-named v.instance_id v.state v.attachment_state b here instance,
      after-named v.device v.state v.attachment_state b here device,
    )

create_fails :
    (s : VolumeState) (t : Option Attachment)
    → FitsVolume s t (some create)
    → FitsVolume error t none
create_fails s t h = ground arith

attach_fails :
    (s : VolumeState) (t : Option Attachment)
    → FitsVolume s t (some attach)
    → FitsVolume s (some detaching) (some detach) × (is_none t ≡ false)
attach_fails s t h = (ground arith, ground arith)

resize_fails :
    (s : VolumeState) (t : Option Attachment) → FitsVolume s t (some resize) → FitsVolume s t none
resize_fails s t h = ground arith

owed :
    (k : String) (b : VolumeAction) (v : Volume)
    → has_volume_action k (some b) v ≡ true
    → IsCoherent v
    → FitsVolume v.state v.attachment_state (some b)
owed k b v h (fits, instance, device) =
    let (c, mine, e) = taken k (some b) v h in rw (mine, sym e) at fits

pub create_given_up-IsCoherent :
    (now : ℕ) (k : String) (reason : List ℕ) (v : Volume)
    → has_volume_action k (some create) v ≡ true
    → IsCoherent v
    → IsCoherent (create_given_up now reason v)
create_given_up-IsCoherent now k reason v h c =
    (create_fails v.state v.attachment_state (owed k create v h c), c.1, c.2)

pub attach_given_up-IsCoherent :
    (now : ℕ) (k : String) (reason : List ℕ) (v : Volume)
    → has_volume_action k (some attach) v ≡ true
    → IsCoherent v
    → IsCoherent (attach_given_up now reason v)
attach_given_up-IsCoherent now k reason v h c =
    let (fits, named) = attach_fails v.state v.attachment_state (owed k attach v h c) in
    (fits, c.1 ∙ named, c.2 ∙ named)

pub resize_given_up-IsCoherent :
    (now : ℕ) (k : String) (size : ℤ) (reason : List ℕ) (v : Volume)
    → has_volume_action k (some resize) v ≡ true
    → IsCoherent v
    → IsCoherent (resize_given_up now size reason v)
resize_given_up-IsCoherent now k size reason v h c =
    (resize_fails v.state v.attachment_state (owed k resize v h c), c.1, c.2)

pub returned-IsCoherent :
    (now : ℕ) (l : Location) (reason : List ℕ) (v : Volume)
    → IsCoherent v
    → IsCoherent (returned now l reason v)
returned-IsCoherent now l reason v c =
    (returned-FitsVolume v.state v.attachment_state v.pending_action c.0, refl, refl)

attach_starts :
    (s : VolumeState) (t : Option Attachment) (a : Option VolumeAction)
    → FitsVolume s t a
    → s ≡ available
    → FitsVolume s (some attaching) (some attach)
attach_starts s t a h e = ground arith

pub asked_attach-IsCoherent :
    (now : ℕ) (instance device : String) (v : Volume)
    → v.state ≡ available
    → IsCoherent v
    → IsCoherent (asked_attach now instance device v)
asked_attach-IsCoherent now instance device v e c =
    (attach_starts v.state v.attachment_state v.pending_action c.0 e, refl, refl)

detach_starts :
    (s : VolumeState) (t : Option Attachment) (a : Option VolumeAction)
    → FitsVolume s t a
    → t ≡ some attached
    → FitsVolume s (some detaching) (some detach) × (is_none t ≡ false)
detach_starts s t a h e = (ground arith, ground arith)

pub asked_detach-IsCoherent :
    (now : ℕ) (v : Volume)
    → v.attachment_state ≡ some attached
    → IsCoherent v
    → IsCoherent (asked_detach now v)
asked_detach-IsCoherent now v e c =
    let (fits, named) = detach_starts v.state v.attachment_state v.pending_action c.0 e in
    (fits, c.1 ∙ named, c.2 ∙ named)

resize_starts :
    (s : VolumeState) (t : Option Attachment) (a : Option VolumeAction)
    → FitsVolume s t a
    → a ≡ none
    → (s ≡ available) ⊎ (s ≡ in_use)
    → FitsVolume s t (some resize)
resize_starts s t a h e f = ground arith

pub asked_resize-IsCoherent :
    (now : ℕ) (size : ℤ) (v : Volume)
    → v.pending_action ≡ none
    → (v.state ≡ available) ⊎ (v.state ≡ in_use)
    → IsCoherent v
    → IsCoherent (asked_resize now size v)
asked_resize-IsCoherent now size v e f c =
    (resize_starts v.state v.attachment_state v.pending_action c.0 e f, c.1, c.2)

delete_starts :
    (t : Option Attachment) (n : Option String)
    → is_none n ≡ true
    → is_none n ≡ is_none t
    → FitsVolume deleting t (some delete)
delete_starts t n h e = ground arith

pub asked_delete-IsCoherent :
    (now : ℕ) (v : Volume)
    → is_none v.instance_id ≡ true
    → IsCoherent v
    → IsCoherent (asked_delete now v)
asked_delete-IsCoherent now v e c = (delete_starts v.attachment_state v.instance_id e c.1, c.1, c.2)
