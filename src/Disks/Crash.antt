-- ===== src/Disks/Crash.antt =====
-- A disk is never lost on its way between two VMs (move of
-- api/internal/compute/volume_worker.go).
use shake_cloud.Prelude.{
  Bool-cases, find, ℕ, String, ◌≡◌, refl, sym, ap, ◌∙◌, ◌⊎◌, inl, inr, Option, none, some, [], ◌∷◌,
  str_eq,
}
use shake_cloud.Db.Volume.{Location, Volume, has_volume_id}
use shake_cloud.Db.Volumes.{Volumes, record_location}
use shake_cloud.Disks.Cloud.{
  Fault, fails_with, Outcome, fault, done, Eff, then_do, Cloud, Site, World, calling, record_at,
}
use shake_cloud.Disks.Keys.{volid_at, free_key, is_unused}
use shake_cloud.Disks.Moves.{only_unused, after_move, move_from, move}
use shake_cloud.Disks.Steps.{outcome_cases, done-injective}

some-injective : {A : Type 0} {a b : A} → some a ≡ some b → a ≡ b
some-injective h = cc

find-moved :
    (now : ℕ) (k : String) (l : Location) (rows : Volumes) {v : Volume}
    → find (has_volume_id k) rows ≡ some v
    → find (has_volume_id k) (record_location now k l rows)
      ≡ some (record v { location = l; updated_at = now })
unfolding record_location
find-moved now k l [] h = cc
find-moved now k l (x ∷ rows) {v} h = elim (Bool-cases (has_volume_id k x)) [
  | inl e ↦
      let same : x ≡ v = some-injective (rw e at h) in
      rw (e, e) (ap (λ (y : Volume). some (record y { location = l; updated_at = now })) same)
  | inr e ↦ rw (e, e) (find-moved now k l rows (rw e at h))
]

-- Which disk is under a key of a VM, and what the calls do to it. A call that fails may have moved
-- the disk before it did.
pub record Tracking (cloud : Cloud) : Type 1 where
  pub Disk : Type 0
  pub disk_at : cloud.State → ℕ → String → Option Disk
  pub commit_keeps :
      (s : cloud.State) (n : ℕ) (key : String) → disk_at (cloud.commit s).1 n key ≡ disk_at s n key
  pub move_either :
      (s : cloud.State) (source : ℕ) (from : String) (target : ℕ) (to : String) (d : Disk)
      → disk_at s source from ≡ some d
      → (disk_at (cloud.move_disk source from target to s).1 source from ≡ some d)
        ⊎ (disk_at (cloud.move_disk source from target to s).1 target to ≡ some d)
  pub move_done :
      (s : cloud.State) (source : ℕ) (from : String) (target : ℕ) (to : String) (d : Disk)
      → disk_at s source from ≡ some d
      → (cloud.move_disk source from target to s).0 ≡ done tt
      → disk_at (cloud.move_disk source from target to s).1 target to ≡ some d

module _ (cloud : Cloud) (tracking : Tracking cloud) where
  open cloud use {State, vm_config, move_disk, commit}
  open tracking use {Disk, disk_at, commit_keeps, move_either, move_done}

  -- The location names the place of the disk: where it is, or where a move takes it.
  abbrev pub Names : Disk → Location → State → Type 0
  Names d l s =
      ((n : ℕ) × (l.vmid ≡ some n) × (disk_at s n l.config_key ≡ some d))
      ⊎ ((n : ℕ) × (l.move_vmid ≡ some n) × (disk_at s n l.move_key ≡ some d))

  -- The row of the volume names the place of its disk.
  abbrev pub Tracked : String → Disk → World cloud → Type 0
  Tracked k d w =
      (v : Volume) × (find (has_volume_id k) w.volumes ≡ some v) × Names d v.location w.state

  Names-commit : (d : Disk) (l : Location) (s : State) → Names d l s → Names d l (commit s).1
  Names-commit d l s (inl (n, a, b)) = inl (n, a, commit_keeps s n l.config_key ∙ b)
  Names-commit d l s (inr (n, a, b)) = inr (n, a, commit_keeps s n l.move_key ∙ b)

  -- What a move leaves: the row names the place of the disk, and where the move succeeds, the disk is
  -- at the target, under the key that the location in hand has.
  abbrev pub Ends : String → Disk → ℕ → Outcome (Unit {0}) × World cloud → Type 0
  Ends k d target r =
      Tracked k d r.1
      × (r.0 ≡ done tt
          → (r.1.location.vmid ≡ some target)
            × (disk_at r.1.state target r.1.location.config_key ≡ some d))

  failed_Ends :
      (k : String) (d : Disk) (target : ℕ) (e : Fault) (w : World cloud)
      → Tracked k d w
      → Ends k d target (fault e, w)
  failed_Ends k d target e w h = (h, λ done_. cc)

  -- Recording a location that names the disk, whether the write succeeds or not, and what follows.
  record_at-Ends :
      (site : Site) (k : String) (d : Disk) (target : ℕ) (l : Location) (w : World cloud)
      (next : Unit {0} → Eff (World cloud) (Unit {0})) (v : Volume)
      → find (has_volume_id k) w.volumes ≡ some v
      → Names d v.location w.state
      → ((w' : World cloud)
          → w'.state ≡ (commit w.state).1
          → w'.location ≡ l
          → (v' : Volume) → find (has_volume_id k) w'.volumes ≡ some v'
          → v'.location ≡ l
          → Ends k d target (next tt w'))
      → Ends k d target (then_do (record_at cloud site k l w) next)
  record_at-Ends site k d target l w next v found names go =
      let after = record w { location = l; state = (commit w.state).1 } in
      elim (outcome_cases (commit w.state).0) [
        | inl (e, f) ↦
            rw f
              (failed_Ends k d target e after (v, found, Names-commit d v.location w.state names))
        | inr (u, f) ↦ rw f (
            go (record after { volumes = record_location site.now k l w.volumes }) refl refl
              (record v { location = l; updated_at = site.now })
              (find-moved site.now k l w.volumes found) refl)
      ]

  -- Recording that the disk is at the target ends the move.
  recorded-Ends :
      (site : Site) (k : String) (d : Disk) (target : ℕ) (l : Location) (w : World cloud)
      → Tracked k d w
      → l.vmid ≡ some target
      → disk_at w.state target l.config_key ≡ some d
      → Ends k d target (record_at cloud site k l w)
  recorded-Ends site k d target l w (v, found, names) at_target there =
      let after = record w { location = l; state = (commit w.state).1 } in
      elim (outcome_cases (commit w.state).0) [
        | inl (e, f) ↦
            rw f
              (failed_Ends k d target e after (v, found, Names-commit d v.location w.state names))
        | inr (u, f) ↦ rw f (
          (
            record v { location = l; updated_at = site.now },
            find-moved site.now k l w.volumes found,
            inl (target, at_target, commit_keeps w.state target l.config_key ∙ there),
          ),
          λ ended. (at_target, commit_keeps w.state target l.config_key ∙ there),
        )
      ]

  -- Once the disk is at the target: the rest of the move.
  arrived-Ends :
      (site : Site) (k : String) (d : Disk) (target : ℕ) (key : String) (w : World cloud)
      → Tracked k d w
      → disk_at w.state target key ≡ some d
      → Ends k d target (after_move cloud site k target key w)
  unfolding after_move
  arrived-Ends site k d target key w (v, found, names) there =
      elim (outcome_cases (vm_config target w.state)) [
        | inl (e, f) ↦ rw f (failed_Ends k d target e w (v, found, names))
        | inr (config, f) ↦ elim (Bool-cases (str_eq (volid_at config key) "")) [
          | inl g ↦
              rw (f, g)
                (failed_Ends k d target (fails_with "the disk did not arrive") w (v, found, names))
          | inr g ↦
              let l : Location = record {
                vmid = some target;
                config_key = key;
                vol_id = volid_at config key;
                move_vmid = none;
                move_key = "";
              } in
              rw (f, g) (recorded-Ends site k d target l w (v, found, names) refl there)
        ]
      ]

  -- The call that moves the disk, whether it fails or not, and the rest of the move.
  moving-Ends :
      (site : Site) (k : String) (d : Disk) (target source : ℕ) (from key : String)
      (w : World cloud) (v : Volume)
      → find (has_volume_id k) w.volumes ≡ some v
      → v.location.vmid ≡ some source
      → v.location.config_key ≡ from
      → v.location.move_vmid ≡ some target
      → v.location.move_key ≡ key
      → disk_at w.state source from ≡ some d
      → Ends k d target (
          then_do
            (calling cloud (move_disk source from target key) w)
            (λ _. after_move cloud site k target key))
  moving-Ends site k d target source from key w v found at_source under going to here =
      let s' = (move_disk source from target key w.state).1 in
      let names : Names d v.location s' = elim (move_either w.state source from target key d here) [
        | inl a ↦ inl (source, at_source, rw under a)
        | inr b ↦ inr (target, going, rw to b)
      ] in
      elim (outcome_cases (move_disk source from target key w.state).0) [
        | inl (e, f) ↦ rw f (failed_Ends k d target e (record w { state = s' }) (v, found, names))
        | inr (u, f) ↦ rw f (
            arrived-Ends site k d target key (record w { state = s' }) (v, found, names)
              (move_done w.state source from target key d here f))
      ]

  move_from-Ends :
      (site : Site) (k : String) (d : Disk) (target source : ℕ) (l : Location) (w : World cloud)
      (v : Volume)
      → find (has_volume_id k) w.volumes ≡ some v
      → v.location ≡ l
      → l.vmid ≡ some source
      → disk_at w.state source l.config_key ≡ some d
      → Ends k d target (move_from cloud site k target l source w)
  unfolding move_from
  move_from-Ends site k d target source l w v found same at_source here =
      let names : Names d v.location w.state = inl (source, rw same at_source, rw same here) in
      elim (outcome_cases (vm_config target w.state)) [
        | inl (why, f) ↦ rw f (failed_Ends k d target why w (v, found, names))
        | inr (config, f) ↦ elim (Bool-cases (str_eq (free_key config "unused" 0 255) "")) [
          | inl g ↦
              rw (f, g)
                (failed_Ends k d target (fails_with "no free unused slot") w (v, found, names))
          | inr g ↦
              let key = free_key config "unused" 0 255 in
              let l' : Location = record l { move_vmid = some target; move_key = key } in
              rw (f, g)
                (record_at-Ends site k d target l' w
                  (λ _ w'.
                    then_do (calling cloud (move_disk source l.config_key target key) w')
                      (λ _. after_move cloud site k target key))
                  v found names
                  (λ w' state loc v' found' loc'.
                    moving-Ends site k d target source l.config_key key w' v' found'
                      (rw loc' at_source) (rw loc' refl) (rw loc' refl) (rw loc' refl)
                      (rw state (commit_keeps w.state source l.config_key ∙ here))))
        ]
      ]

  only_unused-source :
      (l : Location) {n source : ℕ}
      → l.vmid ≡ some source
      → only_unused cloud l ≡ done n
      → n ≡ source
  only_unused-source l at_source h = elim (Bool-cases (is_unused l.config_key)) [
    | inl e ↦ sym (done-injective (rw (at_source, e) at h))
    | inr e ↦ cc (rw (at_source, e) at h)
  ]

  -- Moving a disk from an unused slot of the VM where the row says it is. However the calls fail, and
  -- if the program stops after any of them, the row of the volume names the place of its disk: where
  -- it is, or where a move takes it. If the move succeeds, the disk is at the target, and the location
  -- in hand says so. The calls move the disk or leave it, and a write of the database keeps disks.
  pub move_tracks :
      (site : Site) (k : String) (d : Disk) (target source : ℕ) (w : World cloud) (v : Volume)
      → find (has_volume_id k) w.volumes ≡ some v
      → v.location ≡ w.location
      → w.location.vmid ≡ some source
      → disk_at w.state source w.location.config_key ≡ some d
      → Ends k d target (move cloud site k target w)
  unfolding move
  move_tracks site k d target source w v found same at_source here =
      elim (outcome_cases (only_unused cloud w.location)) [
        | inl (why, e) ↦
            rw e (
              failed_Ends k d target why w
                (v, found, inl (source, rw same at_source, rw same here)))
        | inr (n, e) ↦
            rw (e, only_unused-source w.location at_source e)
              (move_from-Ends site k d target source w.location w v found same at_source here)
      ]
