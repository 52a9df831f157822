-- ===== src/Launch/Admitted.antt =====
-- What the transaction of a launch leaves (Service.Run of api/internal/compute/service.go).
use shake_cloud.Prelude.{
  Bool-cases, any, select, update_where, ℕ, String, ◌≡◌, refl, sym, ap, ◌∙◌, subst, inl, inr, Bool,
  true, not, none, List, [], ◌∷◌, map, str_eq, eq_refl,
}
use shake_cloud.Result.{
  refuse, not_found, no_vmid, duplicate, malformed, failed, Result, err, ok, >>=-eq-ok,
  ok-injective,
}
use shake_cloud.Db.Instance.{Instance, has_id}
use shake_cloud.Db.Instances.{Rows, get_instance, collides, new_row, insert_instance}
use shake_cloud.Db.Groups.{Member, Tables, instance_groups, bumped, set_instance_groups}
use shake_cloud.Groups.Handlers.{resolve_groups}
use shake_cloud.Admission.Size.{Spec}
use shake_cloud.Admission.Quota.{check_quota}
use shake_cloud.Admission.Vmid.{allocate_vmid, skip_vmids}
use shake_cloud.Launch.Validate.{RunRequest}
use shake_cloud.Launch.Run.{Launchpad, Drawn, or_full, row_of, admit}

-- The row of a new launch, once its groups are attached.
abbrev pub launched : ℕ → Instance → Instance
launched now row = record (bumped now (new_row now row)) { updated_at = now }

-- The parts of a transaction that created `i`.
pub record Admitted (now : ℕ) (pad : Launchpad) (drawn : Drawn) (account : String) (spec : Spec)
    (r : RunRequest) (hash : List ℕ) (visible : List ℕ) (t : Tables) (i : Instance) (t' : Tables)
    : Type 0 where
  pub quota :
      check_quota account spec r.root_disk_gib pad.limits none t.instances pad.volumes ≡ ok tt
  pub public_key : String
  pub number : ℕ
  pub groups : List String
  pub with_groups : Tables
  pub resolved :
      resolve_groups now drawn.fresh account r.security_group_ids t ≡ ok (groups, with_groups)
  pub allocated :
      allocate_vmid pad.vmid_from pad.vmid_to
        (skip_vmids pad.volume_holder pad.probes visible)
        with_groups.instances
        pad.quarantine
      ≡ ok number
  pub row : i ≡ launched now (row_of drawn account r spec hash public_key number)
  pub rows :
      t'.instances
      ≡ i
        ∷ update_where
            (has_id drawn.instance)
            (λ (x : Instance). record (bumped now x) { updated_at = now })
            with_groups.instances
  pub attached : instance_groups drawn.instance t' ≡ groups

or_full-ok : (r : Result ℕ) {n : ℕ} → or_full r ≡ ok n → r ≡ ok n
or_full-ok (ok n) h = h
or_full-ok (err (refuse n s)) h = cc
or_full-ok (err not_found) h = cc
or_full-ok (err no_vmid) h = cc
or_full-ok (err duplicate) h = cc
or_full-ok (err malformed) h = cc
or_full-ok (err (failed s)) h = cc

insert_instance-row :
    (now : ℕ) (new : Instance) (rows : Rows) {c : Instance × Rows}
    → insert_instance now new rows ≡ ok c
    → c ≡ (new_row now new, new_row now new ∷ rows)
unfolding insert_instance
insert_instance-row now new rows h = elim (Bool-cases (any (collides (new_row now new)) rows)) [
  | inl e ↦ cc (rw e at h)
  | inr e ↦ sym (ok-injective (rw e at h))
]

none_left :
    (k : String) (members : List Member)
    → map
        (λ m. m.group_id)
        (select (λ m. str_eq m.instance_id k) (select (λ m. not (str_eq m.instance_id k)) members))
      ≡ []
none_left k [] = refl
none_left k (m ∷ members) = elim (Bool-cases (str_eq m.instance_id k)) [
  | inl e ↦ rw e (none_left k members)
  | inr e ↦ rw (e, e) (none_left k members)
]

-- SetInstanceGroups leaves the instance exactly the groups that it is given.
pub set_instance_groups-exact :
    (now : ℕ) (k : String) (ids : List String) (t : Tables)
    → instance_groups k (set_instance_groups now k ids t) ≡ ids
unfolding set_instance_groups instance_groups
set_instance_groups-exact now k [] t = none_left k t.members
set_instance_groups-exact now k (g ∷ ids) t =
    let rest = set_instance_groups-exact now k ids t in
    rw (eq_refl k) (ap (λ (l : List String). g ∷ l) rest)

-- A lookup of the row that stands first.
found_head :
    (k : String) (new : Instance) (f : Instance → Instance) (rows : Rows) {i : Instance}
    → has_id k new ≡ true
    → has_id k (f new) ≡ true
    → get_instance k (update_where (has_id k) f (new ∷ rows)) ≡ ok i
    → f new ≡ i
unfolding get_instance
found_head k new f rows e e' h = ok-injective (rw (e, e') at h)

admitted_of :
    (now : ℕ) (pad : Launchpad) (drawn : Drawn) (account : String) (spec : Spec) (r : RunRequest)
    (hash : List ℕ) (public_key : String) (n : ℕ) (visible : List ℕ) (t : Tables)
    (g : List String × Tables) (i : Instance) (t' : Tables)
    → check_quota account spec r.root_disk_gib pad.limits none t.instances pad.volumes ≡ ok tt
    → resolve_groups now drawn.fresh account r.security_group_ids t ≡ ok g
    → allocate_vmid pad.vmid_from pad.vmid_to
        (skip_vmids pad.volume_holder pad.probes visible)
        g.1.instances
        pad.quarantine
      ≡ ok n
    → get_instance drawn.instance
        (set_instance_groups now drawn.instance g.0 (record g.1 {
          instances = new_row now (row_of drawn account r spec hash public_key n) ∷ g.1.instances;
        })).instances
      ≡ ok i
    → set_instance_groups now drawn.instance g.0 (record g.1 {
      instances = new_row now (row_of drawn account r spec hash public_key n) ∷ g.1.instances;
    })
      ≡ t'
    → Admitted now pad drawn account spec r hash visible t i t'
unfolding set_instance_groups
admitted_of now pad drawn account spec r hash public_key n visible t g i t' quota resolved allocated
      got final =
    let new = new_row now (row_of drawn account r spec hash public_key n) in
    let table = record g.1 { instances = new ∷ g.1.instances } in
    let row : launched now (row_of drawn account r spec hash public_key n) ≡ i =
      (found_head drawn.instance new (λ (x : Instance). record (bumped now x) { updated_at = now })
        g.1.instances (eq_refl drawn.instance) (eq_refl drawn.instance) got) in
    let here : t'.instances
        ≡ launched now (row_of drawn account r spec hash public_key n)
          ∷ update_where (has_id drawn.instance)
              (λ (x : Instance). record (bumped now x) { updated_at = now }) g.1.instances =
      sym (ap (λ (x : Tables). x.instances) final) ∙ rw (eq_refl drawn.instance) refl in
    record {
      quota = quota;
      public_key = public_key;
      number = n;
      groups = g.0;
      with_groups = g.1;
      resolved = resolved;
      allocated = allocated;
      row = sym row;
      rows =
          here
          ∙ ap
              (λ (x : Instance).
                x
                ∷ update_where (has_id drawn.instance)
                    (λ (y : Instance). record (bumped now y) { updated_at = now }) g.1.instances)
              row;
      attached =
          subst (λ x. instance_groups drawn.instance x ≡ g.0) final
            (set_instance_groups-exact now drawn.instance g.0 table);
    }

pub admit-Admitted :
    (now : ℕ) (pad : Launchpad) (drawn : Drawn) (account : String) (spec : Spec) (r : RunRequest)
    (hash : List ℕ) (public_key : String) (visible : List ℕ) (audit : Instance → Result (Unit {0}))
    (t : Tables) {i : Instance} {b : Bool} {t' : Tables}
    → admit now pad drawn account spec r hash public_key visible audit t ≡ ok ((i, b), t')
    → Admitted now pad drawn account spec r hash visible t i t'
unfolding admit
admit-Admitted now pad drawn account spec r hash public_key visible audit t {i} {b} {t'} h =
    let (u, quota, h1) =
      >>=-eq-ok (check_quota account spec r.root_disk_gib pad.limits none t.instances pad.volumes) _
        h in
    let (g, resolved, h2) =
      >>=-eq-ok (resolve_groups now drawn.fresh account r.security_group_ids t) _ h1 in
    let (n, allocated, h3) =
      >>=-eq-ok
        (or_full (
          allocate_vmid pad.vmid_from pad.vmid_to (skip_vmids pad.volume_holder pad.probes visible)
            g.1.instances pad.quarantine))
        _ h2 in
    let (c, inserted, h4) =
      >>=-eq-ok (insert_instance now (row_of drawn account r spec hash public_key n) g.1.instances)
        _ h3 in
    let t2 = set_instance_groups now c.0.id g.0 (record g.1 { instances = c.1 }) in
    let (created, got, h5) = >>=-eq-ok (get_instance c.0.id t2.instances) _ h4 in
    let (v, noted, same) = >>=-eq-ok (audit created) _ h5 in
    let whole =
      insert_instance-row now (row_of drawn account r spec hash public_key n) g.1.instances
        inserted in
    let fix =
      subst
        (λ (c : Instance × Rows).
          (get_instance c.0.id
              (set_instance_groups now c.0.id g.0 (record g.1 { instances = c.1 })).instances
            ≡ ok i)
          × (set_instance_groups now c.0.id g.0 (record g.1 { instances = c.1 }) ≡ t'))
        whole
        (
          got ∙ ap ok (ap (λ (x : (Instance × Bool) × Tables). x.0.0) (ok-injective same)),
          ap (λ (x : (Instance × Bool) × Tables). x.1) (ok-injective same),
        ) in
    admitted_of now pad drawn account spec r hash public_key n visible t g i t' quota resolved
      (or_full-ok _ allocated) fix.0 fix.1
