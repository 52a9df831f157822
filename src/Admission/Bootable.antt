-- ===== src/Admission/Bootable.antt =====
-- Which sizes are accepted (resolveSpec, validateSpec and ModifyRequest.target).
use shake_cloud.Prelude.{
  if◌then◌else◌, Bool-cases, Option-cases, ℤ, pos, ◌≤ℤ◌, ltℤ, String, ◌≡◌, refl, subst, inl, inr,
  Bool, true, false, ◌&&◌, Option, none, some, List, arith,
}
use shake_cloud.Result.{Err, ok, ◌>>◌, unless, >>=-eq-ok, ok-injective}
use shake_cloud.Admission.Size.{
  InstanceType, Spec, SizeRequest, ModifyRequest, min_memory_mib, or_default, invalid_parameter,
  validate_spec, launch_floor, overridden, starting_point, validated, resolve_spec, target,
}

-- A size that a guest boots with: memory enough, and a floor that the balloon can be driven to.
abbrev pub Floor : Bool → ℤ → ℤ → Type 0
Floor true floor memory = (min_memory_mib ≤ℤ floor) × (floor ≤ℤ memory)
Floor false floor memory = floor ≡ pos 0

abbrev pub IsBootable : Spec → Type 0
IsBootable s =
    (pos 1 ≤ℤ s.cpu_cores)
    × (min_memory_mib ≤ℤ s.memory_mib)
    × Floor s.ballooning s.memory_min_mib s.memory_mib

IsBootable-tests :
    (s : Spec)
    → ltℤ s.cpu_cores (pos 1) ≡ false
    → ltℤ s.memory_mib min_memory_mib ≡ false
    → (s.ballooning && ltℤ s.memory_min_mib min_memory_mib) ≡ false
    → (s.ballooning && ltℤ s.memory_mib s.memory_min_mib) ≡ false
    → (s.ballooning ≡ false → s.memory_min_mib ≡ pos 0)
    → IsBootable s
IsBootable-tests s a b c d f = elim (Bool-cases s.ballooning) [
  | inl e ↦ (ground arith, ground arith, rw e (ground arith))
  | inr e ↦ (ground arith, ground arith, rw e (f e))
]

guards :
    (e : Err) (a b c d : Bool)
    → (unless a e >> unless b e >> unless c e >> unless d e) ≡ ok tt
    → (a ≡ false) × (b ≡ false) × (c ≡ false) × (d ≡ false)
guards e true b c d h = cc
guards e false true c d h = cc
guards e false false true d h = cc
guards e false false false true h = cc
guards e false false false false h = (refl, refl, refl, refl)

-- A size that is accepted, and has no floor when ballooning is off, is one that a guest boots with.
pub validate_spec-IsBootable :
    (s : Spec)
    → validate_spec s ≡ ok tt
    → (s.ballooning ≡ false → s.memory_min_mib ≡ pos 0)
    → IsBootable s
unfolding validate_spec
validate_spec-IsBootable s h f =
    let (a, b, c, d) =
      guards invalid_parameter (ltℤ s.cpu_cores (pos 1)) (ltℤ s.memory_mib min_memory_mib)
        (s.ballooning && ltℤ s.memory_min_mib min_memory_mib)
        (s.ballooning && ltℤ s.memory_mib s.memory_min_mib) h in
    IsBootable-tests s a b c d f

overridden-no_floor :
    (r : SizeRequest) (start : Spec)
    → (overridden r start).ballooning ≡ false
    → (overridden r start).memory_min_mib ≡ pos 0
overridden-no_floor r start h = rw h refl

validated-ok : (s : Spec) {t : Spec} → validated s ≡ ok t → (validate_spec s ≡ ok tt) × (s ≡ t)
validated-ok s h = let (u, e, f) = >>=-eq-ok (validate_spec s) (λ _. ok s) h in (e, ok-injective f)

or_default-twice {ℓ} :
    {A : Type ℓ} (o : Option A) (d : A) → or_default o d ≡ or_default o (or_default o d)
or_default-twice none d = refl
or_default-twice (some a) d = refl

floor_given :
    (r : SizeRequest) (b : Bool) (memory floor : ℤ)
    → launch_floor r b memory floor
      ≡ (if b then or_default r.memory_min_mib (launch_floor r b memory floor) else pos 0)
floor_given r true memory floor = elim (Option-cases r.memory_min_mib) [
  | inl e ↦ rw e refl
  | inr (given, e) ↦ rw e refl
]
floor_given r false memory floor = refl

-- The size that a launch resolves to is one that a guest boots with. It has the vCPUs and the memory
-- that the caller gave, if any, balloons unless the caller says no, and has the floor that the caller
-- gave, if any, but the floor 0 when it does not balloon.
pub resolve_spec-IsBootable :
    (types : List (String × InstanceType)) (r : SizeRequest) {spec : Spec}
    → resolve_spec types r ≡ ok spec
    → IsBootable spec
      × (spec.cpu_cores ≡ or_default r.vcpus spec.cpu_cores)
      × (spec.memory_mib ≡ or_default r.memory_mib spec.memory_mib)
      × (spec.ballooning ≡ or_default r.ballooning true)
      × (spec.memory_min_mib
          ≡ (if spec.ballooning then or_default r.memory_min_mib spec.memory_min_mib else pos 0))
unfolding resolve_spec
resolve_spec-IsBootable types r {spec} h =
    let (start, e, f) =
      >>=-eq-ok (starting_point types r) (λ start. validated (overridden r start)) h in
    let (valid, same) = validated-ok (overridden r start) f in
    subst
      (λ (s : Spec).
        IsBootable s
        × (s.cpu_cores ≡ or_default r.vcpus s.cpu_cores)
        × (s.memory_mib ≡ or_default r.memory_mib s.memory_mib)
        × (s.ballooning ≡ or_default r.ballooning true)
        × (s.memory_min_mib
            ≡ (if s.ballooning then or_default r.memory_min_mib s.memory_min_mib else pos 0)))
      same
      (
        validate_spec-IsBootable (overridden r start) valid (overridden-no_floor r start),
        or_default-twice r.vcpus start.cpu_cores,
        or_default-twice r.memory_mib start.memory_mib,
        refl,
        floor_given r (or_default r.ballooning true) (or_default r.memory_mib start.memory_mib)
            start.memory_min_mib,
      )

pub target-no_floor :
    (r : ModifyRequest) (s : Spec)
    → (target r s).ballooning ≡ false
    → (target r s).memory_min_mib ≡ pos 0
unfolding target
target-no_floor r s h = rw h refl
