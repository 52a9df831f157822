-- ===== src/Launch/Again.antt =====
-- A launch that is retried with its client token (Run and idempotent of
-- api/internal/compute/service.go).
use shake_cloud.Prelude.{
  Bool-cases, str_eq-refl_of, ℕ, String, ◌≡◌, refl, sym, ap, ◌∙◌, subst, inl, inr, Bool, true,
  false, Option, none, some, List, [], ◌∷◌, arith, str_eq,
}
use shake_cloud.Result.{Result, err, ok, >>=-eq-ok, ok-injective, Result-cases}
use shake_cloud.Db.Instance.{Instance}
use shake_cloud.Db.Instances.{Rows, instance_by_client_token}
use shake_cloud.Db.Groups.{Tables}
use shake_cloud.Admission.Size.{Spec, resolve_spec}
use shake_cloud.Admission.Limits.{Limits}
use shake_cloud.Admission.Host.{check_host, disk_tier_pool}
use shake_cloud.Launch.Network.{launch_subnet}
use shake_cloud.Launch.Validate.{
  RunRequest, Catalogue, source_checked, guest_checked, filled, disk_in_range, texts_checked,
  validate,
}
use shake_cloud.Launch.Run.{
  Launchpad, Drawn, request_hash, public_key_of, bytes_eq, idempotent, earlier, admit_once,
  answered, run_fresh, looked_up, replied, run_after, run,
}
use shake_cloud.Launch.Admitted.{Admitted, admit-Admitted}

bytes_eq_refl : (bs : List ℕ) → bytes_eq bs bs ≡ true
bytes_eq_refl [] = refl
bytes_eq_refl (b ∷ bs) = let ih = bytes_eq_refl bs in ground (arith, ih)

-- Validation keeps the token.
validate-client_token :
    (c : Catalogue) (limits : Limits) (r : RunRequest) {v : Spec × RunRequest}
    → validate c limits r ≡ ok v
    → v.1.client_token ≡ r.client_token
unfolding validate
validate-client_token c limits r h =
    let (u, source, h1) = >>=-eq-ok (source_checked r) _ h in
    let (guest, g, h2) = >>=-eq-ok (guest_checked c r) _ h1 in
    let (spec, s, h3) = >>=-eq-ok (resolve_spec c.types r.size) _ h2 in
    let (d, disk, h4) =
      >>=-eq-ok (disk_in_range limits (filled limits guest r).root_disk_gib) _ h3 in
    let (pool, p, h5) =
      >>=-eq-ok (disk_tier_pool c.storage (filled limits guest r).disk_tier) _ h4 in
    let (subnet, n, h6) = >>=-eq-ok (launch_subnet c.masked c.network r.subnet_id) _ h5 in
    let (t, texts, same) = >>=-eq-ok (texts_checked (filled limits guest r)) _ h6 in
    ap (λ (x : Spec × RunRequest). x.1.client_token) (sym (ok-injective same))

-- What a run that answers a new instance went through.
pub record Created (now : ℕ) (pad : Launchpad) (drawn : Drawn) (account : String) (r : RunRequest)
    (t : Tables) (i : Instance) (t' : Tables) : Type 0 where
  pub spec : Spec
  pub filled_in : RunRequest
  pub visible : List ℕ
  pub valid : validate pad.catalogue pad.limits r ≡ ok (spec, filled_in)
  pub listed : pad.visible ≡ ok visible
  pub new : earlier account filled_in.client_token t.instances ≡ ok none
  pub admitted :
      Admitted now pad drawn account spec filled_in (request_hash pad.hash filled_in) visible t i t'

idempotent-not_created :
    (existing : Instance) (hash : List ℕ) {i : Instance}
    → idempotent existing hash ≡ ok (i, true)
    → ⊥
unfolding idempotent
idempotent-not_created existing hash h = elim (Bool-cases (bytes_eq existing.request_sha256 hash)) [
  | inl e ↦ let k = ap (λ (x : Instance × Bool). x.1) (ok-injective (rw e at h)) in cc
  | inr e ↦ cc (rw e at h)
]

admit_once-Created :
    (now : ℕ) (pad : Launchpad) (drawn : Drawn) (account : String) (spec : Spec) (r : RunRequest)
    (hash : List ℕ) (public_key : String) (visible : List ℕ) (audit : Instance → Result (Unit {0}))
    (t : Tables) {i : Instance} {t' : Tables}
    → admit_once now pad drawn account spec r hash public_key visible audit t ≡ ok ((i, true), t')
    → (earlier account r.client_token t.instances ≡ ok none)
      × Admitted now pad drawn account spec r hash visible t i t'
unfolding admit_once
admit_once-Created now pad drawn account spec r hash public_key visible audit t {i} {t'} h =
    elim (Result-cases (earlier account r.client_token t.instances)) [
      | inl (e, f) ↦ cc (rw f at h)
      | inr (none, f) ↦
          let admitted = rw f at h in
          (f, admit-Admitted now pad drawn account spec r hash public_key visible audit t admitted)
      | inr (some existing, f) ↦
          let same = ap (λ (x : (Instance × Bool) × Tables). x.0.1) (ok-injective (rw f at h)) in cc
    ]

run_fresh-Created :
    (now : ℕ) (pad : Launchpad) (drawn : Drawn) (account : String) (spec : Spec) (r : RunRequest)
    (hash : List ℕ) (audit : Instance → Result (Unit {0})) (t : Tables) {i : Instance} {t' : Tables}
    → run_fresh now pad drawn account spec r hash audit t ≡ ok ((i, true), t')
    → (visible : List ℕ) × (pad.visible ≡ ok visible)
      × (earlier account r.client_token t.instances ≡ ok none)
      × Admitted now pad drawn account spec r hash visible t i t'
unfolding run_fresh
run_fresh-Created now pad drawn account spec r hash audit t h =
    let (public_key, key, h1) = >>=-eq-ok (public_key_of account r.key_name pad.key_pairs) _ h in
    let (pool, tier, h2) = >>=-eq-ok (disk_tier_pool pad.catalogue.storage r.disk_tier) _ h1 in
    let (u, host, h3) =
      >>=-eq-ok
        (check_host pad.pve pad.catalogue.storage.images spec spec.memory_mib pad.limits pool) _
        h2 in
    let (visible, listed, h4) = >>=-eq-ok pad.visible _ h3 in
    let (new, admitted) =
      admit_once-Created now pad drawn account spec r hash public_key visible audit t h4 in
    (visible, listed, new, admitted)

answered-true :
    (hash : List ℕ) (x : Instance × Bool) {i : Instance}
    → answered hash (ok x) ≡ ok (i, true)
    → x ≡ (i, true)
answered-true hash (j, true) h = ok-injective h
answered-true hash (j, false) h = absurd (idempotent-not_created j hash h)

looked_up-valid :
    (pad : Launchpad) (account : String) (r : RunRequest) (rows : Rows) (v : Spec × RunRequest)
    {o : Option Instance}
    → looked_up pad account r rows ≡ ok (v, o)
    → validate pad.catalogue pad.limits r ≡ ok v
unfolding looked_up
looked_up-valid pad account r rows v h =
    let (w, valid, h1) = >>=-eq-ok (validate pad.catalogue pad.limits r) _ h in
    let (found, e, same) = >>=-eq-ok (earlier account w.1.client_token rows) _ h1 in
    valid ∙ ap ok (ap (λ (x : (Spec × RunRequest) × Option Instance). x.0) (ok-injective same))

replied-Created :
    (hash : List ℕ) (t : Tables) (o : Option Instance)
    (inserted : Result ((Instance × Bool) × Tables)) {i : Instance} {t' : Tables}
    → (replied hash t o inserted).0 ≡ ok (i, true)
    → (replied hash t o inserted).1 ≡ t'
    → (o ≡ none) × (inserted ≡ ok ((i, true), t'))
replied-Created hash t (some existing) inserted h g =
    absurd (idempotent-not_created existing hash h)
replied-Created hash t none (err e) h g = cc
replied-Created hash t none (ok (x, t2)) {i} {t'} h g =
    let same : x ≡ (i, true) = answered-true hash x h in (refl, λ j. ok (same j, g j))

run_after-Created :
    (now : ℕ) (pad : Launchpad) (drawn : Drawn) (account : String) (r : RunRequest)
    (audit : Instance → Result (Unit {0})) (t : Tables)
    (l : Result ((Spec × RunRequest) × Option Instance)) {i : Instance} {t' : Tables}
    → ((v : Spec × RunRequest) (o : Option Instance)
        → l ≡ ok (v, o)
        → validate pad.catalogue pad.limits r ≡ ok v)
    → (run_after now pad drawn account audit t l).0 ≡ ok (i, true)
    → (run_after now pad drawn account audit t l).1 ≡ t'
    → Created now pad drawn account r t i t'
unfolding run_after
run_after-Created now pad drawn account r audit t (err e) valid h g = cc
run_after-Created now pad drawn account r audit t (ok ((spec, r'), o)) valid h g =
    let hash = request_hash pad.hash r' in
    let (fresh, inserted) =
      replied-Created hash t o (run_fresh now pad drawn account spec r' hash audit t) h g in
    let (visible, listed, new, admitted) =
      run_fresh-Created now pad drawn account spec r' hash audit t inserted in
    record {
      spec = spec;
      filled_in = r';
      visible = visible;
      valid = valid (spec, r') o refl;
      listed = listed;
      new = new;
      admitted = admitted;
    }

pub run-Created :
    (now : ℕ) (pad : Launchpad) (drawn : Drawn) (account : String) (r : RunRequest)
    (audit : Instance → Result (Unit {0})) (seen : Rows) (t : Tables) {i : Instance} {t' : Tables}
    → run now pad drawn account r audit seen t ≡ (ok (i, true), t')
    → Created now pad drawn account r t i t'
unfolding run
run-Created now pad drawn account r audit seen t h =
    run_after-Created now pad drawn account r audit t (looked_up pad account r seen)
      (λ v o e. looked_up-valid pad account r seen v e)
      (ap (λ (x : Result (Instance × Bool) × Tables). x.0) h)
      (ap (λ (x : Result (Instance × Bool) × Tables). x.1) h)

earlier-head :
    (account token : String) (i : Instance) (rows : Rows)
    → str_eq token "" ≡ false
    → i.account_id ≡ account
    → i.client_token ≡ token
    → earlier account token (i ∷ rows) ≡ ok (some i)
unfolding earlier instance_by_client_token
earlier-head account token i rows some_token of_account with_token =
    rw
      (
        some_token,
        str_eq-refl_of i.account_id account of_account,
        str_eq-refl_of i.client_token token with_token,
      )
      refl

-- The token finds the new row.
Admitted-earlier :
    {now : ℕ} {pad : Launchpad} {drawn : Drawn} {account : String} {spec : Spec} {r : RunRequest}
    {hash : List ℕ} {visible : List ℕ} {t t' : Tables} {i : Instance}
    → str_eq r.client_token "" ≡ false
    → Admitted now pad drawn account spec r hash visible t i t'
    → earlier account r.client_token t'.instances ≡ ok (some i)
Admitted-earlier {account} {r} {i} token a =
    subst (λ rows. earlier account r.client_token rows ≡ ok (some i)) (sym a.rows)
      (earlier-head account r.client_token i _ token (ap (λ (x : Instance). x.account_id) a.row)
        (ap (λ (x : Instance). x.client_token) a.row))

-- The first lookup finds an earlier launch.
run-known :
    (now : ℕ) (pad : Launchpad) (drawn : Drawn) (account : String) (r : RunRequest)
    (audit : Instance → Result (Unit {0})) (seen : Rows) (t : Tables) (v : Spec × RunRequest)
    (i : Instance)
    → validate pad.catalogue pad.limits r ≡ ok v
    → earlier account v.1.client_token seen ≡ ok (some i)
    → run now pad drawn account r audit seen t ≡ (idempotent i (request_hash pad.hash v.1), t)
unfolding run run_after looked_up
run-known now pad drawn account r audit seen t (spec, r') i valid found = rw (valid, found) refl

-- The answer of a launch whose hash is that of the row.
idempotent-same :
    (i : Instance) (hash : List ℕ) → i.request_sha256 ≡ hash → idempotent i hash ≡ ok (i, false)
unfolding idempotent
idempotent-same i hash same =
    rw (ap (λ (l : List ℕ). bytes_eq l hash) same ∙ bytes_eq_refl hash) refl

-- The site's numbers and media are those that they were.
abbrev pub IsSameSite : Launchpad → Launchpad → Type 0
IsSameSite pad pad' =
    (pad'.catalogue ≡ pad.catalogue) × (pad'.limits ≡ pad.limits) × (pad'.hash ≡ pad.hash)

not_created : {b : Bool} → (b ≡ true → ⊥) → b ≡ false
not_created {b} p = elim (Bool-cases b) [ inl e ↦ absurd (p e) | inr e ↦ e ]

-- After a launch with a client token that created an instance: the same request, asked again under the
-- same catalogue, limits and hash (the hash covers what they fill in, such as the default disk size),
-- is answered with that instance as not created, and changes no table, whatever the hypervisor, the
-- key pairs and the volumes are by then; and no other request with the
-- token, whatever its first lookup saw, creates an instance on the tables that the launch left.
pub run_again :
    (now : ℕ) (pad next_pad : Launchpad) (drawn : Drawn) (account : String) (r : RunRequest)
    (audit : Instance → Result (Unit {0})) (seen : Rows) (t : Tables) {i : Instance} {t' : Tables}
    → str_eq r.client_token "" ≡ false
    → IsSameSite pad next_pad
    → run now pad drawn account r audit seen t ≡ (ok (i, true), t')
    → ((later : ℕ) (drawn' : Drawn) (audit' : Instance → Result (Unit {0})) (t2 : Tables)
        → run later next_pad drawn' account r audit' t'.instances t2 ≡ (ok (i, false), t2))
      × ((later : ℕ) (pad' : Launchpad) (drawn' : Drawn) (r' : RunRequest)
            (audit' : Instance → Result (Unit {0})) (seen' : Rows) (j : Instance) (b : Bool)
            (t3 : Tables)
          → r'.client_token ≡ r.client_token
          → run later pad' drawn' account r' audit' seen' t' ≡ (ok (j, b), t3)
          → b ≡ false)
run_again now pad next_pad drawn account r audit seen t {i} {t'} token (catalogue, limits, hash) h =
    let c = run-Created now pad drawn account r audit seen t h in
    let kept = validate-client_token pad.catalogue pad.limits r c.valid in
    let some_token : str_eq c.filled_in.client_token "" ≡ false = rw kept token in
    let found = Admitted-earlier some_token c.admitted in
    (
      λ later drawn' audit' t2.
          run-known later next_pad drawn' account r audit' t'.instances t2 (c.spec, c.filled_in) i
            (rw (catalogue, limits) c.valid) found
          ∙ ap (λ (x : Result (Instance × Bool)). (x, t2))
              (idempotent-same i _ (
                ap (λ (x : Instance). x.request_sha256) c.admitted.row
                ∙ ap (λ (h : RunRequest → List ℕ). request_hash h c.filled_in) (sym hash))),
      λ later pad' drawn' r' audit' seen' j b t3 same again. not_created (λ e.
          let d =
            run-Created later pad' drawn' account r' audit' seen' t'
              (again ∙ ap (λ (x : Bool). (ok (j, x), t3)) e) in
          let kept' = validate-client_token pad'.catalogue pad'.limits r' d.valid in
          let token_same : d.filled_in.client_token ≡ c.filled_in.client_token =
            kept' ∙ same ∙ sym kept in
          let missed : earlier account c.filled_in.client_token t'.instances ≡ ok none =
            rw token_same at d.new in
          cc (found, missed)),
    )
