-- ===== src/Registry/Memory/Verified.antt =====
-- What is pulled: its digest, its yank and its pin.
use mathlib.Core.Path.{subst}
use knolo_agents.Base.{
  ℕ, String, true, false, not, ◌&&◌, Option, none, some, List, Result, ok, err, require-eq-ok,
  >>-eq-ok, >>=-eq-ok, ◌≡◌, refl, ◌∙◌, sym, ap, ◌⊎◌, str_eq→eq, str_eq_refl, inl, inr, arith,
  Bool-cases,
}
use knolo_agents.Base.Dict.{get_key}
use knolo_agents.Dependencies.Lockfile.{
  KnoloLockPack, KnoloLockfile, LockfileError, assert_lockfile_pin, lockfile_pin,
}
use knolo_agents.Dependencies.Lockfile.Pins.{assert_lockfile_pin-eq}
use knolo_agents.Registry.Types.{PackManifest, PackBytes, RegistryError, not_found}
use knolo_agents.Registry.Cache.{
  MemoryPackCache, get_bytes, set_bytes, set_manifest, set_key, manifest_key,
}
use knolo_agents.Registry.Spec.{
  SpecInput, is_pack_manifest, nothing_expected, validate_pack_manifest,
}
use knolo_agents.Contracts.Values.{object}
use knolo_agents.Registry.Memory.{
  MemoryPackRecord, MemoryPackRegistry, Done, PullInput, check_yanked, check_digest, verified_bytes,
  delivered, pull_from, pulled_manifest, pull, pin_checked, pull_spec, pull_manifest, cached,
  resolve, resolved_manifest, spec_at, find_record,
}

-- The bytes of a record, or the error where there is none.
abbrev bytes_at : PackManifest → Option MemoryPackRecord → Result RegistryError (List ℕ)
bytes_at m none = err (not_found m.name m.version)
bytes_at m (some found) = ok found.bytes

module _ (digest : List ℕ → String) where
  -- The bytes are of the manifest's record and have its digest; unless the registry is forced, the manifest is
  -- not marked as yanked and its digest is the one that the lockfile pins.
  pub record IsVerified (r : MemoryPackRegistry) (m : PackManifest) (bytes : List ℕ) : Type 0 where
    pub has_digest : digest bytes ≡ m.sha256
    pub is_stored :
        (found : MemoryPackRecord) × (get_key (manifest_key m.name m.version) r.records
          ≡ some found)
        × (found.bytes ≡ bytes)
    pub is_current : r.force ≡ false → m.yanked ≡ false
    pub keeps_pin :
        (lockfile : KnoloLockfile) (pin : KnoloLockPack)
        → r.force ≡ false
        → r.lockfile ≡ some lockfile
        → lockfile_pin lockfile.packs m.name ≡ some pin
        → (pin.sha256 ≡ "") ⊎ (pin.sha256 ≡ m.sha256)

  pin_checked-eq-ok : (x : Result LockfileError (Unit {0})) → pin_checked x ≡ ok tt → x ≡ ok tt
  unfolding pin_checked
  pin_checked-eq-ok (ok tt) h = refl
  pin_checked-eq-ok (err e) h = cc

  bytes_at-eq-ok :
      (m : PackManifest) (found : Option MemoryPackRecord) (bytes : List ℕ)
      → bytes_at m found ≡ ok bytes
      → (f : MemoryPackRecord) × (found ≡ some f) × (f.bytes ≡ bytes)
  bytes_at-eq-ok m none bytes h = cc
  bytes_at-eq-ok m (some f) bytes h = (f, refl, cc h)

  verified_bytes-IsVerified :
      (m : PackManifest) (r : MemoryPackRegistry) (bytes : List ℕ)
      → verified_bytes digest m r ≡ ok bytes
      → IsVerified r m bytes
  unfolding verified_bytes check_yanked check_digest
  verified_bytes-IsVerified m r bytes h =
      let (y, h1) = >>-eq-ok (check_yanked m r) _ h in
      let (held, b, h2) =
        >>=-eq-ok (bytes_at m (get_key (manifest_key m.name m.version) r.records)) _ h1 in
      let (d, h3) = >>-eq-ok (check_digest digest m held) _ h2 in
      let (p, h4) =
        >>-eq-ok (pin_checked (assert_lockfile_pin r.lockfile m.name m.sha256 r.force)) (ok held)
          h3 in
      let (found, g, w) =
        bytes_at-eq-ok m (get_key (manifest_key m.name m.version) r.records) held b in
      let same : held ≡ bytes = cc h4 in
      let current : not (m.yanked && not r.force) ≡ true = require-eq-ok _ _ y in
      record {
        has_digest = subst (λ bs. digest bs ≡ m.sha256) same (str_eq→eq _ _ (require-eq-ok _ _ d));
        is_stored = (found, g, w ∙ same);
        is_current = λ unforced. ground arith;
        keeps_pin =
            assert_lockfile_pin-eq r.lockfile r.force m.name m.sha256 (pin_checked-eq-ok _ p);
      }

  -- The manifest of the record that a spec names.
  abbrev pub IsNamed : SpecInput → MemoryPackRegistry → PackManifest → Type 0
  IsNamed spec r m =
      (found : MemoryPackRecord) × (find_record spec r ≡ ok found) × (found.manifest ≡ m)

  -- The manifest that is meant: of the record named by a spec, or the one that is handed in.
  abbrev pub IsMeant : PullInput → MemoryPackRegistry → PackManifest → Type 0
  IsMeant (pull_spec spec) r m = IsNamed spec r m
  IsMeant (pull_manifest value) r m =
      (validate_pack_manifest (object value) nothing_expected ≡ ok m) ⊎ IsNamed (spec_at value) r m

  -- What holds of a pull from a registry, where it returns.
  abbrev Kept : MemoryPackRegistry → Done PackBytes → PackBytes → Type 0
  Kept r d p =
      IsVerified r p.manifest p.bytes
      × (get_bytes p.manifest.sha256 d.0.cache ≡ some p.bytes)
      × (d.0 ≡ record r { cache = d.0.cache })

  delivered-Kept :
      (m : PackManifest) (bytes : Result RegistryError (List ℕ)) (r : MemoryPackRegistry)
      (p : PackBytes)
      → verified_bytes digest m r ≡ bytes
      → (delivered digest m bytes r).1 ≡ ok p
      → Kept r (delivered digest m bytes r) p
  unfolding delivered get_bytes set_bytes set_manifest set_key
  delivered-Kept m (err e) r p v h = cc
  delivered-Kept m (ok bytes) r p v h =
      let made : PackBytes = record { manifest = m; bytes = bytes } in
      let same : made ≡ p = cc h in
      subst (Kept r (delivered digest m (ok bytes) r)) same
        (verified_bytes-IsVerified m r bytes v, rw (str_eq_refl m.sha256) refl, refl)

  pull_from-Kept :
      (d : Done PackManifest) (p : PackBytes)
      → (pull_from digest d).1 ≡ ok p
      → Kept d.0 (pull_from digest d) p
  unfolding pull_from
  pull_from-Kept (r, err e) p h = cc
  pull_from-Kept (r, ok m) p h = delivered-Kept m (verified_bytes digest m r) r p refl h

  -- What is found changes only the cache.
  cached-state :
      (m : Result RegistryError PackManifest) (r : MemoryPackRegistry)
      → (cached m r).0 ≡ record r { cache = (cached m r).0.cache }
  unfolding cached
  cached-state (ok m) r = refl
  cached-state (err e) r = refl

  pulled_manifest-state :
      (input : PullInput) (r : MemoryPackRegistry)
      → (pulled_manifest input r).0 ≡ record r { cache = (pulled_manifest input r).0.cache }
  unfolding pulled_manifest resolve
  pulled_manifest-state (pull_spec spec) r = cached-state (resolved_manifest spec r) r
  pulled_manifest-state (pull_manifest value) r =
      elim (Bool-cases (is_pack_manifest (object value))) [
        | inl e ↦ rw e refl
        | inr n ↦ rw n (cached-state (resolved_manifest (spec_at value) r) r)
      ]

  -- The cache is not read.
  Kept-cache :
      (r : MemoryPackRegistry) (cache : MemoryPackCache) (d : Done PackBytes) (p : PackBytes)
      → Kept (record r { cache = cache }) d p
      → Kept r d p
  Kept-cache r cache d p (v, b, s) = (
    record {
      has_digest = v.has_digest;
      is_stored = v.is_stored;
      is_current = v.is_current;
      keeps_pin = v.keeps_pin;
    },
    b,
    s,
  )

  cached-eq : (m : Result RegistryError PackManifest) (r : MemoryPackRegistry) → (cached m r).1 ≡ m
  unfolding cached
  cached-eq (ok m) r = refl
  cached-eq (err e) r = refl

  resolve-IsNamed :
      (spec : SpecInput) (r : MemoryPackRegistry) (m : PackManifest)
      → (resolve spec r).1 ≡ ok m
      → IsNamed spec r m
  unfolding resolve resolved_manifest
  resolve-IsNamed spec r m h =
      let (found, f, h1) =
        >>=-eq-ok (find_record spec r) _ (sym (cached-eq (resolved_manifest spec r) r) ∙ h) in
      let (y, done) = >>-eq-ok (check_yanked found.manifest r) _ h1 in (found, f, cc done)

  pulled_manifest-IsMeant :
      (input : PullInput) (r : MemoryPackRegistry) (m : PackManifest)
      → (pulled_manifest input r).1 ≡ ok m
      → IsMeant input r m
  unfolding pulled_manifest
  pulled_manifest-IsMeant (pull_spec spec) r m h = resolve-IsNamed spec r m h
  pulled_manifest-IsMeant (pull_manifest value) r m h =
      elim (Bool-cases (is_pack_manifest (object value))) [
        | inl e ↦ inl (rw (e, pulled_manifest) at h)
        | inr n ↦ inr (resolve-IsNamed (spec_at value) r m (rw (n, pulled_manifest) at h))
      ]

  delivered-manifest :
      (m : PackManifest) (bytes : Result RegistryError (List ℕ)) (r : MemoryPackRegistry)
      (p : PackBytes)
      → (delivered digest m bytes r).1 ≡ ok p
      → m ≡ p.manifest
  unfolding delivered
  delivered-manifest m (err e) r p h = cc
  delivered-manifest m (ok bytes) r p h =
      let made : PackBytes = record { manifest = m; bytes = bytes } in
      let same : made ≡ p = cc h in ap (λ (x : PackBytes). x.manifest) same

  pull_from-manifest :
      (d : Done PackManifest) (p : PackBytes) → (pull_from digest d).1 ≡ ok p → d.1 ≡ ok p.manifest
  unfolding pull_from
  pull_from-manifest (r, err e) p h = cc
  pull_from-manifest (r, ok m) p h = ap ok (delivered-manifest m (verified_bytes digest m r) r p h)

  -- What a pull meant and what it returned.
  abbrev pub IsPulled : PullInput → MemoryPackRegistry → Done PackBytes → PackBytes → Type 0
  IsPulled input r d p = IsMeant input r p.manifest × Kept r d p

  -- What a pull returns has the digest of its manifest and is what the registry stores under the
  -- manifest's name and version. For a spec, the manifest is that of the stored record that the spec
  -- names; for an object handed in, it is that object read as a manifest, or that of the record that the
  -- object names. Unless the registry is forced, this manifest is not marked as yanked, and its digest
  -- is the one that the lockfile pins, where it pins one that is not empty. The bytes are in the cache
  -- after that, and only the cache has changed.
  pub pull-IsPulled :
      (input : PullInput) (r : MemoryPackRegistry) (p : PackBytes)
      → (pull digest input r).1 ≡ ok p
      → IsPulled input r (pull digest input r) p
  unfolding pull
  pull-IsPulled input r p h = (
    pulled_manifest-IsMeant input r p.manifest (pull_from-manifest (pulled_manifest input r) p h),
    Kept-cache r (pulled_manifest input r).0.cache (pull digest input r) p (
        subst (λ k. Kept k (pull digest input r) p) (pulled_manifest-state input r)
          (pull_from-Kept (pulled_manifest input r) p h)),
  )
