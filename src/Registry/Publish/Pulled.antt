-- ===== src/Registry/Publish/Pulled.antt =====
-- What is published can be pulled.
use mathlib.Core.Path.{subst}
use knolo_agents.Base.{
  ℕ, String, false, Option, some, Result, ok, err, List, ◌==◌, ◌≡◌, refl, ap, inl, inr, ◌⊎◌,
  str_eq_refl, Bool-cases,
}
use knolo_agents.Base.Dict.{get_key, get_key-put_key_same}
use knolo_agents.Contracts.Values.{object, lookup-put}
use knolo_agents.Dependencies.Lockfile.{assert_lockfile_pin}
use knolo_agents.Dependencies.Root.{nonempty}
use knolo_agents.Registry.Types.{PackManifest, PackSpec, PackBytes, PackPublishInput, RegistryError}
use knolo_agents.Registry.Cache.{manifest_key}
use knolo_agents.Registry.Spec.{
  SpecInput, parse_pack_spec, validate_pack_manifest, nothing_expected, flag_of,
}
use knolo_agents.Registry.Spec.Valid.{IsRead, validate_pack_manifest-IsRead}
use knolo_agents.Registry.Memory.{
  MemoryPackRegistry, Done, store, version_of, record_at, held, find_record, check_yanked,
  check_digest, resolved_manifest, cached, resolve, pull, pull_spec, pulled_manifest, pull_from,
  verified_bytes, delivered, pin_checked,
}
use knolo_agents.Registry.Publish.{publish, published, published_fields, released}

-- A spec of the manifest's version, or of the latest.
abbrev pub IsSpecOf : PackSpec → PackManifest → Type 0
IsSpecOf spec m = (spec.name ≡ m.name) × ((spec.version ≡ m.version) ⊎ (spec.version ≡ "latest"))

nonempty-some : (s : String) → (s == "") ≡ false → nonempty (some s) ≡ some s
unfolding nonempty
nonempty-some s n = rw n refl

-- What is stored is found by its name and its version, and by its name alone.
version_of-store :
    (spec : PackSpec) (m : PackManifest) (bytes : List ℕ) (description : Option String)
    (r : MemoryPackRegistry)
    → IsSpecOf spec m
    → (m.version == "") ≡ false
    → version_of spec (store m bytes description r) ≡ some m.version
unfolding version_of store
version_of-store spec m bytes description r (n, v) full =
    elim (Bool-cases (spec.version == "latest")) [
      | inl e ↦
          rw (e, n, get_key-put_key_same m.name m.version r.latest) (nonempty-some m.version full)
      | inr d ↦ elim v [
        | inl same ↦ rw (d, same) (nonempty-some m.version full)
        | inr latest ↦ cc (rw (latest, str_eq_refl "latest") at d)
      ]
    ]

find_record-store :
    (input : SpecInput) (spec : PackSpec) (m : PackManifest) (bytes : List ℕ)
    (description : Option String) (r : MemoryPackRegistry)
    → parse_pack_spec input ≡ ok spec
    → IsSpecOf spec m
    → (m.version == "") ≡ false
    → find_record input (store m bytes description r)
      ≡ ok (record { manifest = m; bytes = bytes; description = description })
unfolding find_record held record_at store
find_record-store input spec m bytes description r p of full =
    rw (p, version_of-store spec m bytes description r of full, of.0) (rw at_key refl)
  where
    at_key :
        get_key (manifest_key m.name m.version) (store m bytes description r).records
        ≡ some (record { manifest = m; bytes = bytes; description = description })
    at_key =
        get_key-put_key_same (manifest_key m.name m.version)
          (record { manifest = m; bytes = bytes; description = description }) r.records

module _ (digest : List ℕ → String) where
  -- What a publication that returns did.
  abbrev Published :
      PackPublishInput → MemoryPackRegistry → PackManifest → Done PackManifest → Type 0
  Published input r m d =
      (check_digest digest m input.bytes ≡ ok tt) × (d.0 ≡ store m input.bytes input.description r)

  released-eq-ok :
      (input : PackPublishInput) (n m : PackManifest) (c : Result RegistryError (Unit {0}))
      (r : MemoryPackRegistry)
      → check_digest digest n input.bytes ≡ c
      → (released digest input n c r).1 ≡ ok m
      → (n ≡ m) × Published input r m (released digest input n c r)
  unfolding released
  released-eq-ok input n m (err e) r q h = cc
  released-eq-ok input n m (ok tt) r q h =
      let same : n ≡ m = cc h in
      (
        same,
        subst (λ k. Published input r k (store n input.bytes input.description r, ok n)) same
            (q, refl),
      )

  published-eq-ok :
      (input : PackPublishInput) (r : MemoryPackRegistry) (read : Result RegistryError PackManifest)
      (m : PackManifest)
      → (published digest input r read).1 ≡ ok m
      → (read ≡ ok m) × Published input r m (published digest input r read)
  unfolding published
  published-eq-ok input r (err e) m h = cc
  published-eq-ok input r (ok n) m h =
      let (same, done) = released-eq-ok input n m (check_digest digest n input.bytes) r refl h in
      (ap ok same, done)

  -- A published manifest is not yanked and has a version.
  published-current :
      (input : PackPublishInput) (m : PackManifest)
      → validate_pack_manifest
          (object (published_fields input.manifest (digest input.bytes)))
          nothing_expected
        ≡ ok m
      → (m.yanked ≡ false) × ((m.version == "") ≡ false)
  unfolding published_fields flag_of
  published-current input m h =
      let read : IsRead (published_fields input.manifest (digest input.bytes)) nothing_expected m =
        validate_pack_manifest-IsRead (published_fields input.manifest (digest input.bytes))
          nothing_expected m h in
      (
        elim read.reads_yanked [
          | inl (missing, current) ↦ current
          | inr f ↦ cc (rw (lookup-put) at f)
        ],
        read.has_version,
      )

  check_yanked-current :
      (m : PackManifest) (r : MemoryPackRegistry) → m.yanked ≡ false → check_yanked m r ≡ ok tt
  unfolding check_yanked
  check_yanked-current m r y = rw y refl

  -- The manifest that was published, and its bytes.
  abbrev delivery : PackManifest → List ℕ → PackBytes
  delivery m bytes = record { manifest = m; bytes = bytes }

  verified_bytes-store :
      (input : PackPublishInput) (m : PackManifest) (r s : MemoryPackRegistry)
      → m.yanked ≡ false
      → check_digest digest m input.bytes ≡ ok tt
      → s.records ≡ (store m input.bytes input.description r).records
      → assert_lockfile_pin s.lockfile m.name m.sha256 s.force ≡ ok tt
      → verified_bytes digest m s ≡ ok input.bytes
  unfolding verified_bytes pin_checked store
  verified_bytes-store input m r s y d e pin =
      rw
        (
          check_yanked-current m s y,
          e,
          get_key-put_key_same (manifest_key m.name m.version)
              (record { manifest = m; bytes = input.bytes; description = input.description })
              r.records,
          d,
          pin,
        )
        refl

  -- After a publication that returns, a pull by a spec that has the manifest's name, and its version or
  -- `latest`, returns that manifest and the published bytes, where the lockfile allows its digest.
  pub pull-publish :
      (input : PackPublishInput) (r : MemoryPackRegistry) (m : PackManifest)
      (spec_input : SpecInput) (spec : PackSpec)
      → (publish digest input r).1 ≡ ok m
      → parse_pack_spec spec_input ≡ ok spec
      → IsSpecOf spec m
      → assert_lockfile_pin r.lockfile m.name m.sha256 r.force ≡ ok tt
      → (pull digest (pull_spec spec_input) (publish digest input r).0).1
        ≡ ok (record { manifest = m; bytes = input.bytes })
  unfolding publish pull pulled_manifest resolve resolved_manifest cached pull_from delivered store
  pull-publish input r m spec_input spec h p of pin =
      let (read, done) = published-eq-ok input r _ m h in
      let (d, state) : Published input r m (
          published digest input r (
            validate_pack_manifest (object (published_fields input.manifest (digest input.bytes)))
              nothing_expected)) =
        done in
      let (y, full) = published-current input m read in
      let after : MemoryPackRegistry = store m input.bytes input.description r in
      rw
        (
          state,
          find_record-store spec_input spec m input.bytes input.description r p of full,
          check_yanked-current m after y,
          verified_bytes-store input m r (cached (ok m) after).0 y d refl pin,
        )
        refl
