-- ===== src/Registry/Cache/Kept.antt =====
-- What is put into the cache is what comes out of it.
use knolo_agents.Base.{String, ◌≡◌, refl, Option, some, ◌==◌, str_eq_refl, Bool-cases, inl, inr}
use knolo_agents.Registry.Types.{PackManifest}
use knolo_agents.Registry.Cache.{
  MemoryPackCache, set_key, manifest_key, or_else, get_manifest, set_manifest,
}

set_key_same :
    {A : Type 0} (key : String) (value : A) (held : String → Option A)
    → set_key key value held key ≡ some value
unfolding set_key
set_key_same key value held = rw (str_eq_refl key) refl

-- A key that a new value was put under, or that held it before, holds it.
set_key_over :
    {A : Type 0} (key k : String) (value : A) (held : String → Option A)
    → held k ≡ some value
    → set_key key value held k ≡ some value
unfolding set_key
set_key_over key k value held h = elim (Bool-cases (k == key)) [
  | inl e ↦ rw e refl
  | inr n ↦ rw n h
]

-- After `setManifest` both the manifest's own version and the latest one are that manifest.
pub get_manifest-set_manifest :
    (m : PackManifest) (cache : MemoryPackCache)
    → (get_manifest m.name m.version (set_manifest m cache) ≡ some m)
      × (get_manifest m.name "latest" (set_manifest m cache) ≡ some m)
unfolding get_manifest set_manifest or_else
get_manifest-set_manifest m cache =
    let versions = set_key (manifest_key m.name m.version) m cache.manifests in
    let latest = set_key (manifest_key m.name "latest") m versions in
    let at_latest : set_key m.name m latest (manifest_key m.name "latest") ≡ some m =
      set_key_over m.name _ m latest (set_key_same (manifest_key m.name "latest") m versions) in
    let at_version : set_key m.name m latest (manifest_key m.name m.version) ≡ some m =
      set_key_over m.name _ m latest (
        set_key_over (manifest_key m.name "latest") _ m versions
          (set_key_same (manifest_key m.name m.version) m cache.manifests)) in
    (
      elim (Bool-cases (m.version == "latest")) [
        | inl e ↦ rw (e, at_latest) refl
        | inr n ↦ rw (n, at_version) refl
      ],
      rw at_latest refl,
    )
