-- ===== src/Registry/Memory.antt =====
-- packages/agents/src/registry/fake.ts. Packs come as JSON manifests with their bytes; `digest` is the SHA-256 of
-- bytes in hexadecimal, `locale_le` the order of `localeCompare`, `lower` is `toLowerCase`.
pub mod Verified
use knolo_agents.Base.{
  ℕ, String, Bool, true, false, not, ◌&&◌, ◌||◌, Option, none, some, List, [], ◌∷◌, Result, ok, err,
  ◌>>=◌, ◌>>◌, require, ◌==◌, if◌then◌else◌,
}
use knolo_agents.Base.Dict.{Dict, get_key, put_key}
use knolo_agents.Base.Sort.{sort_by}
use knolo_agents.Base.Text.{◌^^◌, trim, text_includes}
use knolo_agents.Builder.{or_default}
use knolo_agents.Contracts.Values.{Json, bool, string, object, Fields, lookup, put}
use knolo_agents.Dependencies.Lockfile.{KnoloLockfile, LockfileError, assert_lockfile_pin}
use knolo_agents.Dependencies.Root.{nonempty}
use knolo_agents.Registry.Types.{
  PackManifest, PackSpec, PackSearchQuery, PackSearchHit, PackBytes, PackPublishInput,
  RegistryError, not_found, is_yanked, digest_mismatch, refused_pin,
}
use knolo_agents.Registry.Cache.{MemoryPackCache, set_bytes, set_manifest, manifest_key}
use knolo_agents.Registry.Spec.{
  SpecInput, text, parts, parse_pack_spec, is_pack_manifest, validate_pack_manifest,
  nothing_expected,
}

pub record MemoryPackRecord : Type 0 where
  pub manifest : PackManifest
  pub bytes : List ℕ
  pub description : Option String

pub record MemoryPackRegistry : Type 0 where
  pub origin : String
  pub cache : MemoryPackCache
  pub force : Bool
  pub lockfile : Option KnoloLockfile
  pub records : Dict MemoryPackRecord
  pub latest : Dict String

-- `MemoryPackRecord` as it is handed in.
pub record AddedPack : Type 0 where
  pub manifest : Json
  pub bytes : List ℕ
  pub description : Option String

-- What the constructor is given.
pub record RegistryOptions : Type 0 where
  pub origin : Option String
  pub force : Bool
  pub lockfile : Option KnoloLockfile
  pub cache : MemoryPackCache
  pub packs : List AddedPack

-- A call: the registry after it, and what it returned or threw.
abbrev pub Done : Type 0 → Type 0
Done A = MemoryPackRegistry × Result RegistryError A

-- The registry after a manifest that is valid is stored.
unfoldable pub store :
    PackManifest → List ℕ → Option String → MemoryPackRegistry → MemoryPackRegistry
unfolding put_key set_bytes set_manifest
store m bytes description r = record r {
  records =
      put_key (manifest_key m.name m.version)
        (record { manifest = m; bytes = bytes; description = description }) r.records;
  latest = put_key m.name m.version r.latest;
  cache = set_bytes m.sha256 bytes (set_manifest m r.cache);
}

unfoldable pub add : AddedPack → MemoryPackRegistry → Result RegistryError MemoryPackRegistry
unfolding validate_pack_manifest store
add pack r =
    validate_pack_manifest pack.manifest nothing_expected
    >>= (λ manifest. ok (store manifest pack.bytes pack.description r))

add_packs : List AddedPack → MemoryPackRegistry → Result RegistryError MemoryPackRegistry
unfolding add
add_packs [] r = ok r
add_packs (pack ∷ packs) r = add pack r >>= add_packs packs

unfoldable pub memory_pack_registry : RegistryOptions → Result RegistryError MemoryPackRegistry
unfolding add_packs
memory_pack_registry options = add_packs options.packs (record {
  origin = or_default options.origin "memory://packs";
  cache = options.cache;
  force = options.force;
  lockfile = options.lockfile;
  records = [];
  latest = [];
})

-- version === "latest" ? latest.get(name) : version, where a version is not empty
unfoldable pub version_of : PackSpec → MemoryPackRegistry → Option String
unfolding get_key nonempty
version_of spec r =
    nonempty (if spec.version == "latest" then get_key spec.name r.latest else some spec.version)

unfoldable pub record_at : PackSpec → Option String → MemoryPackRegistry → Option MemoryPackRecord
unfolding get_key
record_at spec none r = none
record_at spec (some version) r = get_key (manifest_key spec.name version) r.records

unfoldable pub held : PackSpec → Option MemoryPackRecord → Result RegistryError MemoryPackRecord
held spec none = err (not_found spec.name spec.version)
held spec (some found) = ok found

-- The record that a spec names.
unfoldable pub find_record : SpecInput → MemoryPackRegistry → Result RegistryError MemoryPackRecord
unfolding parse_pack_spec version_of record_at held
find_record spec r =
    parse_pack_spec spec >>= (λ parsed. held parsed (record_at parsed (version_of parsed r) r))

-- A manifest that is not yanked, or any where the registry is forced.
unfoldable pub check_yanked : PackManifest → MemoryPackRegistry → Result RegistryError (Unit {0})
check_yanked m r = require (not (m.yanked && not r.force)) (is_yanked m.name m.version)

unfoldable pub resolved_manifest :
    SpecInput → MemoryPackRegistry → Result RegistryError PackManifest
unfolding find_record check_yanked
resolved_manifest spec r =
    find_record spec r
    >>= (λ (found : MemoryPackRecord). check_yanked found.manifest r >> ok found.manifest)

unfoldable pub cached : Result RegistryError PackManifest → MemoryPackRegistry → Done PackManifest
unfolding set_manifest
cached (err e) r = (r, err e)
cached (ok m) r = (record r { cache = set_manifest m r.cache }, ok m)

unfoldable pub resolve : SpecInput → MemoryPackRegistry → Done PackManifest
unfolding resolved_manifest cached
resolve spec r = cached (resolved_manifest spec r) r

-- What is pulled: a spec, or a manifest as it is handed in.
pub data PullInput : Type 0 where
  pull_spec : (spec : SpecInput) → PullInput
  pull_manifest : (value : Fields) → PullInput

text_at : String → Fields → String
unfolding lookup
text_at key o = elim (lookup key o) [ none ↦ "" | some v ↦ elim v [ string s ↦ s | _ ↦ "" ] ]

unfoldable pub spec_at : Fields → SpecInput
unfolding text_at
spec_at o = parts (record {
  publisher = text_at "publisher" o;
  slug = text_at "slug" o;
  version = text_at "version" o;
  name = text_at "name" o;
})

unfoldable pub pulled_manifest : PullInput → MemoryPackRegistry → Done PackManifest
unfolding is_pack_manifest validate_pack_manifest resolve spec_at
pulled_manifest (pull_spec spec) r = resolve spec r
pulled_manifest (pull_manifest value) r =
    if is_pack_manifest (object value)
    then (r, validate_pack_manifest (object value) nothing_expected)
    else resolve (spec_at value) r

unfoldable pub pin_checked : Result LockfileError (Unit {0}) → Result RegistryError (Unit {0})
pin_checked (err e) = err (refused_pin e)
pin_checked (ok u) = ok u

module _ (digest : List ℕ → String) where
  unfoldable pub check_digest : PackManifest → List ℕ → Result RegistryError (Unit {0})
  check_digest m bytes =
      require (digest bytes == m.sha256) (digest_mismatch m.sha256 (digest bytes))

  -- The bytes for a manifest.
  unfoldable pub verified_bytes : PackManifest → MemoryPackRegistry → Result RegistryError (List ℕ)
  unfolding check_yanked get_key check_digest assert_lockfile_pin pin_checked
  verified_bytes m r =
      check_yanked m r
      >> (elim (get_key (manifest_key m.name m.version) r.records) [
        | none ↦ err (not_found m.name m.version)
        | some found ↦ ok found.bytes
      ]
          >>= (λ bytes.
              check_digest m bytes
              >> (pin_checked (assert_lockfile_pin r.lockfile m.name m.sha256 r.force)
                  >> ok bytes)))

  unfoldable pub delivered :
      PackManifest → Result RegistryError (List ℕ) → MemoryPackRegistry → Done PackBytes
  unfolding set_bytes set_manifest
  delivered m (err e) r = (r, err e)
  delivered m (ok bytes) r = (
    record r { cache = set_manifest m (set_bytes m.sha256 bytes r.cache) },
    ok (record { manifest = m; bytes = bytes }),
  )

  unfoldable pub pull_from : Done PackManifest → Done PackBytes
  unfolding delivered verified_bytes
  pull_from (r, err e) = (r, err e)
  pull_from (r, ok m) = delivered m (verified_bytes m r) r

  unfoldable pub pull : PullInput → MemoryPackRegistry → Done PackBytes
  unfolding pulled_manifest pull_from
  pull input r = pull_from (pulled_manifest input r)
