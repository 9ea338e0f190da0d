-- ===== src/Registry/Cache.antt =====
-- packages/agents/src/registry/cache.ts, `MemoryPackCache`. The copies of byte arrays are lists, which
-- nothing changes in place.
pub mod Kept
use knolo_agents.Base.{ℕ, String, Bool, true, false, Option, none, some, List, ◌==◌, if◌then◌else◌}
use knolo_agents.Base.Text.{◌^^◌}
use knolo_agents.Registry.Types.{PackManifest}

pub record MemoryPackCache : Type 0 where
  pub bytes : String → Option (List ℕ)
  pub manifests : String → Option PackManifest

unfoldable pub empty_cache : MemoryPackCache
empty_cache = record { bytes = λ k. none; manifests = λ k. none }

-- map.set(key, value)
unfoldable pub set_key : {A : Type 0} → String → A → (String → Option A) → String → Option A
set_key key value held k = if k == key then some value else held k

unfoldable pub get_bytes : String → MemoryPackCache → Option (List ℕ)
get_bytes sha256 cache = cache.bytes sha256

unfoldable pub set_bytes : String → List ℕ → MemoryPackCache → MemoryPackCache
unfolding set_key
set_bytes sha256 bytes cache = record cache { bytes = set_key sha256 bytes cache.bytes }

-- `${name}@${version}`
abbrev pub manifest_key : String → String → String
manifest_key name version = name ^^ ("@" ^^ version)

unfoldable pub or_else : Option PackManifest → Option PackManifest → Option PackManifest
or_else none m = m
or_else (some m) other = some m

unfoldable pub get_manifest : String → String → MemoryPackCache → Option PackManifest
unfolding or_else
get_manifest name version cache =
    if version == "latest"
    then or_else (cache.manifests (manifest_key name "latest")) (cache.manifests name)
    else cache.manifests (manifest_key name version)

unfoldable pub set_manifest : PackManifest → MemoryPackCache → MemoryPackCache
unfolding set_key
set_manifest m cache = record cache {
  manifests = set_key m.name m (
      set_key (manifest_key m.name "latest") m
        (set_key (manifest_key m.name m.version) m cache.manifests));
}
