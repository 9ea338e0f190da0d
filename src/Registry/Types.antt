-- ===== src/Registry/Types.antt =====
-- packages/agents/src/registry/types.ts.
use knolo_agents.Base.{ℕ, String, Bool, Option, List}
use knolo_agents.Contracts.Values.{Fields}
use knolo_agents.Dependencies.Lockfile.{LockfileError}

pub data PackFormat : Type 0 where
  v4 v5 : PackFormat

pub record PackManifest : Type 0 where
  pub name : String
  pub version : String
  pub sha256 : String
  pub state_root : Option String
  pub url : String
  pub license : Option String
  pub size_bytes : ℕ
  pub yanked : Bool
  pub format : Option PackFormat

pub record PackSpec : Type 0 where
  pub publisher : String
  pub slug : String
  pub version : String
  pub name : String

-- `q` and `license` of a query; the memory registry reads no other part.
pub record PackSearchQuery : Type 0 where
  pub q : Option String
  pub license : Option String

pub record PackSearchHit : Type 0 where
  pub name : String
  pub publisher : String
  pub slug : String
  pub version : String
  pub sha256 : String
  pub state_root : Option String
  pub license : Option String
  pub description : Option String
  pub yanked : Bool

pub record PackBytes : Type 0 where
  pub manifest : PackManifest
  pub bytes : List ℕ

-- A manifest that is published is not checked yet.
pub record PackPublishInput : Type 0 where
  pub manifest : Fields
  pub bytes : List ℕ
  pub description : Option String

-- The errors that the registries throw.
pub data RegistryError : Type 0 where
  spec_incomplete manifest_not_object : RegistryError
  spec_invalid : (value : String) → RegistryError
  name_missing version_missing digest_invalid url_missing size_invalid : RegistryError
  state_root_not_text license_not_text yanked_not_flag format_unknown : RegistryError
  name_mismatch version_mismatch : (got : String) → RegistryError
  not_found is_yanked : (name version : String) → RegistryError
  digest_mismatch : (expected got : String) → RegistryError
  refused_pin : (refusal : LockfileError) → RegistryError
  search_offline publish_offline yank_offline : RegistryError
  manifest_offline bytes_offline : (name version : String) → RegistryError
