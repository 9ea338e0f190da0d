-- ===== src/Tests/Lockfile.antt =====
-- A lockfile with one pack and a cache with its manifest, and the theorems of the pins and the cache there.
use knolo_agents.Base.{String, ◌≡◌, refl, none, some, Result, ok, err, false}
use knolo_agents.Contracts.Values.{Json, string, object, end, field}
use knolo_agents.Dependencies.Lockfile.{
  LockfileError, KnoloLockPack, no_packs, KnoloLockfile, already_pinned, validate_lockfile,
  lockfile_pin, assert_lockfile_pin,
}
use knolo_agents.Dependencies.Lockfile.Pins.{
  AllPinned, validate_lockfile-AllPinned, assert_lockfile_pin-unforced,
}
use knolo_agents.Registry.Types.{PackManifest}
use knolo_agents.Registry.Cache.{empty_cache, get_manifest, set_manifest}
use knolo_agents.Registry.Cache.Kept.{get_manifest-set_manifest}

abbrev digest : String
digest = "00112233445566778899aabbccddeeff00112233445566778899aabbccddeeff"

abbrev text : Json
text = object (
    field "packs"
      (object (
        field "acme/law"
          (object (field "version" (string "1.0.0") (field "sha256" (string digest) end))) end))
      end)

abbrev lockfile_of : Result LockfileError KnoloLockfile → KnoloLockfile
lockfile_of (ok lockfile) = lockfile
lockfile_of (err e) = record { registry = none; packs = no_packs }

abbrev locked : KnoloLockfile
locked = lockfile_of (validate_lockfile text)

abbrev pinned : KnoloLockPack
pinned = record { version = "1.0.0"; sha256 = digest; state_root = none; license = none }

another_digest :
    assert_lockfile_pin (some locked) "acme/law" "ff" false ≡ err (already_pinned "acme/law")
unfolding validate_lockfile assert_lockfile_pin
another_digest = refl

validate_lockfile-AllPinned_example : AllPinned locked.packs
unfolding validate_lockfile
validate_lockfile-AllPinned_example = validate_lockfile-AllPinned text locked refl

assert_lockfile_pin-unforced_example : pinned.sha256 ≡ digest
unfolding validate_lockfile assert_lockfile_pin lockfile_pin
assert_lockfile_pin-unforced_example =
    assert_lockfile_pin-unforced text locked "acme/law" digest pinned refl refl refl

abbrev acme_law : PackManifest
acme_law = record {
  name = "acme/law";
  version = "1.0.0";
  sha256 = digest;
  state_root = none;
  url = "";
  license = none;
  size_bytes = 3;
  yanked = false;
  format = none;
}

get_manifest-set_manifest_example :
    (get_manifest "acme/law" "1.0.0" (set_manifest acme_law empty_cache) ≡ some acme_law)
    × (get_manifest "acme/law" "latest" (set_manifest acme_law empty_cache) ≡ some acme_law)
get_manifest-set_manifest_example = get_manifest-set_manifest acme_law empty_cache
