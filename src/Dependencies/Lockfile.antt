-- ===== src/Dependencies/Lockfile.antt =====
-- packages/agents/src/dependencies/lockfile.ts: the lockfile's shape, its pins and its registry. A pack is
-- not named `__proto__`, which assignment to a plain object treats apart.
pub mod Pins
use knolo_agents.Base.{
  String, ℕ, Bool, true, false, not, ◌&&◌, ◌||◌, Option, none, some, List, [], ◌∷◌, eqb, Result, ok,
  err, ◌>>=◌, ◌>>◌, require, ◌==◌, if◌then◌else◌,
}
use knolo_agents.Base.Text.{codes, trimmed, same_codes}
use knolo_agents.Contracts.Values.{
  Json, null, bool, number, string, array, object, Fields, end, field, lookup,
}
use knolo_agents.Dependencies.Root.{is_sha256}

pub data LockfileError : Type 0 where
  lockfile_not_object registry_not_text packs_not_object : LockfileError
  pack_not_object version_missing digest_invalid state_root_not_text license_not_text :
      (name : String) → LockfileError
  registries_mixed : (registry : String) → LockfileError
  already_pinned : (name : String) → LockfileError

pub record KnoloLockPack : Type 0 where
  pub version : String
  pub sha256 : String
  pub state_root : Option String
  pub license : Option String

-- The packs by name, in the order of the object.
pub data LockPacks : Type 0 where
  no_packs : LockPacks
  pack : (name : String) (pin : KnoloLockPack) (others : LockPacks) → LockPacks

pub record KnoloLockfile : Type 0 where
  pub registry : Option String
  pub packs : LockPacks

nonempty_text : Option Json → LockfileError → Result LockfileError String
nonempty_text (some (string s)) e = if s == "" then err e else ok s
nonempty_text _ e = err e

digest_text : Option Json → LockfileError → Result LockfileError String
unfolding is_sha256
digest_text (some (string s)) e = if is_sha256 s then ok s else err e
digest_text _ e = err e

-- A text, or nothing.
optional_text : Option Json → LockfileError → Result LockfileError (Option String)
optional_text none e = ok none
optional_text (some (string s)) e = ok (some s)
optional_text (some v) e = err e

unfoldable pub validate_lock_pack : String → Json → Result LockfileError KnoloLockPack
unfolding nonempty_text digest_text optional_text lookup
validate_lock_pack name (object o) =
    nonempty_text (lookup "version" o) (version_missing name) >>= (λ version.
      digest_text (lookup "sha256" o) (digest_invalid name) >>= (λ sha256.
        optional_text (lookup "stateRoot" o) (state_root_not_text name) >>= (λ state_root.
          optional_text (lookup "license" o) (license_not_text name) >>= (λ license. ok (record {
            version = version;
            sha256 = sha256;
            state_root = state_root;
            license = license;
          })))))
validate_lock_pack name v = err (pack_not_object name)

-- The loop over the entries.
unfoldable pub validate_packs : Fields → Result LockfileError LockPacks
unfolding validate_lock_pack
validate_packs end = ok no_packs
validate_packs (field name entry rest) =
    validate_lock_pack name entry
    >>= (λ pin. validate_packs rest >>= (λ others. ok (pack name pin others)))

packs_of : Option Json → Result LockfileError Fields
packs_of none = ok end
packs_of (some (object o)) = ok o
packs_of (some v) = err packs_not_object

given_registry : Option String → Option String
given_registry none = none
given_registry (some s) = if s == "" then none else some s

unfoldable pub validate_lockfile : Json → Result LockfileError KnoloLockfile
unfolding optional_text packs_of validate_packs given_registry lookup
validate_lockfile (object o) =
    optional_text (lookup "registry" o) registry_not_text >>= (λ registry.
      packs_of (lookup "packs" o) >>= (λ entries.
        validate_packs entries
        >>= (λ packs. ok (record { registry = given_registry registry; packs = packs }))))
validate_lockfile v = err lockfile_not_object

without_slashes : List ℕ → List ℕ
without_slashes [] = []
without_slashes (c ∷ cs) = elim (without_slashes cs) [
  | [] ↦ if eqb c b'/' then [] else c ∷ []
  | d ∷ ds ↦ c ∷ d ∷ ds
]

-- url.trim().replace(/\/+$/, ""), as code points
unfoldable pub normalize_registry_url : String → List ℕ
unfolding without_slashes trimmed codes
normalize_registry_url url = without_slashes (trimmed (codes url))

registry_allowed : Option String → String → Bool → Result LockfileError (Unit {0})
unfolding normalize_registry_url same_codes
registry_allowed none registry force = ok tt
registry_allowed (some locked) registry force =
    require (same_codes (normalize_registry_url locked) (normalize_registry_url registry) || force)
      (registries_mixed locked)

unfoldable pub assert_lockfile_registry :
    KnoloLockfile → String → Bool → Result LockfileError (Unit {0})
unfolding registry_allowed given_registry
assert_lockfile_registry lockfile registry force =
    registry_allowed (given_registry lockfile.registry) registry force

unfoldable pub lockfile_pin : LockPacks → String → Option KnoloLockPack
lockfile_pin no_packs name = none
lockfile_pin (pack other pin others) name =
    if other == name then some pin else lockfile_pin others name

pin_allowed : Option KnoloLockPack → String → String → Bool → Result LockfileError (Unit {0})
pin_allowed none name sha256 force = ok tt
pin_allowed (some pin) name sha256 force =
    require (pin.sha256 == "" || pin.sha256 == sha256 || force) (already_pinned name)

pins_of : Option KnoloLockfile → LockPacks
pins_of none = no_packs
pins_of (some lockfile) = lockfile.packs

unfoldable pub assert_lockfile_pin :
    Option KnoloLockfile → String → String → Bool → Result LockfileError (Unit {0})
unfolding pin_allowed pins_of lockfile_pin
assert_lockfile_pin lockfile name sha256 force =
    pin_allowed (lockfile_pin (pins_of lockfile) name) name sha256 force
