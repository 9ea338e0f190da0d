-- ===== src/Dependencies/Lockfile/Pins.antt =====
-- What a lockfile that was read promises: its packs are well formed, and a pin is not replaced unforced.
use mathlib.Core.Path.{subst}
use knolo_agents.Base.{
  ◌∙◌, String, ◌≡◌, ◌≢◌, true, false, Option, none, some, ok, >>=-eq-ok, require-eq-ok, ◌==◌,
  str_eq→eq, eq_iff, arith, Bool-cases, inl, inr, ◌⊎◌, Bool,
}
use knolo_agents.Contracts.Values.{
  Json, null, bool, number, string, array, object, Fields, end, field, lookup,
}
use knolo_agents.Dependencies.Root.{is_sha256}
use knolo_agents.Dependencies.Lockfile.{
  LockfileError, KnoloLockPack, LockPacks, no_packs, pack, KnoloLockfile, nonempty_text,
  digest_text, optional_text, validate_lock_pack, validate_packs, validate_lockfile, packs_of,
  given_registry, lockfile_pin, pin_allowed, pins_of, assert_lockfile_pin, digest_invalid,
  version_missing,
}

-- A version that is not empty and a digest of 64 lower-case hexadecimal digits.
pub record IsPinned (pin : KnoloLockPack) : Type 0 where
  pub has_version : pin.version ≢ ""
  pub has_digest : is_sha256 pin.sha256 ≡ true

digest_text_lem :
    (v : Option Json) (e : LockfileError) {s : String} → digest_text v e ≡ ok s → is_sha256 s ≡ true
unfolding digest_text
digest_text_lem (some (string t)) e {s} h = elim (Bool-cases (is_sha256 t)) [
  | inl y ↦ let same : t ≡ s = cc (rw (y, digest_text) at h) in rw (← same) y
  | inr n ↦ cc (rw (n, digest_text) at h)
]
digest_text_lem none e h = cc
digest_text_lem (some null) e h = cc
digest_text_lem (some (bool b)) e h = cc
digest_text_lem (some (number n d k)) e h = cc
digest_text_lem (some (array xs)) e h = cc
digest_text_lem (some (object o)) e h = cc

nonempty_text_lem :
    (v : Option Json) (e : LockfileError) {s : String} → nonempty_text v e ≡ ok s → s ≢ ""
unfolding nonempty_text
nonempty_text_lem (some (string t)) e {s} h q = elim (Bool-cases (t == "")) [
  | inl y ↦ cc (rw (y, nonempty_text) at h)
  | inr n ↦ let same : t ≡ s = cc (rw (n, nonempty_text) at h) in cc (n, (eq_iff t "").1 (same ∙ q))
]
nonempty_text_lem none e h q = cc
nonempty_text_lem (some null) e h q = cc
nonempty_text_lem (some (bool b)) e h q = cc
nonempty_text_lem (some (number n d k)) e h q = cc
nonempty_text_lem (some (array xs)) e h q = cc
nonempty_text_lem (some (object o)) e h q = cc

validate_lock_pack-IsPinned :
    (name : String) (v : Json) {pin : KnoloLockPack}
    → validate_lock_pack name v ≡ ok pin
    → IsPinned pin
unfolding validate_lock_pack
validate_lock_pack-IsPinned name (object o) {pin} h =
    let (version, v, h1) =
      >>=-eq-ok (nonempty_text (lookup "version" o) (version_missing name)) _ h in
    let (digest, d, h2) = >>=-eq-ok (digest_text (lookup "sha256" o) (digest_invalid name)) _ h1 in
    let (root, r, h3) = >>=-eq-ok (optional_text (lookup "stateRoot" o) _) _ h2 in
    let (license, l, h4) = >>=-eq-ok (optional_text (lookup "license" o) _) _ h3 in
    let built : KnoloLockPack = record {
      version = version;
      sha256 = digest;
      state_root = root;
      license = license;
    } in
    let same : built ≡ pin = cc h4 in
    subst IsPinned same (record {
      has_version = nonempty_text_lem (lookup "version" o) _ v;
      has_digest = digest_text_lem (lookup "sha256" o) _ d;
    })
validate_lock_pack-IsPinned name null h = cc
validate_lock_pack-IsPinned name (bool b) h = cc
validate_lock_pack-IsPinned name (number n d k) h = cc
validate_lock_pack-IsPinned name (string s) h = cc
validate_lock_pack-IsPinned name (array xs) h = cc

-- Every pack of a lockfile.
abbrev pub AllPinned : LockPacks → Type 0
AllPinned no_packs = Unit
AllPinned (pack name pin others) = IsPinned pin × AllPinned others

validate_packs-AllPinned :
    (entries : Fields) {packs : LockPacks} → validate_packs entries ≡ ok packs → AllPinned packs
unfolding validate_packs
validate_packs-AllPinned end {packs} h =
    let same : no_packs ≡ packs = cc h in subst AllPinned same tt
validate_packs-AllPinned (field name entry rest) {packs} h =
    let (pin, p, h1) = >>=-eq-ok (validate_lock_pack name entry) _ h in
    let (others, r, h2) = >>=-eq-ok (validate_packs rest) _ h1 in
    let same : pack name pin others ≡ packs = cc h2 in
    subst AllPinned same (validate_lock_pack-IsPinned name entry p, validate_packs-AllPinned rest r)

-- Every pack of a lockfile that `validateLockfile` returns has a version that is not empty and a digest of
-- 64 lower-case hexadecimal digits.
pub validate_lockfile-AllPinned :
    (v : Json) (lockfile : KnoloLockfile)
    → validate_lockfile v ≡ ok lockfile
    → AllPinned lockfile.packs
unfolding validate_lockfile
validate_lockfile-AllPinned (object o) lockfile h =
    let (registry, g, h1) = >>=-eq-ok (optional_text (lookup "registry" o) _) _ h in
    let (entries, e, h2) = >>=-eq-ok (packs_of (lookup "packs" o)) _ h1 in
    let (packs, p, h3) = >>=-eq-ok (validate_packs entries) _ h2 in
    let built : KnoloLockfile = record { registry = given_registry registry; packs = packs } in
    let same : built ≡ lockfile = cc h3 in
    subst (λ (l : KnoloLockfile). AllPinned l.packs) same (validate_packs-AllPinned entries p)
validate_lockfile-AllPinned null lockfile h = cc
validate_lockfile-AllPinned (bool b) lockfile h = cc
validate_lockfile-AllPinned (number n d k) lockfile h = cc
validate_lockfile-AllPinned (string s) lockfile h = cc
validate_lockfile-AllPinned (array xs) lockfile h = cc

lockfile_pin-IsPinned :
    (packs : LockPacks) (name : String) {pin : KnoloLockPack}
    → AllPinned packs
    → lockfile_pin packs name ≡ some pin
    → IsPinned pin
unfolding lockfile_pin
lockfile_pin-IsPinned no_packs name a h = cc
lockfile_pin-IsPinned (pack other first others) name {pin} a h = elim (Bool-cases (other == name)) [
  | inl e ↦ let same : first ≡ pin = cc (rw (e, lockfile_pin) at h) in subst IsPinned same a.0
  | inr n ↦ lockfile_pin-IsPinned others name a.1 (rw (n, lockfile_pin) at h)
]

pin_allowed-unforced :
    (pin : KnoloLockPack) (name sha256 : String)
    → pin_allowed (some pin) name sha256 false ≡ ok tt
    → IsPinned pin
    → pin.sha256 ≡ sha256
unfolding pin_allowed is_sha256
pin_allowed-unforced pin name sha256 h p = elim (Bool-cases (pin.sha256 == "")) [
  | inl e ↦
      let bad : is_sha256 "" ≡ true =
        subst (λ s. is_sha256 s ≡ true) ((eq_iff pin.sha256 "").0 e) p.has_digest in
      cc bad
  | inr n ↦ str_eq→eq pin.sha256 sha256 (ground (arith, require-eq-ok _ _ h))
]

pin_allowed-eq :
    (pin : KnoloLockPack) (name sha256 : String)
    → pin_allowed (some pin) name sha256 false ≡ ok tt
    → (pin.sha256 ≡ "") ⊎ (pin.sha256 ≡ sha256)
unfolding pin_allowed
pin_allowed-eq pin name sha256 h = elim (Bool-cases (pin.sha256 == "")) [
  | inl e ↦ inl ((eq_iff pin.sha256 "").0 e)
  | inr n ↦ inr (str_eq→eq pin.sha256 sha256 (ground (arith, require-eq-ok _ _ h)))
]

-- Unless it is forced, a digest that passes is the one that is pinned, where one is that is not empty.
pub assert_lockfile_pin-eq :
    (given : Option KnoloLockfile) (force : Bool) (name sha256 : String)
    → assert_lockfile_pin given name sha256 force ≡ ok tt
    → (lockfile : KnoloLockfile) (pin : KnoloLockPack) → force ≡ false
    → given ≡ some lockfile
    → lockfile_pin lockfile.packs name ≡ some pin
    → (pin.sha256 ≡ "") ⊎ (pin.sha256 ≡ sha256)
unfolding assert_lockfile_pin pins_of
assert_lockfile_pin-eq given force name sha256 h lockfile pin unforced is_given found =
    pin_allowed-eq pin name sha256 (rw (unforced, is_given, found, assert_lockfile_pin) at h)

-- With a lockfile that `validateLockfile` returned, a digest passes without force only if it is the one
-- that the lockfile pins, where it pins the pack.
pub assert_lockfile_pin-unforced :
    (v : Json) (lockfile : KnoloLockfile) (name sha256 : String) (pin : KnoloLockPack)
    → validate_lockfile v ≡ ok lockfile
    → lockfile_pin lockfile.packs name ≡ some pin
    → assert_lockfile_pin (some lockfile) name sha256 false ≡ ok tt
    → pin.sha256 ≡ sha256
unfolding assert_lockfile_pin pins_of
assert_lockfile_pin-unforced v lockfile name sha256 pin valid found h =
    pin_allowed-unforced pin name sha256
      (subst (λ o. pin_allowed o name sha256 false ≡ ok tt) found h)
      (lockfile_pin-IsPinned lockfile.packs name (validate_lockfile-AllPinned v lockfile valid)
        found)
