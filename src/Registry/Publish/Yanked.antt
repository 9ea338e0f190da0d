-- ===== src/Registry/Publish/Yanked.antt =====
-- What a yank does to a version, and what is published can be pulled.
use knolo_agents.Base.{String, true, false, Option, none, some, Result, ok, err, ◌≡◌, refl, ap}
use knolo_agents.Base.Dict.{put_key, get_key-put_key_same}
use knolo_agents.Builder.{or_default}
use knolo_agents.Registry.Types.{PackManifest, PackSpec, RegistryError, is_yanked}
use knolo_agents.Registry.Cache.{manifest_key}
use knolo_agents.Registry.Spec.{SpecInput, parse_pack_spec}
use knolo_agents.Registry.Memory.{
  MemoryPackRecord, MemoryPackRegistry, Done, version_of, record_at, held, find_record,
  check_yanked, resolved_manifest, cached, resolve,
}
use knolo_agents.Registry.Publish.{marked, key_of, yanked_record, yank}

held-eq-ok :
    (spec : PackSpec) (found : Option MemoryPackRecord) (f : MemoryPackRecord)
    → held spec found ≡ ok f
    → found ≡ some f
unfolding held
held-eq-ok spec none f h = cc
held-eq-ok spec (some g) f h = ap some (cc h)

-- A record that is found stands under the key of the spec, which the change of a record keeps.
record_at-put_key :
    (spec : PackSpec) (version : Option String) (r s : MemoryPackRegistry) (f g : MemoryPackRecord)
    → record_at spec version r ≡ some f
    → s.records ≡ put_key (manifest_key spec.name (or_default version "")) g r.records
    → record_at spec version s ≡ some g
unfolding record_at
record_at-put_key spec none r s f g h e = cc
record_at-put_key spec (some version) r s f g h e =
    rw e (get_key-put_key_same (manifest_key spec.name version) g r.records)

-- After a yank, what is thrown for the spec.
refused_after :
    (spec : PackSpec) (f : MemoryPackRecord) (r : MemoryPackRegistry) (input : SpecInput)
    → parse_pack_spec input ≡ ok spec
    → record_at spec (version_of spec r) r ≡ some f
    → r.force ≡ false
    → resolved_manifest input (marked (key_of spec r) f r).0
      ≡ err (is_yanked f.manifest.name f.manifest.version)
unfolding resolved_manifest find_record marked key_of held check_yanked
refused_after spec f r input p a free =
    let after : MemoryPackRegistry = (marked (key_of spec r) f r).0 in
    let g : MemoryPackRecord = record {
      manifest = record f.manifest { yanked = true };
      bytes = f.bytes;
      description = f.description;
    } in
    let at : record_at spec (version_of spec after) after ≡ some g =
      record_at-put_key spec (version_of spec r) r after f g a refl in
    rw (p, at, free) refl

abbrev refusal : MemoryPackRegistry → PackManifest → Done PackManifest
refusal r m = (r, err (is_yanked m.name m.version))

yanked_record-resolve :
    (input : SpecInput) (r : MemoryPackRegistry) (m : PackManifest)
    (parsed : Result RegistryError PackSpec) (found : Result RegistryError MemoryPackRecord)
    → parse_pack_spec input ≡ parsed
    → find_record input r ≡ found
    → r.force ≡ false
    → (yanked_record parsed found r).1 ≡ ok m
    → resolve input (yanked_record parsed found r).0
      ≡ ((yanked_record parsed found r).0, err (is_yanked m.name m.version))
unfolding yanked_record resolve cached find_record marked
yanked_record-resolve input r m (err e) found p q free h = cc
yanked_record-resolve input r m (ok spec) (err e) p q free h = cc
yanked_record-resolve input r m (ok spec) (ok f) p q free h =
    let there : record_at spec (version_of spec r) r ≡ some f =
      held-eq-ok spec (record_at spec (version_of spec r) r) f (rw p at q) in
    let built : PackManifest = record f.manifest { yanked = true } in
    let same : built ≡ m = cc h in
    rw (refused_after spec f r input p there free)
      (ap (refusal (marked (key_of spec r) f r).0) same)

-- In a registry that is not forced, a yank that returns makes the next `resolve` of the same spec throw
-- the error of a yanked version, and that leaves the registry as it is.
pub resolve-yank :
    (input : SpecInput) (r : MemoryPackRegistry) (m : PackManifest)
    → r.force ≡ false
    → (yank input r).1 ≡ ok m
    → resolve input (yank input r).0 ≡ ((yank input r).0, err (is_yanked m.name m.version))
unfolding yank
resolve-yank input r m =
    yanked_record-resolve input r m (parse_pack_spec input) (find_record input r) refl refl
