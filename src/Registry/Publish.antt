-- ===== src/Registry/Publish.antt =====
-- packages/agents/src/registry/fake.ts: search, publish and yank.
pub mod Yanked
pub mod Pulled
use knolo_agents.Base.{
  ℕ, String, Bool, true, false, not, ◌&&◌, ◌||◌, Option, none, some, List, [], ◌∷◌, ◌++◌, Result,
  ok, err, ◌>>=◌, ◌>>◌, ◌==◌, if◌then◌else◌,
}
use knolo_agents.Base.Dict.{Dict, get_key, put_key}
use knolo_agents.Base.Sort.{sort_by}
use knolo_agents.Base.Text.{◌^^◌, trim, text_includes}
use knolo_agents.Builder.{or_default}
use knolo_agents.Contracts.Values.{Json, bool, string, object, Fields, lookup, put}
use knolo_agents.Dependencies.Root.{nonempty}
use knolo_agents.Recovery.Policy.{truthy}
use knolo_agents.Registry.Types.{
  PackManifest, PackSpec, PackSearchQuery, PackSearchHit, PackPublishInput, RegistryError,
}
use knolo_agents.Registry.Cache.{set_manifest, manifest_key}
use knolo_agents.Registry.Spec.{
  SpecInput, text, parse_pack_spec, validate_pack_manifest, nothing_expected,
}
use knolo_agents.Registry.Memory.{
  MemoryPackRecord, MemoryPackRegistry, Done, store, version_of, find_record, check_digest,
}

other_license : (wanted license : Option String) → Bool
unfolding text_includes
other_license (some wanted) (some license) = not (text_includes license wanted)
other_license _ _ = false

-- Whether a record is passed over by the search.
passed_over :
    (String → String) → String → PackSearchQuery → PackSpec → Bool → MemoryPackRecord → Bool
unfolding text_includes nonempty other_license
passed_over lower needle query spec force found =
    let hay = lower (
      found.manifest.name
      ^^ (" " ^^ (spec.publisher ^^ (" " ^^ or_default found.description "")))) in
    (not (needle == "") && not (text_includes hay needle))
    || (other_license (nonempty query.license) (nonempty found.manifest.license)
        || (found.manifest.yanked && not force))

hit_of : PackSpec → MemoryPackRecord → PackSearchHit
unfolding nonempty
hit_of spec found = record {
  name = found.manifest.name;
  publisher = spec.publisher;
  slug = spec.slug;
  version = found.manifest.version;
  sha256 = found.manifest.sha256;
  state_root = nonempty found.manifest.state_root;
  license = nonempty found.manifest.license;
  description = nonempty found.description;
  yanked = found.manifest.yanked;
}

-- The turn of the loop for an entry of `latest`.
hits_at :
    (String → String)
    → String
    → PackSearchQuery
    → String
    → Option MemoryPackRecord
    → Bool
    → Result RegistryError (List PackSearchHit)
unfolding parse_pack_spec passed_over hit_of
hits_at lower needle query name none force = ok []
hits_at lower needle query name (some found) force = parse_pack_spec (text name) >>= (λ spec.
    ok (if passed_over lower needle query spec force found then [] else hit_of spec found ∷ []))

search_entries :
    (String → String)
    → String
    → PackSearchQuery
    → Dict String
    → MemoryPackRegistry
    → Result RegistryError (List PackSearchHit)
unfolding hits_at get_key
search_entries lower needle query [] r = ok []
search_entries lower needle query ((name, version) ∷ entries) r =
    let found = get_key (manifest_key name version) r.records in
    hits_at lower needle query name found r.force
    >>= (λ hits. search_entries lower needle query entries r >>= (λ others. ok (hits ++ others)))

needle_of : (String → String) → Option String → String
unfolding trim
needle_of lower none = ""
needle_of lower (some q) = trim (lower q)

unfoldable pub search :
    (String → String → Bool)
    → (String → String)
    → PackSearchQuery
    → MemoryPackRegistry
    → Result RegistryError (List PackSearchHit)
unfolding search_entries sort_by needle_of
search locale_le lower query r =
    search_entries lower (needle_of lower query.q) query
      (sort_by (λ (left : String × String) (right : String × String). locale_le left.0 right.0)
        r.latest)
      r

-- input.manifest.sha256 || digest
given_digest : Option Json → String → Json
unfolding truthy
given_digest none computed = string computed
given_digest (some v) computed = if truthy v then v else string computed

-- { ...input.manifest, sha256: input.manifest.sha256 || digest, yanked: false }
unfoldable pub published_fields : Fields → String → Fields
unfolding put lookup given_digest
published_fields fields computed =
    put "yanked" (bool false) (put "sha256" (given_digest (lookup "sha256" fields) computed) fields)

module _ (digest : List ℕ → String) where
  unfoldable pub released :
      PackPublishInput
      → PackManifest
      → Result RegistryError (Unit {0})
      → MemoryPackRegistry
      → Done PackManifest
  unfolding store
  released input m (err e) r = (r, err e)
  released input m (ok u) r = (store m input.bytes input.description r, ok m)

  unfoldable pub published :
      PackPublishInput → MemoryPackRegistry → Result RegistryError PackManifest → Done PackManifest
  unfolding released check_digest
  published input r (err e) = (r, err e)
  published input r (ok m) = released input m (check_digest digest m input.bytes) r

  unfoldable pub publish : PackPublishInput → MemoryPackRegistry → Done PackManifest
  unfolding published validate_pack_manifest published_fields
  publish input r = published input r (
      validate_pack_manifest (object (published_fields input.manifest (digest input.bytes)))
        nothing_expected)

-- The record with its manifest marked, and the cache told.
marked : String → MemoryPackRecord → MemoryPackRegistry → Done PackManifest
unfolding put_key set_manifest
marked key found r =
    let manifest : PackManifest = record found.manifest { yanked = true } in
    (
      record r {
        records = put_key key (record found { manifest = manifest }) r.records;
        cache = set_manifest manifest r.cache;
      },
      ok manifest,
    )

-- records.set(key(parsed.name, version), ...)
unfoldable pub key_of : PackSpec → MemoryPackRegistry → String
unfolding version_of
key_of spec r = manifest_key spec.name (or_default (version_of spec r) "")

yanked_record :
    Result RegistryError PackSpec
    → Result RegistryError MemoryPackRecord
    → MemoryPackRegistry
    → Done PackManifest
unfolding marked key_of
yanked_record (ok spec) (ok found) r = marked (key_of spec r) found r
yanked_record (err e) found r = (r, err e)
yanked_record (ok spec) (err e) r = (r, err e)

unfoldable pub yank : SpecInput → MemoryPackRegistry → Done PackManifest
unfolding yanked_record parse_pack_spec find_record
yank spec r = yanked_record (parse_pack_spec spec) (find_record spec r) r
