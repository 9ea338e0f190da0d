-- ===== src/Tests/Registry.antt =====
-- A memory registry into which a pack is published, pulled and yanked.
use knolo_agents.Base.{ℕ, String, false, true, ◌≡◌, refl, inr, none, List, [], ◌∷◌, ok, err}
use knolo_agents.Base.Sort.{text_le}
use knolo_agents.Contracts.Values.{string, number, object, Fields, end, field}
use knolo_agents.Dependencies.Lockfile.{assert_lockfile_pin}
use knolo_agents.Registry.Types.{
  PackManifest, PackSpec, PackBytes, PackPublishInput, is_yanked, spec_invalid,
}
use knolo_agents.Registry.Cache.{empty_cache}
use knolo_agents.Registry.Spec.{text, parse_pack_spec, validate_pack_manifest, nothing_expected}
use knolo_agents.Registry.Spec.Valid.{IsRead, validate_pack_manifest-IsRead}
use knolo_agents.Registry.Memory.{MemoryPackRegistry, pull_spec, pull, resolve}
use knolo_agents.Registry.Memory.Verified.{IsPulled, pull-IsPulled}
use knolo_agents.Registry.Publish.{publish, yank, search}
use knolo_agents.Registry.Publish.Pulled.{pull-publish}
use knolo_agents.Registry.Publish.Yanked.{resolve-yank}

abbrev sum_text : String
sum_text = "00112233445566778899aabbccddeeff00112233445566778899aabbccddeeff"

-- A digest that every list of bytes has.
abbrev one_digest : List ℕ → String
one_digest bytes = sum_text

abbrev law_fields : Fields
law_fields = field "name" (string "acme/law") (
    field "version" (string "1.0.0") (
      field "sha256" (string "")
        (field "url" (string "") (field "sizeBytes" (number false 2 0) end))))

abbrev law_input : PackPublishInput
law_input = record { manifest = law_fields; bytes = 7 ∷ 8 ∷ []; description = none }

abbrev no_packs_yet : MemoryPackRegistry
no_packs_yet = record {
  origin = "memory://packs";
  cache = empty_cache;
  force = false;
  lockfile = none;
  records = [];
  latest = [];
}

abbrev law_manifest : PackManifest
law_manifest = record {
  name = "acme/law";
  version = "1.0.0";
  sha256 = sum_text;
  state_root = none;
  url = "";
  license = none;
  size_bytes = 2;
  yanked = false;
  format = none;
}

abbrev law_spec : PackSpec
law_spec = record { publisher = "acme"; slug = "law"; version = "latest"; name = "acme/law" }

abbrev with_law : MemoryPackRegistry
with_law = (publish one_digest law_input no_packs_yet).0

published_law : (publish one_digest law_input no_packs_yet).1 ≡ ok law_manifest
unfolding publish validate_pack_manifest nothing_expected
published_law = refl

parsed_law : parse_pack_spec (text "acme/law") ≡ ok law_spec
unfolding parse_pack_spec
parsed_law = refl

pull-publish_example :
    (pull one_digest (pull_spec (text "acme/law")) with_law).1
    ≡ ok (record { manifest = law_manifest; bytes = 7 ∷ 8 ∷ [] })
unfolding assert_lockfile_pin
pull-publish_example =
    pull-publish one_digest law_input no_packs_yet law_manifest (text "acme/law") law_spec
      published_law parsed_law (refl, inr refl) refl

abbrev law_bytes : PackBytes
law_bytes = record { manifest = law_manifest; bytes = 7 ∷ 8 ∷ [] }

pulled_law : (pull one_digest (pull_spec (text "acme/law")) with_law).1 ≡ ok law_bytes
unfolding assert_lockfile_pin
pulled_law =
    pull-publish one_digest law_input no_packs_yet law_manifest (text "acme/law") law_spec
      published_law parsed_law (refl, inr refl) refl

pull-IsPulled_example :
    IsPulled one_digest
      (pull_spec (text "acme/law"))
      with_law
      (pull one_digest (pull_spec (text "acme/law")) with_law)
      law_bytes
pull-IsPulled_example =
    pull-IsPulled one_digest (pull_spec (text "acme/law")) with_law law_bytes pulled_law

abbrev yanked_law : PackManifest
yanked_law = record law_manifest { yanked = true }

law_yanks : (yank (text "acme/law") with_law).1 ≡ ok yanked_law
unfolding yank publish validate_pack_manifest nothing_expected
law_yanks = refl

abbrev after_yank : MemoryPackRegistry
after_yank = (yank (text "acme/law") with_law).0

resolve-yank_example :
    resolve (text "acme/law") after_yank ≡ (after_yank, err (is_yanked "acme/law" "1.0.0"))
unfolding publish validate_pack_manifest nothing_expected
resolve-yank_example = resolve-yank (text "acme/law") with_law yanked_law refl law_yanks

abbrev read_fields : Fields
read_fields = field "name" (string "acme/law") (
    field "version" (string "1.0.0") (
      field "sha256" (string sum_text)
        (field "url" (string "") (field "sizeBytes" (number false 2 0) end))))

law_is_read : validate_pack_manifest (object read_fields) nothing_expected ≡ ok law_manifest
unfolding validate_pack_manifest nothing_expected
law_is_read = refl

validate_pack_manifest-IsRead_example : IsRead read_fields nothing_expected law_manifest
validate_pack_manifest-IsRead_example =
    validate_pack_manifest-IsRead read_fields nothing_expected law_manifest law_is_read

-- A name without a publisher is taken, and this search throws after that.
abbrev nameless_fields : Fields
nameless_fields = field "name" (string "law") (
    field "version" (string "1") (
      field "sha256" (string sum_text)
        (field "url" (string "") (field "sizeBytes" (number false 2 0) end))))

search_throws :
    search text_le
      (λ s. s)
      (record { q = none; license = none })
      (publish one_digest
        (record { manifest = nameless_fields; bytes = []; description = none })
        no_packs_yet).0
    ≡ err (spec_invalid "law")
unfolding search publish validate_pack_manifest nothing_expected
search_throws = refl
