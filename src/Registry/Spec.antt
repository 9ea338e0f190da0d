-- ===== src/Registry/Spec.antt =====
-- packages/agents/src/registry/spec.ts. A manifest comes as JSON; a property that is `undefined` is absent.
pub mod Valid
use Prim.Native.Char.{code}
use Prim.Native.String
use knolo_agents.Base.{
  ℕ, String, Bool, true, false, not, ◌&&◌, ◌||◌, Option, none, some, leb, eqb, Result, ok, err,
  ◌>>=◌, ◌>>◌, require, ◌==◌, if◌then◌else◌, ◌≡◌, refl,
}
use knolo_agents.Base.Text.{◌^^◌, trim}
use knolo_agents.Contracts.Values.{Json, null, bool, number, string, array, object, Fields, lookup}
use knolo_agents.Dependencies.Root.{is_sha256}
use knolo_agents.Recovery.Policy.{safe_natural}
use knolo_agents.Registry.Types.{
  PackFormat, PackManifest, PackSpec, RegistryError, spec_incomplete, spec_invalid,
  manifest_not_object, name_missing, name_mismatch, version_missing, version_mismatch,
  digest_invalid, url_missing, size_invalid, state_root_not_text, license_not_text, yanked_not_flag,
  format_unknown,
}

-- A spec as text, or taken apart.
pub data SpecInput : Type 0 where
  text : (value : String) → SpecInput
  parts : (spec : PackSpec) → SpecInput

-- [a-z0-9-]
is_slug_code : ℕ → Bool
is_slug_code c = (leb b'a' c && leb c b'z') || (leb b'0' c && leb c b'9') || eqb c b'-'

-- The longest run of such characters, and what follows it.
slug_run : String → String × String
unfolding is_slug_code
slug_run String.[] = ("", "")
slug_run (String.◌∷◌ c s) =
    let (run, rest) = slug_run s in
    if is_slug_code (code c) then (String.◌∷◌ c run, rest) else ("", String.◌∷◌ c s)

-- [^@]*$
without_at : String → Bool
without_at String.[] = true
without_at (String.◌∷◌ c s) = not (eqb (code c) b'@') && without_at s

-- (?:@(?<version>[^@]+))?$
version_at : String → Option String
unfolding without_at
version_at String.[] = some "latest"
version_at (String.◌∷◌ c version) =
    if eqb (code c) b'@' && (not (version == "") && without_at version) then some version else none

spec_of : String → String → Option String → Option PackSpec
spec_of publisher slug none = none
spec_of publisher slug (some version) =
    if not (slug == "")
    then some (record {
      publisher = publisher;
      slug = slug;
      version = version;
      name = publisher ^^ ("/" ^^ slug);
    })
    else none

slug_of : String → String → Option PackSpec
unfolding slug_run version_at spec_of
slug_of publisher String.[] = none
slug_of publisher (String.◌∷◌ c rest) =
    let (slug, following) = slug_run rest in
    if eqb (code c) b'/' && not (publisher == "")
    then spec_of publisher slug (version_at following)
    else none

-- PACK_SPEC.exec(value)
unfoldable pub match_spec : String → Option PackSpec
unfolding slug_run slug_of
match_spec value = let (publisher, rest) = slug_run value in slug_of publisher rest

matched : String → Option PackSpec → Result RegistryError PackSpec
matched value none = err (spec_invalid value)
matched value (some spec) = ok spec

-- a || b
abbrev pub or_text : String → String → String
or_text s default = if s == "" then default else s

unfoldable pub parse_pack_spec : SpecInput → Result RegistryError PackSpec
unfolding match_spec matched trim
parse_pack_spec (text value) = matched value (match_spec (trim value))
parse_pack_spec (parts spec) =
    require (not (spec.publisher == "") && not (spec.slug == "")) spec_incomplete
    >> ok (record spec {
      version = or_text spec.version "latest";
      name = or_text spec.name (spec.publisher ^^ ("/" ^^ spec.slug));
    })

is_text : Option Json → Bool
is_text (some (string s)) = true
is_text _ = false

unfoldable pub is_pack_manifest : Json → Bool
unfolding is_text lookup
is_pack_manifest (object o) = is_text (lookup "sha256" o) && is_text (lookup "url" o)
is_pack_manifest v = false

-- A text that the test accepts.
text_where : (String → Bool) → Option Json → RegistryError → Result RegistryError String
text_where test (some (string s)) e = if test s then ok s else err e
text_where test _ e = err e

optional_part : Option Json → RegistryError → Result RegistryError (Option String)
optional_part none e = ok none
optional_part (some (string s)) e = ok (some s)
optional_part (some v) e = err e

size_of : Option Json → Result RegistryError ℕ
unfolding safe_natural
size_of (some (number negative digits scale)) = elim (safe_natural negative digits scale) [
  | none ↦ err size_invalid
  | some n ↦ ok n
]
size_of _ = err size_invalid

unfoldable pub flag_of : Option Json → Result RegistryError Bool
flag_of none = ok false
flag_of (some (bool b)) = ok b
flag_of (some v) = err yanked_not_flag

format_named : String → Result RegistryError (Option PackFormat)
format_named s =
    if s == "V4"
    then ok (some PackFormat.v4)
    else if s == "V5"
    then ok (some PackFormat.v5)
    else err format_unknown

format_of : Option Json → Result RegistryError (Option PackFormat)
unfolding format_named
format_of none = ok none
format_of (some (string s)) = format_named s
format_of (some v) = err format_unknown

-- What a manifest is asked to be: `expected?.name`, `expected?.version`.
pub record Expected : Type 0 where
  pub name : Option String
  pub version : Option String

unfoldable pub nothing_expected : Expected
nothing_expected = record { name = none; version = none }

unfoldable pub name_agrees : Option String → String → Bool
name_agrees none name = true
name_agrees (some expected) name = expected == "" || name == expected

unfoldable pub version_agrees : Option String → String → Bool
version_agrees none version = true
version_agrees (some expected) version =
    expected == "" || expected == "latest" || version == expected

non_empty : String → Bool
non_empty s = not (s == "")

any_text : String → Bool
any_text s = true

validated_rest : String → String → String → String → Fields → Result RegistryError PackManifest
unfolding size_of optional_part flag_of format_of lookup
validated_rest name version sha256 url o = size_of (lookup "sizeBytes" o) >>= (λ size.
    optional_part (lookup "stateRoot" o) state_root_not_text >>= (λ state_root.
      optional_part (lookup "license" o) license_not_text >>= (λ license.
        flag_of (lookup "yanked" o) >>= (λ yanked. format_of (lookup "format" o) >>= (λ format.
          ok (record {
            name = name;
            version = version;
            sha256 = sha256;
            state_root = state_root;
            url = url;
            license = license;
            size_bytes = size;
            yanked = yanked;
            format = format;
          }))))))

unfoldable pub validate_pack_manifest : Json → Expected → Result RegistryError PackManifest
unfolding text_where validated_rest name_agrees version_agrees lookup is_sha256 non_empty any_text
validate_pack_manifest (object o) expected =
    text_where non_empty (lookup "name" o) name_missing >>= (λ name.
      require (name_agrees expected.name name) (name_mismatch name)
      >> (text_where non_empty (lookup "version" o) version_missing >>= (λ version.
          require (version_agrees expected.version version) (version_mismatch version)
          >> (text_where is_sha256 (lookup "sha256" o) digest_invalid >>= (λ sha256.
              text_where any_text (lookup "url" o) url_missing
              >>= (λ url. validated_rest name version sha256 url o))))))
validate_pack_manifest v expected = err manifest_not_object

parsed_spec :
    match_spec "acme/tools@1.2"
    ≡ some (record { publisher = "acme"; slug = "tools"; version = "1.2"; name = "acme/tools" })
unfolding match_spec
parsed_spec = refl

refused_spec : (match_spec "acme" ≡ none) × (match_spec "acme/tools@1@2" ≡ none)
unfolding match_spec
refused_spec = (refl, refl)
