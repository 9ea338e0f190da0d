-- ===== src/Registry/Spec/Valid.antt =====
-- What a manifest that is accepted has.
use mathlib.Core.Path.{subst}
use knolo_agents.Base.{
  String, Bool, true, false, Option, none, some, ok, require, >>=-eq-ok, >>-eq-ok, require-eq-ok,
  Bool-cases, ◌==◌, ◌≡◌, ◌≢◌, ◌⊎◌, ◌∙◌, sym, refl, eq_iff, ap, inl, inr, arith,
}
use knolo_agents.Contracts.Values.{Json, null, bool, number, string, array, object, Fields, lookup}
use knolo_agents.Dependencies.Root.{is_sha256}
use knolo_agents.Registry.Types.{
  PackManifest, RegistryError, name_missing, name_mismatch, version_missing, version_mismatch,
  digest_invalid, url_missing, license_not_text, state_root_not_text,
}
use knolo_agents.Registry.Spec.{
  Expected, text_where, optional_part, size_of, flag_of, format_of, name_agrees, version_agrees,
  non_empty, any_text, validated_rest, validate_pack_manifest,
}

-- A manifest as it was read.
pub record IsRead (o : Fields) (expected : Expected) (m : PackManifest) : Type 0 where
  pub reads_name : lookup "name" o ≡ some (string m.name)
  pub has_name : (m.name == "") ≡ false
  pub agrees_name : (n : String) → expected.name ≡ some n → n ≢ "" → m.name ≡ n
  pub reads_version : lookup "version" o ≡ some (string m.version)
  pub has_version : (m.version == "") ≡ false
  pub agrees_version :
      (v : String) → expected.version ≡ some v → v ≢ "" → v ≢ "latest" → m.version ≡ v
  pub reads_digest : lookup "sha256" o ≡ some (string m.sha256)
  pub has_digest : is_sha256 m.sha256 ≡ true
  pub reads_url : lookup "url" o ≡ some (string m.url)
  pub reads_yanked :
      ((lookup "yanked" o ≡ none) × (m.yanked ≡ false)) ⊎ (lookup "yanked" o ≡ some (bool m.yanked))

text_where-eq-ok :
    (test : String → Bool) (v : Option Json) (e : RegistryError) (s : String)
    → text_where test v e ≡ ok s
    → (v ≡ some (string s)) × (test s ≡ true)
unfolding text_where
text_where-eq-ok test (some (string t)) e s h = elim (Bool-cases (test t)) [
  | inl y ↦
      let same : t ≡ s = cc (rw (y, text_where) at h) in
      (ap (λ x. some (string x)) same, subst (λ x. test x ≡ true) same y)
  | inr n ↦ cc (rw (n, text_where) at h)
]
text_where-eq-ok test none e s h = cc
text_where-eq-ok test (some null) e s h = cc
text_where-eq-ok test (some (bool b)) e s h = cc
text_where-eq-ok test (some (number n d k)) e s h = cc
text_where-eq-ok test (some (array xs)) e s h = cc
text_where-eq-ok test (some (object o)) e s h = cc

is_not-empty : (s : String) → non_empty s ≡ true → (s == "") ≡ false
unfolding non_empty
is_not-empty s h = ground arith

-- A name that is expected, and is not empty, is the name.
name_agrees-eq :
    (expected : Option String) (name : String)
    → name_agrees expected name ≡ true
    → (n : String) → expected ≡ some n
    → n ≢ ""
    → name ≡ n
unfolding name_agrees
name_agrees-eq none name h n e nonempty = cc e
name_agrees-eq (some x) name h n e nonempty =
    let same : x ≡ n = cc e in
    elim (Bool-cases (x == "")) [
      | inl blank ↦ absurd (nonempty (sym same ∙ (eq_iff x "").0 blank))
      | inr full ↦ (eq_iff name x).0 (rw (full, name_agrees) at h) ∙ same
    ]

-- A version that is expected, and is neither empty nor "latest", is the version.
version_agrees-eq :
    (expected : Option String) (version : String)
    → version_agrees expected version ≡ true
    → (v : String) → expected ≡ some v
    → v ≢ ""
    → v ≢ "latest"
    → version ≡ v
unfolding version_agrees
version_agrees-eq none version h v e nonempty exact = cc e
version_agrees-eq (some x) version h v e nonempty exact =
    let same : x ≡ v = cc e in
    elim (Bool-cases (x == "")) [
      | inl blank ↦ absurd (nonempty (sym same ∙ (eq_iff x "").0 blank))
      | inr full ↦ elim (Bool-cases (x == "latest")) [
        | inl last ↦ absurd (exact (sym same ∙ (eq_iff x "latest").0 last))
        | inr pinned ↦ (eq_iff version x).0 (rw (full, pinned, version_agrees) at h) ∙ same
      ]
    ]

-- A flag is what was written, or false where nothing was.
flag_of-eq :
    (v : Option Json) (b : Bool)
    → flag_of v ≡ ok b
    → ((v ≡ none) × (b ≡ false)) ⊎ (v ≡ some (bool b))
unfolding flag_of
flag_of-eq none b h = inl (refl, cc)
flag_of-eq (some (bool c)) b h = inr (cc h)
flag_of-eq (some null) b h = cc
flag_of-eq (some (string s)) b h = cc
flag_of-eq (some (number n d k)) b h = cc
flag_of-eq (some (array xs)) b h = cc
flag_of-eq (some (object o)) b h = cc

-- The parts that the last checks leave as they are.
validated_rest-parts :
    (name version sha256 url : String) (o : Fields) (m : PackManifest)
    → validated_rest name version sha256 url o ≡ ok m
    → (name ≡ m.name)
      × (version ≡ m.version)
      × (sha256 ≡ m.sha256)
      × (url ≡ m.url)
      × (flag_of (lookup "yanked" o) ≡ ok m.yanked)
unfolding validated_rest
validated_rest-parts name version sha256 url o m h =
    let (size, s, h1) = >>=-eq-ok (size_of (lookup "sizeBytes" o)) _ h in
    let (root, r, h2) = >>=-eq-ok (optional_part (lookup "stateRoot" o) state_root_not_text) _ h1 in
    let (license, l, h3) = >>=-eq-ok (optional_part (lookup "license" o) license_not_text) _ h2 in
    let (yanked, y, h4) = >>=-eq-ok (flag_of (lookup "yanked" o)) _ h3 in
    let (format, f, h5) = >>=-eq-ok (format_of (lookup "format" o)) _ h4 in
    let built : PackManifest = record {
      name = name;
      version = version;
      sha256 = sha256;
      state_root = root;
      url = url;
      license = license;
      size_bytes = size;
      yanked = yanked;
      format = format;
    } in
    let same : built ≡ m = cc h5 in
    (
      ap (λ (x : PackManifest). x.name) same,
      ap (λ (x : PackManifest). x.version) same,
      ap (λ (x : PackManifest). x.sha256) same,
      ap (λ (x : PackManifest). x.url) same,
      subst (λ (x : PackManifest). flag_of (lookup "yanked" o) ≡ ok x.yanked) same y,
    )

-- A manifest that is accepted has the name, the version, the digest and the URL of the object that was
-- read, and its flag, false where it has none; the name and the version are not empty; the name is the
-- one expected, where one is and is not empty; the version is the one expected, where one is and is
-- neither empty nor "latest"; the digest is 64 lower-case hexadecimal digits.
pub validate_pack_manifest-IsRead :
    (o : Fields) (expected : Expected) (m : PackManifest)
    → validate_pack_manifest (object o) expected ≡ ok m
    → IsRead o expected m
unfolding validate_pack_manifest
validate_pack_manifest-IsRead o expected m h =
    let (name, n, h1) = >>=-eq-ok (text_where non_empty (lookup "name" o) name_missing) _ h in
    let (a, h2) = >>-eq-ok (require (name_agrees expected.name name) (name_mismatch name)) _ h1 in
    let (version, v, h3) =
      >>=-eq-ok (text_where non_empty (lookup "version" o) version_missing) _ h2 in
    let (b, h4) =
      >>-eq-ok (require (version_agrees expected.version version) (version_mismatch version)) _
        h3 in
    let (sha256, d, h5) =
      >>=-eq-ok (text_where is_sha256 (lookup "sha256" o) digest_invalid) _ h4 in
    let (url, u, h6) = >>=-eq-ok (text_where any_text (lookup "url" o) url_missing) _ h5 in
    let (n1, v1, d1, u1, y1) = validated_rest-parts name version sha256 url o m h6 in
    let (n2, n3) = text_where-eq-ok non_empty (lookup "name" o) name_missing name n in
    let (v2, v3) = text_where-eq-ok non_empty (lookup "version" o) version_missing version v in
    let (d2, d3) = text_where-eq-ok is_sha256 (lookup "sha256" o) digest_invalid sha256 d in
    let (u2, u3) = text_where-eq-ok any_text (lookup "url" o) url_missing url u in
    record {
      reads_name = subst (λ x. lookup "name" o ≡ some (string x)) n1 n2;
      has_name = subst (λ x. (x == "") ≡ false) n1 (is_not-empty name n3);
      agrees_name = λ x e n. sym n1 ∙ name_agrees-eq expected.name name (require-eq-ok _ _ a) x e n;
      reads_version = subst (λ x. lookup "version" o ≡ some (string x)) v1 v2;
      has_version = subst (λ x. (x == "") ≡ false) v1 (is_not-empty version v3);
      agrees_version = λ x e n l.
          sym v1 ∙ version_agrees-eq expected.version version (require-eq-ok _ _ b) x e n l;
      reads_digest = subst (λ x. lookup "sha256" o ≡ some (string x)) d1 d2;
      has_digest = subst (λ x. is_sha256 x ≡ true) d1 d3;
      reads_url = subst (λ x. lookup "url" o ≡ some (string x)) u1 u2;
      reads_yanked = flag_of-eq (lookup "yanked" o) m.yanked y1;
    }
