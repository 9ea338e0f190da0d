-- ===== src/Skills/Acquire/Staged.antt =====
-- What a turn of the acquisition's loop stages.
use mathlib.Core.Path.{subst}
use knolo_agents.Base.{
  ℕ, ◌+◌, ◌≤◌, String, Bool, true, false, not, ◌&&◌, Option, none, some, List, [], ◌∷◌, length,
  length-append, leb, Result, ok, err, >>-eq-ok, require, ◌≡◌, refl, ap, inl, inr, arith,
  Bool-cases, Has, snoc-Has, In, includes, ◌⊎◌, sym,
}
use knolo_agents.Base.Text.{◌^^◌}
use knolo_agents.Builder.{or_default}
use knolo_agents.Capabilities.Index.{CapabilityMetadata}
use knolo_agents.Dependencies.Activation.{DependencyActivation, stage}
use knolo_agents.Dependencies.Root.{
  PackDependency, normalize_pack_dependency, is_blank, is_sha256, nonempty,
}
use knolo_agents.Harness.Types.{
  HarnessError, dependency_name_missing, dependency_version_missing, dependency_digest_invalid,
}
use knolo_agents.Registry.Types.{PackSearchHit}
use knolo_agents.Skills.Types.{
  RegistryMode, SkillAcquisitionDecision, SkillAcquisitionStaged, SkillDefinitionInput,
}
use knolo_agents.Skills.Hits.{
  allowlisted, is_approved_mode, is_discover_mode, is_empty, hit_manifest,
  pack_dependency_from_manifest, covering_skills,
}
use knolo_agents.Skills.Acquire.{
  AcquireSkillsInput, Acquiring, RankedHit, is_held, max_pulls, note, skip, staged_with, staged_by,
  stage_dependency, stage_usable, inspected, pulled_bytes, pulled_at, pull_hit, consider, repeats,
}

normalized-names :
    (given d : PackDependency)
    → normalize_pack_dependency given ≡ ok d
    → (given.name ≡ d.name) × (given.version ≡ d.version) × (given.sha256 ≡ d.sha256)
unfolding normalize_pack_dependency
normalized-names given d h =
    let (a, h1) = >>-eq-ok (require (not (is_blank given.name)) dependency_name_missing) _ h in
    let (b, h2) =
      >>-eq-ok (require (not (is_blank given.version)) (dependency_version_missing given.name)) _
        h1 in
    let (c, h3) =
      >>-eq-ok (require (is_sha256 given.sha256) (dependency_digest_invalid given.name)) _ h2 in
    let made : PackDependency = record given { state_root = nonempty given.state_root } in
    let same : made ≡ d = cc h3 in
    (
      ap (λ (x : PackDependency). x.name) same,
      ap (λ (x : PackDependency). x.version) same,
      ap (λ (x : PackDependency). x.sha256) same,
    )

module _ (input : AcquireSkillsInput) where
  -- A hit that a search of the registry returns.
  abbrev pub IsFound : PackSearchHit → Type 0
  IsFound hit =
      (q : String) × (hits : List PackSearchHit) × (input.search q ≡ ok hits) × Has hit hits

  -- A hit that may be pulled: found, not yanked, and on the allowlist where that is asked for.
  abbrev pub IsAllowedHit : PackSearchHit → Type 0
  IsAllowedHit hit =
      IsFound hit
      × (hit.yanked ≡ false)
      × (input.trust.registry ≡ RegistryMode.acquire_approved
          → In hit.name (or_default input.trust.allowlist [])
            ⊎ In (hit.name ^^ ("@" ^^ hit.version)) (or_default input.trust.allowlist []))

  allowlisted-In :
      (hit : PackSearchHit)
      → (is_approved_mode input.trust.registry
          && not (allowlisted hit.name hit.version (or_default input.trust.allowlist [])))
        ≡ false
      → input.trust.registry ≡ RegistryMode.acquire_approved
      → In hit.name (or_default input.trust.allowlist [])
        ⊎ In (hit.name ^^ ("@" ^^ hit.version)) (or_default input.trust.allowlist [])
  unfolding allowlisted
  allowlisted-In hit h approved =
      let mode : is_approved_mode input.trust.registry ≡ true =
        subst (λ m. is_approved_mode m ≡ true) (sym approved) refl in
      elim (Bool-cases (includes (or_default input.trust.allowlist []) hit.name)) [
        | inl y ↦ inl y
        | inr n ↦ inr (ground arith)
      ]

  -- A pack is staged for a hit that may be pulled.
  abbrev pub IsOfHit : SkillAcquisitionStaged → Type 0
  IsOfHit s =
      (hit : PackSearchHit) × IsAllowedHit hit
      × (hit.name ≡ s.name)
      × (hit.version ≡ s.version)
      × (hit.sha256 ≡ s.sha256)

  pub record IsStaged (st : Acquiring) : Type 0 where
    pub bounded : st.pulls ≤ max_pulls
    pub pulled_first : length st.staged ≤ st.pulls
    pub with_packs : length st.packs ≡ length st.staged
    pub of_hits : (s : SkillAcquisitionStaged) → Has s st.staged → IsOfHit s

  note-IsStaged :
      (item : RankedHit) (decision : SkillAcquisitionDecision) (reason : Option String)
      (st : Acquiring)
      → IsStaged st
      → IsStaged (note item decision reason st).0
  unfolding note
  note-IsStaged item decision reason st h = record {
    bounded = h.bounded;
    pulled_first = h.pulled_first;
    with_packs = h.with_packs;
    of_hits = h.of_hits;
  }

  skip-IsStaged :
      (item : RankedHit) (reason : String) (st : Acquiring)
      → IsStaged st
      → IsStaged (skip item reason st).0
  skip-IsStaged item reason st h =
      note-IsStaged item SkillAcquisitionDecision.skipped (some reason) st h

  module _ (lower : String → String) (per_million : ℕ → ℕ → ℕ) (locale_le : String → String → Bool)
      (root_text : List PackDependency → String) where
    staged_by-IsStaged :
        (item : RankedHit) (d : PackDependency) (metadata : CapabilityMetadata)
        (usable : List SkillDefinitionInput) (st : Acquiring)
        (t : DependencyActivation × Option HarnessError)
        → IsOfHit (record { name = d.name; version = d.version; sha256 = d.sha256 })
        → length st.staged + 1 ≤ st.pulls
        → IsStaged st
        → IsStaged
            (staged_by lower per_million locale_le root_text input item d metadata usable st t).0
    unfolding staged_by staged_with note
    staged_by-IsStaged item d metadata usable st (activation, some e) o room h = record {
      bounded = h.bounded;
      pulled_first = h.pulled_first;
      with_packs = h.with_packs;
      of_hits = h.of_hits;
    }
    staged_by-IsStaged item d metadata usable st (activation, none) o room h =
        let fresh : SkillAcquisitionStaged = record {
          name = d.name;
          version = d.version;
          sha256 = d.sha256;
        } in
        record {
          bounded = h.bounded;
          pulled_first = omega (arith, length-append st.staged (fresh ∷ []), room);
          with_packs = omega (
            arith,
            length-append st.staged (fresh ∷ []),
            length-append st.packs (metadata ∷ []),
            h.with_packs,
          );
          of_hits = λ s m. elim (snoc-Has fresh st.staged s m) [
            | inl old ↦ h.of_hits s old
            | inr same ↦ subst IsOfHit same o
          ];
        }

    stage_dependency-IsStaged :
        (item : RankedHit) (d : Result HarnessError PackDependency) (metadata : CapabilityMetadata)
        (usable : List SkillDefinitionInput) (st : Acquiring)
        → pack_dependency_from_manifest (hit_manifest item.hit) ≡ d
        → IsAllowedHit item.hit
        → length st.staged + 1 ≤ st.pulls
        → IsStaged st
        → IsStaged
            (stage_dependency lower per_million locale_le root_text input item d metadata usable
              st).0
    unfolding stage_dependency pack_dependency_from_manifest hit_manifest
    stage_dependency-IsStaged item (err e) metadata usable st q a room h = h
    stage_dependency-IsStaged item (ok d) metadata usable st q a room h =
        let (name, version, sha256) = normalized-names (hit_manifest item.hit) d q in
        staged_by-IsStaged item d metadata usable st (stage locale_le root_text d st.activation)
          (item.hit, a, name, version, sha256) room h

    stage_usable-IsStaged :
        (item : RankedHit) (metadata : CapabilityMetadata) (usable : List SkillDefinitionInput)
        (st : Acquiring)
        → IsAllowedHit item.hit
        → length st.staged + 1 ≤ st.pulls
        → IsStaged st
        → IsStaged
            (stage_usable lower per_million locale_le root_text input item metadata usable st).0
    unfolding stage_usable
    stage_usable-IsStaged item metadata usable st a room h = elim (Bool-cases (is_empty usable)) [
      | inl e ↦ rw e (skip-IsStaged item "authority" st h)
      | inr n ↦ elim (Bool-cases (repeats input.index st.packs usable)) [
        | inl r ↦ rw (n, r) (skip-IsStaged item "duplicate" st h)
        | inr s ↦ rw (n, s) (stage_dependency-IsStaged item _ metadata usable st refl a room h)
      ]
    ]

    inspected-IsStaged :
        (item : RankedHit) (metadata : Option CapabilityMetadata) (st : Acquiring)
        → IsAllowedHit item.hit
        → length st.staged + 1 ≤ st.pulls
        → IsStaged st
        → IsStaged (inspected lower per_million locale_le root_text input item metadata st).0
    unfolding inspected
    inspected-IsStaged item none st a room h = skip-IsStaged item "unreadable" st h
    inspected-IsStaged item (some metadata) st a room h =
        elim (Bool-cases
          (is_empty (covering_skills metadata.skills st.remaining_gaps st.remaining_pins))) [
            | inl e ↦ rw e (skip-IsStaged item "no_cover" st h)
            | inr n ↦ rw n (stage_usable-IsStaged item metadata _ st a room h)
          ]

    pulled_bytes-IsStaged :
        (item : RankedHit) (bytes : Result String (List ℕ)) (st : Acquiring)
        → IsAllowedHit item.hit
        → length st.staged + 1 ≤ st.pulls
        → IsStaged st
        → IsStaged (pulled_bytes lower per_million locale_le root_text input item bytes st).0
    unfolding pulled_bytes
    pulled_bytes-IsStaged item (err message) st a room h = skip-IsStaged item message st h
    pulled_bytes-IsStaged item (ok bytes) st a room h =
        inspected-IsStaged item (input.inspect bytes item.hit) (record st { pulled = true }) a room
          (record {
            bounded = h.bounded;
            pulled_first = h.pulled_first;
            with_packs = h.with_packs;
            of_hits = h.of_hits;
          })

    pulled_at-IsStaged :
        (item : RankedHit) (pulled : DependencyActivation × Result String (List ℕ)) (st : Acquiring)
        → IsAllowedHit item.hit
        → leb max_pulls st.pulls ≡ false
        → IsStaged st
        → IsStaged (pulled_at lower per_million locale_le root_text input item pulled st).0
    unfolding pulled_at
    pulled_at-IsStaged item (activation, bytes) st a few h =
        pulled_bytes-IsStaged item bytes
          (record st { pulls = st.pulls + 1; activation = activation }) a
          (omega (arith, h.pulled_first))
          (record {
            bounded = ground arith;
            pulled_first = omega (arith, h.pulled_first);
            with_packs = h.with_packs;
            of_hits = h.of_hits;
          })

    pull_hit-IsStaged :
        (item : RankedHit) (st : Acquiring)
        → IsAllowedHit item.hit
        → leb max_pulls st.pulls ≡ false
        → IsStaged st
        → IsStaged (pull_hit lower per_million locale_le root_text input item st).0
    unfolding pull_hit
    pull_hit-IsStaged item st a few h = pulled_at-IsStaged item _ st a few h

    pub consider-IsStaged :
        (item : RankedHit) (st : Acquiring)
        → IsFound item.hit
        → IsStaged st
        → IsStaged (consider lower per_million locale_le root_text input item st).0
    unfolding consider
    consider-IsStaged item st f h =
        let approved = is_approved_mode input.trust.registry in
        let listed =
          allowlisted item.hit.name item.hit.version (or_default input.trust.allowlist []) in
        elim (Bool-cases item.hit.yanked) [
          | inl y ↦ rw y (skip-IsStaged item "yanked" st h)
          | inr current ↦ elim (Bool-cases (approved && not listed)) [
            | inl p ↦ rw (current, p) (skip-IsStaged item "policy" st h)
            | inr within ↦
                elim (Bool-cases
                  (is_held lower per_million locale_le root_text input item.hit st)) [
                    | inl d ↦ rw (current, within, d) (skip-IsStaged item "duplicate" st h)
                    | inr new ↦ elim (Bool-cases (is_discover_mode input.trust.registry)) [
                      | inl v ↦
                          rw (current, within, new, v)
                            (note-IsStaged item SkillAcquisitionDecision.discover none st h)
                      | inr pulling ↦ elim (Bool-cases (leb max_pulls st.pulls)) [
                        | inl many ↦
                            rw (current, within, new, pulling, many)
                              (skip-IsStaged item "budget" st h)
                        | inr few ↦
                            simp (current, within, new, pulling, few)
                              (pull_hit-IsStaged item st
                                (f, current, allowlisted-In item.hit within) few h)
                      ]
                    ]
                  ]
          ]
        ]
