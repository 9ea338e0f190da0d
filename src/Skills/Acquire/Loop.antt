-- ===== src/Skills/Acquire/Loop.antt =====
-- packages/agents/src/skills/acquire.ts: the ranking of the hits, the loop over them and acquireSkills.
use knolo_agents.Base.{
  ℕ, String, Bool, true, false, not, ◌&&◌, ◌||◌, none, some, List, [], ◌∷◌, ◌++◌, map, ltb, eqb,
  Result, ok, err, ◌>>=◌, if◌then◌else◌,
}
use knolo_agents.Base.Dict.{dict_values}
use knolo_agents.Base.Sort.{sort_by}
use knolo_agents.Base.Text.{join}
use knolo_agents.Builder.{or_default}
use knolo_agents.Context.Lexical.{lexical_score}
use knolo_agents.Dependencies.Activation.{DependencyActivation}
use knolo_agents.Dependencies.Root.{PackDependency}
use knolo_agents.Harness.Types.{HarnessError, allowlist_missing}
use knolo_agents.Registry.Types.{PackSearchHit}
use knolo_agents.Skills.Policy.{
  capability_gaps, empty_acquisition, missing_preferred_skills, normalize_publish,
}
use knolo_agents.Skills.Types.{SkillAcquisitionReceipt, SkillSelected}
use knolo_agents.Skills.Hits.{
  collect_from, hit_text, is_approved_mode, is_disabled_registry, is_empty, search_queries,
}
use knolo_agents.Skills.Acquire.{
  AcquireSkillsInput, AcquiredSkills, Acquiring, RankedHit, Turned, consider,
}

-- The variables before the loop.
unfoldable pub loop_start : AcquireSkillsInput → (gaps missing_skills : List String) → Acquiring
loop_start input gaps missing_skills = record {
  candidates = [];
  staged = [];
  packs = [];
  remaining_gaps = gaps;
  remaining_pins = missing_skills;
  pulls = 0;
  pulled = false;
  activation = input.activation;
}

-- What a call leaves of the activation, and what it returned or threw.
abbrev pub Acquired : Type 0
Acquired = DependencyActivation × Result HarnessError AcquiredSkills

module _ (lower : String → String) (per_million : ℕ → ℕ → ℕ) (locale_le : String → String → Bool)
    (root_text : List PackDependency → String) (input : AcquireSkillsInput) where
  pub version_le : PackSearchHit → PackSearchHit → Bool
  version_le l r =
      not (locale_le r.name l.name) || (locale_le l.name r.name && locale_le l.version r.version)

  pub hit_le : RankedHit → RankedHit → Bool
  unfolding version_le
  hit_le l r = ltb r.score l.score || (eqb r.score l.score && version_le l.hit r.hit)

  unfoldable pub collect_hits : List String → Result HarnessError (List PackSearchHit)
  unfolding collect_from dict_values sort_by version_le
  collect_hits queries =
      collect_from input.search queries [] >>= (λ d. ok (sort_by version_le (dict_values d)))

  unfoldable pub rank_hits :
      List PackSearchHit → (gaps missing_skills : List String) → List RankedHit
  unfolding sort_by hit_le lexical_score hit_text join
  rank_hits hits gaps missing_skills = sort_by hit_le (
      map
        (λ (hit : PackSearchHit). record {
          hit = hit;
          score =
              lexical_score lower per_million
                (join " " (input.task.objective ∷ (gaps ++ missing_skills))) (hit_text gaps hit);
        })
        hits)

  -- The loop: it ends where nothing remains, and where a turn throws.
  unfoldable pub consider_all : List RankedHit → Acquiring → Turned
  unfolding consider is_empty
  consider_all [] st = (st, none)
  consider_all (item ∷ items) st =
      let (following, thrown) = consider lower per_million locale_le root_text input item st in
      let rest = consider_all items following in
      if is_empty st.remaining_gaps && is_empty st.remaining_pins
      then (st, none)
      else elim thrown [ none ↦ rest | some e ↦ (following, some e) ]

  unfoldable pub receipt_of_loop :
      (gaps missing_skills : List String) → Acquiring → SkillAcquisitionReceipt
  unfolding normalize_publish
  receipt_of_loop gaps missing_skills st = record {
    version = 1;
    registry = input.trust.registry;
    publish = normalize_publish input.trust.publish;
    gaps = gaps;
    missing_skills = missing_skills;
    queried = true;
    pulled = st.pulled;
    staged = st.staged;
    candidates = st.candidates;
  }

  unfoldable pub finished_loop : (gaps missing_skills : List String) → Turned → Acquired
  unfolding receipt_of_loop
  finished_loop gaps missing_skills (st, some e) = (st.activation, err e)
  finished_loop gaps missing_skills (st, none) = (
    st.activation,
    ok (record { receipt = receipt_of_loop gaps missing_skills st; packs = st.packs }),
  )

  unfoldable pub searched :
      (gaps missing_skills : List String) → Result HarnessError (List PackSearchHit) → Acquired
  unfolding rank_hits consider_all finished_loop loop_start
  searched gaps missing_skills (err e) = (input.activation, err e)
  searched gaps missing_skills (ok hits) =
      finished_loop gaps missing_skills
        (consider_all (rank_hits hits gaps missing_skills) (loop_start input gaps missing_skills))

  unfoldable pub acquire_for : (gaps missing_skills : List String) → Acquired
  unfolding is_empty searched collect_hits search_queries empty_acquisition normalize_publish
  acquire_for gaps missing_skills =
      if is_disabled_registry input.trust.registry || (is_empty gaps && is_empty missing_skills)
      then (
        input.activation,
        ok (record {
          receipt =
              empty_acquisition input.trust.registry (normalize_publish input.trust.publish) gaps
                missing_skills;
          packs = [];
        }),
      )
      else if is_approved_mode input.trust.registry
          && is_empty (or_default input.trust.allowlist [])
      then (input.activation, err allowlist_missing)
      else searched gaps missing_skills (collect_hits (search_queries gaps missing_skills))

  unfoldable pub acquire_skills : Acquired
  unfolding acquire_for capability_gaps missing_preferred_skills
  acquire_skills =
      acquire_for
        (capability_gaps input.task input.index
          (map (λ (s : SkillSelected). s.id) (or_default input.selected [])))
        (missing_preferred_skills input.task input.index)
