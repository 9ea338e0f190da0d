-- ===== src/Dependencies/Activation/Aware.antt =====
-- packages/agents/src/dependencies/activation.ts, `freezeAwareRegistry`: a registry whose `pull` adds what it pulls
-- to the activation, or stages it once the set is frozen. The other methods are those of the registry.
-- `pull` of the registry is a function of the number of the call and the spec, and `message` the text of an error.
use knolo_agents.Base.{ℕ, String, Bool, Option, none, some, List, Result, ok, err, ◌≡◌, refl}
use knolo_agents.Harness.Types.{HarnessError}
use knolo_agents.Registry.Types.{PackManifest, PackBytes}
use knolo_agents.Dependencies.Root.{
  PackDependency, PackDependencyRole, HarnessDependencyRoot, nonempty, normalize_pack_dependency,
}
use knolo_agents.Dependencies.Activation.{DependencyActivation, Done, add, stage}
use knolo_agents.Dependencies.Activation.Frozen.{Keeps, stage-active}

-- packDependencyFromManifest(manifest, role)
dependency_of : PackDependencyRole → PackManifest → Result HarnessError PackDependency
unfolding normalize_pack_dependency nonempty
dependency_of role m = normalize_pack_dependency (record {
  name = m.name;
  version = m.version;
  sha256 = m.sha256;
  state_root = nonempty m.state_root;
  role = role;
})

-- What a pull left of the activation, and its bytes or the text of what it threw.
abbrev pub Pulled : Type 0
Pulled = DependencyActivation × Result String (List ℕ)

module _ (locale_le : String → String → Bool) (root_text : List PackDependency → String)
    (message : HarnessError → String) where
  -- if (activation.frozen) activation.stage(dependency); else activation.add(dependency);
  noted : Option HarnessDependencyRoot → PackDependency → DependencyActivation → Done
  unfolding add stage
  noted (some root) d s = stage locale_le root_text d s
  noted none d s = add locale_le root_text d s

  after_noting : PackBytes → Done → Pulled
  after_noting result (s, none) = (s, ok result.bytes)
  after_noting result (s, some e) = (s, err (message e))

  note_dependency : PackBytes → Result HarnessError PackDependency → DependencyActivation → Pulled
  unfolding noted after_noting
  note_dependency result (err e) s = (s, err (message e))
  note_dependency result (ok d) s = after_noting result (noted s.frozen_root d s)

  note_pull : PackDependencyRole → Result String PackBytes → DependencyActivation → Pulled
  unfolding note_dependency dependency_of
  note_pull role (err text) s = (s, err text)
  note_pull role (ok result) s = note_dependency result (dependency_of role result.manifest) s

  unfoldable pub freeze_aware_pull :
      PackDependencyRole
      → (ℕ → String → Result String PackBytes)
      → ℕ
      → String
      → DependencyActivation
      → Pulled
  unfolding note_pull
  freeze_aware_pull role pull call spec s = note_pull role (pull call spec) s

  after_noting-state : (result : PackBytes) (d : Done) → (after_noting result d).0 ≡ d.0
  unfolding after_noting
  after_noting-state result (s, none) = refl
  after_noting-state result (s, some e) = refl

  noted-Keeps :
      (o : Option HarnessDependencyRoot) (root : HarnessDependencyRoot) (d : PackDependency)
      (s : DependencyActivation)
      → o ≡ some root
      → Keeps locale_le root_text s (noted o d s).0
  unfolding noted
  noted-Keeps none root d s f = cc f
  noted-Keeps (some r) root d s f =
      let (active, same) = stage-active locale_le root_text d s in
      record { same_active = active; same_root = same }

  note_dependency-Keeps :
      (result : PackBytes) (d : Result HarnessError PackDependency) (root : HarnessDependencyRoot)
      (s : DependencyActivation)
      → s.frozen_root ≡ some root
      → Keeps locale_le root_text s (note_dependency result d s).0
  unfolding note_dependency
  note_dependency-Keeps result (err e) root s f = record { same_active = refl; same_root = refl }
  note_dependency-Keeps result (ok d) root s f =
      rw (after_noting-state result (noted s.frozen_root d s))
        (noted-Keeps s.frozen_root root d s f)

  note_pull-Keeps :
      (role : PackDependencyRole) (result : Result String PackBytes) (root : HarnessDependencyRoot)
      (s : DependencyActivation)
      → s.frozen_root ≡ some root
      → Keeps locale_le root_text s (note_pull role result s).0
  unfolding note_pull
  note_pull-Keeps role (err text) root s f = record { same_active = refl; same_root = refl }
  note_pull-Keeps role (ok result) root s f = note_dependency-Keeps result _ root s f

  -- Once the set is frozen, a pull leaves the active dependencies and the root, whatever it returns.
  pub freeze_aware_pull-Keeps :
      (role : PackDependencyRole) (pull : ℕ → String → Result String PackBytes) (call : ℕ)
      (spec : String) (s : DependencyActivation) (root : HarnessDependencyRoot)
      → s.frozen_root ≡ some root
      → Keeps locale_le root_text s (freeze_aware_pull role pull call spec s).0
  unfolding freeze_aware_pull
  freeze_aware_pull-Keeps role pull call spec s root f =
      note_pull-Keeps role (pull call spec) root s f
