-- ===== src/Dependencies/Activation.antt =====
-- packages/agents/src/dependencies/activation.ts, `DependencyActivation`. An operation returns the state
-- after it and the error that it threw, if it did.
pub mod Freezes
pub mod Frozen
pub mod Aware
use knolo_agents.Base.{
  String, Bool, true, false, Option, none, some, List, [], ◌∷◌, Result, ok, err,
}
use knolo_agents.Harness.Types.{HarnessError, dependencies_frozen}
use knolo_agents.Dependencies.Root.{
  PackDependency, HarnessDependencyRoot, normalize_pack_dependency, merge_pack_dependencies,
  compute_harness_dependency_root,
}

pub record DependencyActivation : Type 0 where
  pub active : List PackDependency
  pub staged_list : List PackDependency
  pub frozen_root : Option HarnessDependencyRoot

unfoldable pub fresh : DependencyActivation
fresh = record { active = []; staged_list = []; frozen_root = none }

abbrev pub Done : Type 0
Done = DependencyActivation × Option HarnessError

module _ (locale_le : String → String → Bool) (root_text : List PackDependency → String) where
  set_active : Result HarnessError (List PackDependency) → DependencyActivation → Done
  set_active (ok ds) s = (record s { active = ds }, none)
  set_active (err e) s = (s, some e)

  set_staged : Result HarnessError (List PackDependency) → DependencyActivation → Done
  set_staged (ok ds) s = (record s { staged_list = ds }, none)
  set_staged (err e) s = (s, some e)

  merged :
      List PackDependency
      → Result HarnessError PackDependency
      → Result HarnessError (List PackDependency)
  unfolding merge_pack_dependencies
  merged base (ok d) = merge_pack_dependencies locale_le base (d ∷ [])
  merged base (err e) = err e

  add_to : Option HarnessDependencyRoot → PackDependency → DependencyActivation → Done
  unfolding set_active merged normalize_pack_dependency
  add_to (some root) d s = (s, some dependencies_frozen)
  add_to none d s = set_active (merged s.active (normalize_pack_dependency d)) s

  unfoldable pub add : PackDependency → DependencyActivation → Done
  unfolding add_to
  add d s = add_to s.frozen_root d s

  replace_in : Option HarnessDependencyRoot → List PackDependency → DependencyActivation → Done
  unfolding set_active merge_pack_dependencies
  replace_in (some root) ds s = (s, some dependencies_frozen)
  replace_in none ds s = set_active (merge_pack_dependencies locale_le [] ds) s

  unfoldable pub replace_active : List PackDependency → DependencyActivation → Done
  unfolding replace_in
  replace_active ds s = replace_in s.frozen_root ds s

  unfoldable pub stage : PackDependency → DependencyActivation → Done
  unfolding set_staged merged normalize_pack_dependency
  stage d s = set_staged (merged s.staged_list (normalize_pack_dependency d)) s

  activated : Result HarnessError (List PackDependency) → DependencyActivation → Done
  activated (ok ds) s = (record { active = ds; staged_list = []; frozen_root = none }, none)
  activated (err e) s = (record s { frozen_root = none }, some e)

  unfoldable pub activate_staged : DependencyActivation → Done
  unfolding activated merge_pack_dependencies
  activate_staged s = activated (merge_pack_dependencies locale_le s.active s.staged_list) s

  frozen_with : Result HarnessError HarnessDependencyRoot → DependencyActivation → Done
  frozen_with (ok root) s = (record s { active = root.dependencies; frozen_root = some root }, none)
  frozen_with (err e) s = (s, some e)

  pub freeze_at : Option HarnessDependencyRoot → DependencyActivation → Done
  unfolding frozen_with compute_harness_dependency_root
  freeze_at (some root) s = (s, none)
  freeze_at none s = frozen_with (compute_harness_dependency_root locale_le root_text s.active) s

  unfoldable pub freeze : DependencyActivation → Done
  unfolding freeze_at
  freeze s = freeze_at s.frozen_root s

-- The calls of the object's methods that change it.
pub data Operation : Type 0 where
  adding staging : (dependency : PackDependency) → Operation
  replacing : (dependencies : List PackDependency) → Operation
  activating freezing : Operation

module _ (locale_le : String → String → Bool) (root_text : List PackDependency → String) where
  unfoldable pub perform : Operation → DependencyActivation → Done
  unfolding add replace_active stage activate_staged freeze
  perform (adding d) s = add locale_le root_text d s
  perform (staging d) s = stage locale_le root_text d s
  perform (replacing ds) s = replace_active locale_le root_text ds s
  perform activating s = activate_staged locale_le root_text s
  perform freezing s = freeze locale_le root_text s

  -- A sequence of calls, whose errors are caught.
  unfoldable pub perform_all : List Operation → DependencyActivation → DependencyActivation
  unfolding perform
  perform_all [] s = s
  perform_all (o ∷ os) s = perform_all os (perform o s).0
