-- ===== src/Dependencies/Activation/Frozen.antt =====
-- What a frozen set of dependencies keeps to.
use knolo_agents.Base.{
  String, ◌≡◌, refl, sym, ◌∙◌, Bool, Option, none, some, List, [], ◌∷◌, Result, ok, err, All,
}
use knolo_agents.Harness.Types.{HarnessError}
use knolo_agents.Dependencies.Root.{
  PackDependency, normalize_pack_dependency, HarnessDependencyRoot, dependency_root_label,
}
use knolo_agents.Dependencies.Activation.Freezes.{IsFrozenFrom, freeze_at-IsFrozenFrom}
use knolo_agents.Base.Text.{◌^^◌}
use mathlib.Core.Path.{subst}
use knolo_agents.Dependencies.Activation.{
  Done, DependencyActivation, fresh, set_active, set_staged, add_to, add, replace_in,
  replace_active, stage, activated, activate_staged, freeze_at, freeze, Operation, adding, staging,
  replacing, activating, freezing, perform, perform_all, merged,
}

-- Every call but `activateStaged`.
abbrev pub IsOfRun : Operation → Type 0
IsOfRun activating = ⊥
IsOfRun _ = Unit

module _ (locale_le : String → String → Bool) (root_text : List PackDependency → String) where
  -- A root that is frozen has the active dependencies, and their text.
  abbrev pub IsBound : DependencyActivation → Type 0
  IsBound s =
      (root : HarnessDependencyRoot)
      → s.frozen_root ≡ some root
      → (s.active ≡ root.dependencies)
        × (root.root ≡ dependency_root_label ^^ (":" ^^ root_text root.dependencies))

  -- A call within a run leaves the frozen set as it is.
  pub record Keeps (s t : DependencyActivation) : Type 0 where
    pub same_active : t.active ≡ s.active
    pub same_root : t.frozen_root ≡ s.frozen_root

  staged_Keeps :
      (m : Result HarnessError (List PackDependency)) (s : DependencyActivation)
      → Keeps s (set_staged locale_le root_text m s).0
  unfolding set_staged
  staged_Keeps (ok ds) s = record { same_active = refl; same_root = refl }
  staged_Keeps (err e) s = record { same_active = refl; same_root = refl }

  perform-Keeps :
      (o : Operation) (s : DependencyActivation) (root : HarnessDependencyRoot)
      → s.frozen_root ≡ some root
      → IsOfRun o
      → Keeps s (perform locale_le root_text o s).0
  unfolding perform add replace_active stage freeze add_to replace_in freeze_at
  perform-Keeps (adding d) s root f r = rw f (record { same_active = refl; same_root = refl })
  perform-Keeps (replacing ds) s root f r = rw f (record { same_active = refl; same_root = refl })
  perform-Keeps (staging d) s root f r = staged_Keeps (merged locale_le root_text s.staged_list _) s
  perform-Keeps freezing s root f r = rw f (record { same_active = refl; same_root = refl })
  perform-Keeps activating s root f r = absurd r

  -- Once the set is frozen, no sequence of calls but `activateStaged` changes the active dependencies
  -- or the root.
  pub perform_all-Keeps :
      (os : List Operation) (s : DependencyActivation) (root : HarnessDependencyRoot)
      → s.frozen_root ≡ some root
      → All IsOfRun os
      → Keeps s (perform_all locale_le root_text os s)
  unfolding perform_all
  perform_all-Keeps [] s root f r = record { same_active = refl; same_root = refl }
  perform_all-Keeps (o ∷ os) s root f r =
      let first = perform-Keeps o s root f r.0 in
      let others =
        perform_all-Keeps os (perform locale_le root_text o s).0 root (first.same_root ∙ f) r.1 in
      record {
        same_active = others.same_active ∙ first.same_active;
        same_root = others.same_root ∙ first.same_root;
      }

  Keeps-IsBound : (s t : DependencyActivation) → Keeps s t → IsBound s → IsBound t
  Keeps-IsBound s t k b root f =
      let (same, text) = b root (sym k.same_root ∙ f) in (k.same_active ∙ same, text)

  -- Where nothing is frozen there is nothing to bind.
  unfrozen-IsBound : (s : DependencyActivation) → s.frozen_root ≡ none → IsBound s
  unfrozen-IsBound s n root f = cc

  set_active-IsBound :
      (m : Result HarnessError (List PackDependency)) (s : DependencyActivation)
      → s.frozen_root ≡ none
      → IsBound (set_active locale_le root_text m s).0
  unfolding set_active
  set_active-IsBound (ok ds) s n root f = cc
  set_active-IsBound (err e) s n root f = cc

  activated-IsBound :
      (m : Result HarnessError (List PackDependency)) (s : DependencyActivation)
      → IsBound (activated locale_le root_text m s).0
  unfolding activated
  activated-IsBound (ok ds) s root f = cc
  activated-IsBound (err e) s root f = cc

  IsFrozenFrom-IsBound :
      (o : Option HarnessDependencyRoot) (s : DependencyActivation) (d : Done)
      → IsBound s
      → IsFrozenFrom locale_le root_text o s d
      → IsBound d.0
  IsFrozenFrom-IsBound (some root) s (t, e) b same r g = subst IsBound (sym same) b r g
  IsFrozenFrom-IsBound none s (t, some e) b same r g = subst IsBound (sym same) b r g
  IsFrozenFrom-IsBound none s (t, none) b (root, f, of, active, staged) r g =
      let same : root ≡ r = cc (f, g) in
      subst
        (λ (k : HarnessDependencyRoot).
          (t.active ≡ k.dependencies)
          × (k.root ≡ dependency_root_label ^^ (":" ^^ root_text k.dependencies)))
        same (active, of.has_text)

  add_to-IsBound :
      (o : Option HarnessDependencyRoot) (d : PackDependency) (s : DependencyActivation)
      → s.frozen_root ≡ o
      → IsBound s
      → IsBound (add_to locale_le root_text o d s).0
  unfolding add_to
  add_to-IsBound (some root) d s e b = b
  add_to-IsBound none d s e b = set_active-IsBound _ s e

  replace_in-IsBound :
      (o : Option HarnessDependencyRoot) (ds : List PackDependency) (s : DependencyActivation)
      → s.frozen_root ≡ o
      → IsBound s
      → IsBound (replace_in locale_le root_text o ds s).0
  unfolding replace_in
  replace_in-IsBound (some root) ds s e b = b
  replace_in-IsBound none ds s e b = set_active-IsBound _ s e

  perform-IsBound :
      (o : Operation) (s : DependencyActivation)
      → IsBound s
      → IsBound (perform locale_le root_text o s).0
  unfolding perform add replace_active stage activate_staged freeze
  perform-IsBound (adding d) s b = add_to-IsBound s.frozen_root d s refl b
  perform-IsBound (replacing ds) s b = replace_in-IsBound s.frozen_root ds s refl b
  perform-IsBound (staging d) s b = Keeps-IsBound s _ (staged_Keeps _ s) b
  perform-IsBound activating s b = activated-IsBound _ s
  perform-IsBound freezing s b =
      IsFrozenFrom-IsBound s.frozen_root s _ b
        (freeze_at-IsFrozenFrom locale_le root_text s.frozen_root s)

  perform_all-IsBound_from :
      (os : List Operation) (s : DependencyActivation)
      → IsBound s
      → IsBound (perform_all locale_le root_text os s)
  unfolding perform_all
  perform_all-IsBound_from [] s b = b
  perform_all-IsBound_from (o ∷ os) s b = perform_all-IsBound_from os _ (perform-IsBound o s b)

  -- What a call of `freeze` does to the object.
  abbrev pub Freezes : DependencyActivation → Type 0
  Freezes s = IsFrozenFrom locale_le root_text s.frozen_root s (freeze locale_le root_text s)

  freeze-Freezes : (s : DependencyActivation) → Freezes s
  unfolding freeze
  freeze-Freezes s = freeze_at-IsFrozenFrom locale_le root_text s.frozen_root s

  -- After any sequence of calls on a new object, a root that is frozen has the active dependencies and
  -- the text made from them; and a call of `freeze` then changes nothing where a root is frozen or where
  -- it throws, and else freezes the root of exactly the normal forms of what was active, makes its
  -- dependencies the active ones and leaves what is staged.
  pub perform_all-IsBound :
      (os : List Operation)
      → IsBound (perform_all locale_le root_text os fresh)
        × Freezes (perform_all locale_le root_text os fresh)
  unfolding fresh
  perform_all-IsBound os = (
    perform_all-IsBound_from os fresh (unfrozen-IsBound fresh refl),
    freeze-Freezes (perform_all locale_le root_text os fresh),
  )

-- Staging leaves the active packs and the frozen root.
pub stage-active :
    (locale_le : String → String → Bool) (root_text : List PackDependency → String)
    (d : PackDependency) (s : DependencyActivation)
    → ((stage locale_le root_text d s).0.active ≡ s.active)
      × ((stage locale_le root_text d s).0.frozen_root ≡ s.frozen_root)
unfolding stage
stage-active locale_le root_text d s =
    let kept : Keeps locale_le root_text s (set_staged locale_le root_text _ s).0 =
      staged_Keeps locale_le root_text
        (merged locale_le root_text s.staged_list (normalize_pack_dependency d)) s in
    (kept.same_active, kept.same_root)
