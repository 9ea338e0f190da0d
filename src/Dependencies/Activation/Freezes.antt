-- ===== src/Dependencies/Activation/Freezes.antt =====
-- What a set of dependencies is frozen to.
use mathlib.Core.Path.{subst}
use knolo_agents.Base.{
  String, Bool, Option, none, some, List, [], ◌∷◌, ok, >>=-eq-ok, ◌≡◌, refl, inl, inr, Has,
  Result-cases,
}
use knolo_agents.Base.Text.{◌^^◌}
use knolo_agents.Base.Sort.{sort_by, sort_by-Has}
use knolo_agents.Dependencies.Root.{
  PackDependency, HarnessDependencyRoot, normalize_pack_dependency, normalize_all, dependency_le,
  sort_pack_dependencies, compute_harness_dependency_root, dependency_root_label,
}
use knolo_agents.Dependencies.Activation.{DependencyActivation, Done, frozen_with, freeze_at}

-- Two lists of which the second holds the normal forms of the first, and nothing else.
pub record AreNormal (ds ns : List PackDependency) : Type 0 where
  pub of_first :
      (n : PackDependency)
      → Has n ns
      → (d : PackDependency) × Has d ds × (normalize_pack_dependency d ≡ ok n)
  pub of_all :
      (d : PackDependency)
      → Has d ds
      → (n : PackDependency) × Has n ns × (normalize_pack_dependency d ≡ ok n)

normalize_all-AreNormal : (ds ns : List PackDependency) → normalize_all ds ≡ ok ns → AreNormal ds ns
unfolding normalize_all
normalize_all-AreNormal [] ns h =
    let same : [] ≡ ns = cc h in
    subst (AreNormal []) same (record { of_first = λ n m. absurd m; of_all = λ d m. absurd m })
normalize_all-AreNormal (d ∷ ds) ns h =
    let (first, f, h1) = >>=-eq-ok (normalize_pack_dependency d) _ h in
    let (rest, r, h2) = >>=-eq-ok (normalize_all ds) _ h1 in
    let others : AreNormal ds rest = normalize_all-AreNormal ds rest r in
    let same : first ∷ rest ≡ ns = cc h2 in
    subst (AreNormal (d ∷ ds)) same (record {
      of_first = λ n m. elim m [
        | inl e ↦ (d, inl refl, subst (λ k. normalize_pack_dependency d ≡ ok k) e f)
        | inr k ↦ let (x, there, p) = others.of_first n k in (x, inr there, p)
      ];
      of_all = λ x m. elim m [
        | inl e ↦ (first, inl refl, subst (λ k. normalize_pack_dependency k ≡ ok first) e f)
        | inr k ↦ let (n, there, p) = others.of_all x k in (n, inr there, p)
      ];
    })

module _ (locale_le : String → String → Bool) (root_text : List PackDependency → String) where
  -- The root of a list: its dependencies in their normal forms, and their text.
  pub record IsRootOf (ds : List PackDependency) (root : HarnessDependencyRoot) : Type 0 where
    pub has_dependencies : AreNormal ds root.dependencies
    pub has_text : root.root ≡ dependency_root_label ^^ (":" ^^ root_text root.dependencies)

  sort_pack_dependencies-AreNormal :
      (ds sorted : List PackDependency)
      → sort_pack_dependencies locale_le ds ≡ ok sorted
      → AreNormal ds sorted
  unfolding sort_pack_dependencies
  sort_pack_dependencies-AreNormal ds sorted h =
      let (normal, n, h1) = >>=-eq-ok (normalize_all ds) _ h in
      let given : AreNormal ds normal = normalize_all-AreNormal ds normal n in
      let same : sort_by (dependency_le locale_le) normal ≡ sorted = cc h1 in
      subst (AreNormal ds) same (record {
        of_first = λ d m. given.of_first d ((sort_by-Has (dependency_le locale_le) normal d).0 m);
        of_all = λ d m.
            let (k, there, p) = given.of_all d m in
            (k, (sort_by-Has (dependency_le locale_le) normal k).1 there, p);
      })

  pub compute_harness_dependency_root-IsRootOf :
      (ds : List PackDependency) (root : HarnessDependencyRoot)
      → compute_harness_dependency_root locale_le root_text ds ≡ ok root
      → IsRootOf ds root
  unfolding compute_harness_dependency_root
  compute_harness_dependency_root-IsRootOf ds root h =
      let (sorted, s, h1) = >>=-eq-ok (sort_pack_dependencies locale_le ds) _ h in
      let built : HarnessDependencyRoot = record {
        version = 1;
        algorithm = dependency_root_label;
        dependencies = sorted;
        root = dependency_root_label ^^ (":" ^^ root_text sorted);
      } in
      let same : built ≡ root = cc h1 in
      subst (IsRootOf ds) same (record {
        has_dependencies = sort_pack_dependencies-AreNormal ds sorted s;
        has_text = refl;
      })

  -- A set that was frozen before, or cannot be, stays as it is; else its root is that of what was
  -- active, the dependencies of the root are active, and what is staged stays.
  abbrev pub IsFrozenFrom : Option HarnessDependencyRoot → DependencyActivation → Done → Type 0
  IsFrozenFrom (some root) s (t, e) = t ≡ s
  IsFrozenFrom none s (t, some e) = t ≡ s
  IsFrozenFrom none s (t, none) =
      (root : HarnessDependencyRoot) × (t.frozen_root ≡ some root)
      × IsRootOf s.active root
      × (t.active ≡ root.dependencies)
      × (t.staged_list ≡ s.staged_list)

  pub freeze_at-IsFrozenFrom :
      (o : Option HarnessDependencyRoot) (s : DependencyActivation)
      → IsFrozenFrom o s (freeze_at locale_le root_text o s)
  unfolding freeze_at frozen_with
  freeze_at-IsFrozenFrom (some root) s = refl
  freeze_at-IsFrozenFrom none s =
      elim (Result-cases (compute_harness_dependency_root locale_le root_text s.active)) [
        | inr (e, q) ↦ rw q refl
        | inl (root, q) ↦
            rw q (root, refl, compute_harness_dependency_root-IsRootOf s.active root q, refl, refl)
      ]
