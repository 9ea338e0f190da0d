-- ===== src/Context/Compiler/Kept.antt =====
-- What a compiled context keeps.
use mathlib.Core.Path.{subst}
use knolo_agents.Base.{
  ℕ, ◌≤◌, String, Bool, true, List, [], map, filter, ok, >>=-eq-ok, ◌≡◌, refl, sym, ◌⊎◌, inl, inr,
  Has, Has-append, Has-append_right, map-Has, filter-Has, arith,
}
use knolo_agents.Base.Sort.{sort_by-Has}
use knolo_agents.Builder.{or_default}
use knolo_agents.Context.Budget.{
  RankedContextItem, ContextItemKind, evidence, constraint, memory, skill, BudgetPlan, drop_of,
  redundant, max_chars_from_budget, apply_budget, entry_of,
}
use knolo_agents.Context.Budget.Fits.{IsPlan, required_kept, apply_budget-IsPlan}
use knolo_agents.Context.Budget.Repeats.{Repeats}
use knolo_agents.Context.Rank.{
  is_required, ranked_evidence, ranked_constraint, required_evidence, resolve_memories,
}
use knolo_agents.Context.Types.{EvidenceItem, MemoryItem, ContextSelectionReceipt}
use knolo_agents.Harness.Types.{Constraint}
use knolo_agents.Context.Compiler.{
  CompileContextInput, CompiledContext, of_kind, as_json_item, as_constraint, offered, selection_of,
  compiled_context, evidence_for, compile_context,
}

-- An item of a kind that was selected is among the items of that kind, as they are written.
written-Has :
    {A : Type 0} (kind : ContextItemKind) (write : RankedContextItem → A) (item : RankedContextItem)
    (xs : List RankedContextItem)
    → of_kind kind item ≡ true
    → Has item xs
    → Has (write item) (map write (filter (of_kind kind) xs))
written-Has kind write item xs k h =
    map-Has write (filter (of_kind kind) xs) item (filter-Has (of_kind kind) xs item h k)

module _ (lower : String → String) (per_million : ℕ → ℕ → ℕ) (locale_le : String → String → Bool)
    (digest_root : ContextSelectionReceipt → String) where
  -- The bound is kept, and what is required is there, or repeats what is there.
  pub record IsCompiled (input : CompileContextInput) (c : CompiledContext) : Type 0 where
    pub bounded : max_chars_from_budget input.context_budget ≡ ok c.selection.max_chars
    pub fits : c.selection.used_chars ≤ c.selection.max_chars
    pub selected : List RankedContextItem
    pub lists_selected : c.selection.selected ≡ map entry_of selected
    pub writes_constraints :
        c.envelope.constraints ≡ map as_constraint (filter (of_kind constraint) selected)
    pub writes_evidence :
        c.envelope.evidence ≡ map as_json_item (filter (of_kind evidence) selected)
    pub writes_memories : c.envelope.memories ≡ map as_json_item (filter (of_kind memory) selected)
    pub writes_skills : c.envelope.skills ≡ map as_json_item (filter (of_kind skill) selected)
    pub keeps_constraints :
        (k : Constraint)
        → Has k (or_default input.task.constraints [])
        → Has k c.envelope.constraints
          ⊎ (Has
                (drop_of redundant (ranked_constraint lower per_million locale_le k))
                c.selection.dropped
              × Repeats lower (ranked_constraint lower per_million locale_le k).text selected)
    pub items : List EvidenceItem
    pub ranks_items : evidence_for lower per_million locale_le digest_root input ≡ ok items
    pub keeps_evidence :
        (e : EvidenceItem)
        → Has e items
        → is_required lower per_million locale_le e.required ≡ true
        → Has
            (as_json_item (ranked_evidence lower per_million locale_le input.task.objective e))
            c.envelope.evidence
          ⊎ (Has
                (drop_of redundant
                  (ranked_evidence lower per_million locale_le input.task.objective e))
                c.selection.dropped
              × Repeats lower
                  (ranked_evidence lower per_million locale_le input.task.objective e).text
                  selected)

  constraint-offered :
      (input : CompileContextInput) (items : List EvidenceItem) (memories : List MemoryItem)
      (k : Constraint)
      → Has k (or_default input.task.constraints [])
      → Has
          (ranked_constraint lower per_million locale_le k)
          (offered lower per_million locale_le digest_root input items memories)
  unfolding offered
  constraint-offered input items memories k h =
      Has-append_right _ (required_evidence lower per_million locale_le items input.task.objective)
        _
        (Has-append _
          (map (ranked_constraint lower per_million locale_le)
            (or_default input.task.constraints []))
          _
          (map-Has (ranked_constraint lower per_million locale_le)
            (or_default input.task.constraints []) k h))

  evidence-offered :
      (input : CompileContextInput) (items : List EvidenceItem) (memories : List MemoryItem)
      (e : EvidenceItem)
      → Has e items
      → is_required lower per_million locale_le e.required ≡ true
      → Has
          (ranked_evidence lower per_million locale_le input.task.objective e)
          (offered lower per_million locale_le digest_root input items memories)
  unfolding offered required_evidence
  evidence-offered input items memories e h r =
      let rank = ranked_evidence lower per_million locale_le input.task.objective in
      let required =
        filter (λ (i : EvidenceItem). is_required lower per_million locale_le i.required) items in
      Has-append (rank e) (required_evidence lower per_million locale_le items input.task.objective)
        _
        ((sort_by-Has (λ (x : RankedContextItem) (y : RankedContextItem). locale_le x.id y.id)
            (map rank required) (rank e)).1
          (map-Has rank required e (
            filter-Has (λ (i : EvidenceItem). is_required lower per_million locale_le i.required)
              items e h r)))

  compiled_context-IsKept :
      (input : CompileContextInput) (items : List EvidenceItem) (memories : List MemoryItem)
      (plan : BudgetPlan) (max_chars : ℕ)
      → evidence_for lower per_million locale_le digest_root input ≡ ok items
      → max_chars_from_budget input.context_budget ≡ ok max_chars
      → IsPlan lower max_chars
          (offered lower per_million locale_le digest_root input items memories)
          plan
      → IsCompiled input (compiled_context lower per_million locale_le digest_root input plan)
  unfolding compiled_context selection_of ranked_constraint ranked_evidence of_kind as_constraint
  compiled_context-IsKept input items memories plan max_chars found b p = record {
    bounded = subst (λ n. max_chars_from_budget input.context_budget ≡ ok n) (sym p.bound_kept) b;
    fits = omega (arith, p.fits, p.bound_kept);
    selected = plan.selected;
    lists_selected = p.entries_match;
    writes_constraints = refl;
    writes_evidence = refl;
    writes_memories = refl;
    writes_skills = refl;
    keeps_constraints = λ k h.
        let ranked = ranked_constraint lower per_million locale_le k in
        elim (required_kept lower max_chars _ plan p ranked
          (constraint-offered input items memories k h) refl) [
            | inl kept ↦ inl (written-Has constraint as_constraint ranked plan.selected refl kept)
            | inr lost ↦ inr lost
          ];
    items = items;
    ranks_items = found;
    keeps_evidence = λ e h r.
        let ranked = ranked_evidence lower per_million locale_le input.task.objective e in
        elim (required_kept lower max_chars _ plan p ranked
          (evidence-offered input items memories e h r) r) [
            | inl kept ↦ inl (written-Has evidence as_json_item ranked plan.selected refl kept)
            | inr lost ↦ inr lost
          ];
  }

  -- A compiled context is within the bound of its budget, and its evidence, constraints, memories, skills
  -- and selection entries are those of one list of selected items. Each constraint of the task, and each
  -- evidence that is required once the requirements are marked and the reranker has run, is in the
  -- envelope, or is reported as dropped for being redundant; then its normalised text is blank, or equal
  -- to, a part of, or around the normalised text of a selected item.
  pub compile_context-IsCompiled :
      (input : CompileContextInput) (c : CompiledContext)
      → compile_context lower per_million locale_le digest_root input ≡ ok c
      → IsCompiled input c
  unfolding compile_context
  compile_context-IsCompiled input c h =
      let (items, e, h1) =
        >>=-eq-ok (evidence_for lower per_million locale_le digest_root input) _ h in
      let (memories, m, h2) =
        >>=-eq-ok (resolve_memories lower per_million locale_le input.memories input.task.objective)
          _ h1 in
      let (plan, q, done) =
        >>=-eq-ok
          (apply_budget lower (offered lower per_million locale_le digest_root input items memories)
            input.context_budget)
          _ h2 in
      let (max_chars, b, p) =
        apply_budget-IsPlan lower
          (offered lower per_million locale_le digest_root input items memories)
          input.context_budget plan q in
      subst (IsCompiled input) (cc done)
        (compiled_context-IsKept input items memories plan max_chars e b p)
