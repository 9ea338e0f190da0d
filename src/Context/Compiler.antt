-- ===== src/Context/Compiler.antt =====
-- packages/agents/src/context/compiler.ts. `digest_root` is the digest of a selection's canonical JSON.
pub mod Kept
use knolo_agents.Base.{
  ℕ, String, Bool, true, false, Option, none, some, List, [], ◌∷◌, ◌++◌, map, filter, Result, ok,
  err, ◌>>=◌,
}
use knolo_agents.Base.Sort.{sort_by}
use knolo_agents.Builder.{or_default}
use knolo_agents.Contracts.Values.{Json, string, object, Fields, end, field}
use knolo_agents.Context.Budget.{
  RankedContextItem, ContextItemKind, evidence, constraint, skill, memory, ContextBudget,
  BudgetPlan, apply_budget,
}
use knolo_agents.Context.Rank.{
  rank_le, ranked_evidence, ranked_constraint, ranked_skill, ranked_memory, skill_le,
  resolve_evidence, resolve_memories, mark_required, required_evidence, rest_evidence,
}
use knolo_agents.Context.Types.{
  EvidenceItem, MemoryItem, SkillItem, Given, SemanticRerankRecord, ContextSelectionReceipt,
}
use knolo_agents.Dependencies.Root.{nonempty}
use knolo_agents.Harness.Types.{
  HarnessError, AgentCapabilities, Constraint, ContextEnvelope, HarnessBudget, Task,
}

pub record CompileContextInput : Type 0 where
  pub task : Task
  pub capabilities : AgentCapabilities
  pub budget : HarnessBudget
  pub dependency_root : String
  pub evidence : Given EvidenceItem
  pub memories : Given MemoryItem
  pub skills : Option (List SkillItem)
  pub context_budget : Option ContextBudget
  pub semantic_rerank :
      Option (List EvidenceItem → String → Result HarnessError (List EvidenceItem))
  pub semantic_rerank_model : Option String

pub record CompiledContext : Type 0 where
  pub envelope : ContextEnvelope
  pub selection : ContextSelectionReceipt
  pub selection_root : String

same_kind : ContextItemKind → ContextItemKind → Bool
same_kind evidence evidence = true
same_kind constraint constraint = true
same_kind skill skill = true
same_kind memory memory = true
same_kind _ _ = false

unfoldable pub of_kind : ContextItemKind → RankedContextItem → Bool
unfolding same_kind
of_kind kind item = same_kind kind item.kind

unfoldable pub as_json_item : RankedContextItem → Json
as_json_item item = object (
    field "id" (string item.id) (
      field "text" (string item.text)
        (elim item.source_id [ none ↦ end | some s ↦ field "sourceId" (string s) end ])))

unfoldable pub as_constraint : RankedContextItem → Constraint
as_constraint item = record { id = item.id; description = item.text }

is_given {ℓ} : {A : Type ℓ} → Option A → Bool
is_given none = false
is_given (some a) = true

module _ (lower : String → String) (per_million : ℕ → ℕ → ℕ) (locale_le : String → String → Bool)
    (digest_root : ContextSelectionReceipt → String) where
  reranked :
      Option (List EvidenceItem → String → Result HarnessError (List EvidenceItem))
      → List EvidenceItem
      → String
      → Result HarnessError (List EvidenceItem)
  reranked none items query = ok items
  reranked (some rerank) items query = rerank items query

  rerank_record : CompileContextInput → Option SemanticRerankRecord
  unfolding nonempty
  rerank_record input = elim input.semantic_rerank [
    | none ↦ none
    | some rerank ↦
        some (record { deterministic = false; model = nonempty input.semantic_rerank_model })
  ]

  -- The items in the order in which the budget takes them.
  unfoldable pub offered :
      CompileContextInput → List EvidenceItem → List MemoryItem → List RankedContextItem
  unfolding is_given required_evidence rest_evidence ranked_constraint ranked_skill skill_le
      ranked_memory rank_le sort_by
  offered input items memories =
      let query = input.task.objective in
      required_evidence lower per_million locale_le items query
      ++ (map (ranked_constraint lower per_million locale_le) (or_default input.task.constraints [])
          ++ (rest_evidence lower per_million locale_le items query (is_given input.semantic_rerank)
              ++ (sort_by (skill_le lower per_million locale_le) (
                    map (ranked_skill lower per_million locale_le query)
                      (or_default input.skills []))
                  ++ sort_by (rank_le lower per_million locale_le)
                      (map (ranked_memory lower per_million locale_le query) memories))))

  selection_of : CompileContextInput → BudgetPlan → ContextSelectionReceipt
  unfolding rerank_record
  selection_of input plan = record {
    version = 1;
    query = input.task.objective;
    lexical = true;
    selected = plan.entries;
    dropped = plan.dropped;
    max_chars = plan.max_chars;
    used_chars = plan.used_chars;
    semantic_rerank = rerank_record input;
  }

  compiled_context : CompileContextInput → BudgetPlan → CompiledContext
  unfolding selection_of of_kind as_json_item as_constraint
  compiled_context input plan =
      let root = digest_root (selection_of input plan) in
      record {
        envelope = record {
          task = input.task;
          evidence = map as_json_item (filter (of_kind evidence) plan.selected);
          memories = map as_json_item (filter (of_kind memory) plan.selected);
          skills = map as_json_item (filter (of_kind skill) plan.selected);
          constraints = map as_constraint (filter (of_kind constraint) plan.selected);
          capabilities = input.capabilities;
          budget = input.budget;
          dependency_root = input.dependency_root;
          receipts = root ∷ [];
        };
        selection = selection_of input plan;
        selection_root = root;
      }

  -- The evidence that the compiler ranks.
  unfoldable pub evidence_for : CompileContextInput → Result HarnessError (List EvidenceItem)
  unfolding resolve_evidence mark_required reranked
  evidence_for input =
      resolve_evidence lower per_million locale_le input.evidence input.task.objective >>= (λ items.
        reranked input.semantic_rerank
          (mark_required lower per_million locale_le items
            (or_default input.task.evidence_requirements []))
          input.task.objective)

  unfoldable pub compile_context : CompileContextInput → Result HarnessError CompiledContext
  unfolding evidence_for resolve_memories offered compiled_context apply_budget
  compile_context input = evidence_for input >>= (λ items.
      resolve_memories lower per_million locale_le input.memories input.task.objective
      >>= (λ memories.
          apply_budget lower (offered input items memories) input.context_budget
          >>= (λ plan. ok (compiled_context input plan))))
