-- ===== src/Context/Budget.antt =====
-- packages/agents/src/context/budget.ts, and the types of packages/agents/src/context/types.ts that it uses.
pub mod Repeats
pub mod Fits
use knolo_agents.Base.{
  ℕ, ◌+◌, ◌*◌, String, Bool, true, false, ◌&&◌, Option, none, some, List, [], ◌∷◌, ◌++◌, length,
  ltb, Result, ok, err, ◌>>=◌, if◌then◌else◌,
}
use knolo_agents.Base.Sort.{utf16}
use knolo_agents.Builder.Validate.{max_safe_integer}
use knolo_agents.Harness.Types.{
  HarnessError, max_chars_not_positive, max_tokens_not_positive, required_exceeds_budget,
}
use knolo_agents.Recovery.Policy.{safe_natural}
use knolo_agents.Context.Lexical.{is_redundant}

pub data ContextItemKind : Type 0 where
  evidence constraint skill memory : ContextItemKind

-- A finite decimal, as in `Json`.
pub record Decimal : Type 0 where
  pub negative : Bool
  pub digits : ℕ
  pub scale : ℕ

pub record ContextBudget : Type 0 where
  pub max_chars : Option Decimal
  pub max_tokens : Option Decimal

pub record RankedContextItem : Type 0 where
  pub kind : ContextItemKind
  pub id : String
  pub text : String
  pub score : Decimal
  pub required : Bool
  pub source_id : Option String

pub record ContextSelectionEntry : Type 0 where
  pub kind : ContextItemKind
  pub id : String
  pub chars : ℕ
  pub score : Decimal
  pub required : Bool

pub data DropReason : Type 0 where
  budget redundant : DropReason

pub record ContextDrop : Type 0 where
  pub kind : ContextItemKind
  pub id : String
  pub reason : DropReason

-- The plan; `selected_texts` is the list that the loop keeps beside it.
pub record BudgetPlan : Type 0 where
  pub selected : List RankedContextItem
  pub entries : List ContextSelectionEntry
  pub dropped : List ContextDrop
  pub selected_texts : List String
  pub max_chars : ℕ
  pub used_chars : ℕ

-- Number.isSafeInteger(n) && n > 0
positive_or : HarnessError → Decimal → Result HarnessError ℕ
unfolding safe_natural
positive_or error n = elim (safe_natural n.negative n.digits n.scale) [
  | none ↦ err error
  | some v ↦ if ltb 0 v then ok v else err error
]

unfoldable pub max_chars_of : Option Decimal → Option Decimal → Result HarnessError ℕ
unfolding positive_or
max_chars_of (some n) tokens = positive_or max_chars_not_positive n
max_chars_of none (some n) = positive_or max_tokens_not_positive n >>= (λ v. ok (v * 4))
max_chars_of none none = ok max_safe_integer

unfoldable pub max_chars_from_budget : Option ContextBudget → Result HarnessError ℕ
unfolding max_chars_of
max_chars_from_budget none = ok max_safe_integer
max_chars_from_budget (some limits) = max_chars_of limits.max_chars limits.max_tokens

-- item.text.length
unfoldable pub chars_of : RankedContextItem → ℕ
unfolding utf16
chars_of item = length (utf16 item.text)

unfoldable pub entry_of : RankedContextItem → ContextSelectionEntry
unfolding chars_of
entry_of item = record {
  kind = item.kind;
  id = item.id;
  chars = chars_of item;
  score = item.score;
  required = item.required;
}

abbrev pub drop_of : DropReason → RankedContextItem → ContextDrop
drop_of reason item = record { kind = item.kind; id = item.id; reason = reason }

unfoldable pub drop_item : DropReason → RankedContextItem → BudgetPlan → BudgetPlan
drop_item reason item plan = record plan { dropped = plan.dropped ++ drop_of reason item ∷ [] }

unfoldable pub select_item : RankedContextItem → BudgetPlan → BudgetPlan
unfolding entry_of chars_of
select_item item plan = record plan {
  selected = plan.selected ++ item ∷ [];
  entries = plan.entries ++ entry_of item ∷ [];
  selected_texts = plan.selected_texts ++ item.text ∷ [];
  used_chars = plan.used_chars + chars_of item;
}

-- What becomes of an item, by the two tests.
unfoldable pub place :
    (is_redundant is_over : Bool) → RankedContextItem → BudgetPlan → Result HarnessError BudgetPlan
unfolding drop_item select_item
place true over item plan = ok (drop_item redundant item plan)
place false true item plan =
    if item.required
    then err (required_exceeds_budget item.id (plan.used_chars + chars_of item) plan.max_chars)
    else ok (drop_item budget item plan)
place false false item plan = ok (select_item item plan)

module _ (lower : String → String) where
  unfoldable pub offer : RankedContextItem → BudgetPlan → Result HarnessError BudgetPlan
  unfolding place is_redundant chars_of
  offer item plan =
      place (is_redundant lower item.text plan.selected_texts)
        (ltb plan.max_chars (plan.used_chars + chars_of item)) item plan

  -- The loop over the items.
  unfoldable pub fill : List RankedContextItem → BudgetPlan → Result HarnessError BudgetPlan
  unfolding offer
  fill [] plan = ok plan
  fill (item ∷ rest) plan = offer item plan >>= fill rest

  unfoldable pub empty_plan : ℕ → BudgetPlan
  empty_plan max_chars = record {
    selected = [];
    entries = [];
    dropped = [];
    selected_texts = [];
    max_chars = max_chars;
    used_chars = 0;
  }

  unfoldable pub apply_budget :
      List RankedContextItem → Option ContextBudget → Result HarnessError BudgetPlan
  unfolding max_chars_from_budget fill empty_plan
  apply_budget items limits =
      max_chars_from_budget limits >>= (λ max_chars. fill items (empty_plan max_chars))
