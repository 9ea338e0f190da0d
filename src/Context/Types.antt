-- ===== src/Context/Types.antt =====
-- packages/agents/src/context/types.ts: what the compiler is given. A source is code of the caller, which may
-- throw.
use knolo_agents.Base.{ℕ, String, Bool, Option, List, Result}
use knolo_agents.Harness.Types.{HarnessError}
use knolo_agents.Context.Budget.{Decimal, ContextSelectionEntry, ContextDrop}

pub record EvidenceItem : Type 0 where
  pub id : String
  pub text : String
  pub source_id : Option String
  pub required : Option Bool
  pub score : Option Decimal

pub record MemoryItem : Type 0 where
  pub id : String
  pub text : String
  pub score : Option Decimal

pub record SkillItem : Type 0 where
  pub id : String
  pub text : String
  pub required : Option Bool
  pub score : Option Decimal
  pub source_id : Option String

-- Nothing, the items themselves, or a source to be asked.
pub data Given (A : Type 0) : Type 0 where
  absent : Given A
  listed : (items : List A) → Given A
  source : (ask : String → Result HarnessError (List A)) → Given A

pub record SemanticRerankRecord : Type 0 where
  pub deterministic : Bool
  pub model : Option String

pub record ContextSelectionReceipt : Type 0 where
  pub version : ℕ
  pub query : String
  pub lexical : Bool
  pub selected : List ContextSelectionEntry
  pub dropped : List ContextDrop
  pub max_chars : ℕ
  pub used_chars : ℕ
  pub semantic_rerank : Option SemanticRerankRecord
