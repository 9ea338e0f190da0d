-- ===== src/Recovery/Classify.antt =====
-- packages/agents/src/recovery/classify.ts. `lower` is `toLowerCase` and `stringify` is
-- `stringifyOutput` of packages/agents/src/harness/task.ts.
use knolo_agents.Base.{
  String, Bool, true, false, Option, none, some, List, [], ◌∷◌, any, if◌then◌else◌,
}
use knolo_agents.Base.Text.{◌^^◌, text_includes}
use knolo_agents.Contracts.Values.{Json}
use knolo_agents.Harness.Types.{AgentInvocationResult, InvocationStatus}
use knolo_agents.Recovery.Types.{FailureClass}

-- /a|b|c/.test(text), the alternatives being plain texts
unfoldable pub mentions : String → List String → Bool
unfolding text_includes
mentions text words = any (text_includes text) words

abbrev pub error_text : Option String → String
error_text none = ""
error_text (some e) = e

unfoldable pub classify_text : String → FailureClass
unfolding mentions
classify_text text =
    if mentions text ("timeout" ∷ "etimedout" ∷ "timed out" ∷ "tool_timeout" ∷ [])
    then FailureClass.timeout
    else if mentions text ("prohibited" ∷ "denied" ∷ "authority" ∷ "policy" ∷ "escalation" ∷ [])
    then FailureClass.policy
    else if mentions text ("schema" ∷ "outputschema" ∷ "parse json" ∷ "invalid json" ∷ [])
    then FailureClass.schema
    else if mentions text ("retriev" ∷ "evidence" ∷ "knowledge image" ∷ [])
    then FailureClass.retrieval
    else if mentions text ("tool" ∷ [])
    then FailureClass.tool
    else if mentions text ("model" ∷ "llm" ∷ "completion" ∷ [])
    then FailureClass.model
    else FailureClass.unknown

module _ (lower : String → String) (stringify : Json → String) where
  unfoldable pub classify_failure : AgentInvocationResult → FailureClass
  unfolding classify_text
  classify_failure result =
      classify_text (lower (error_text result.error ^^ (" " ^^ stringify result.output)))

unfoldable pub is_failed : InvocationStatus → Bool
is_failed InvocationStatus.failed = true
is_failed _ = false

unfoldable pub needs_recovery : AgentInvocationResult → Bool
unfolding is_failed
needs_recovery result = is_failed result.status
