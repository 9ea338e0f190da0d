-- ===== src/Lib.antt =====
-- Knolo agents: the TypeScript package packages/agents, the part of it that decides.
--
-- An application defines a graph of nodes (packages/agents/src/builder), compiles it, and runs it on an
-- engine (packages/agents/src/engine/typescript), which yields events, patches a JSON state that a
-- schema describes, and returns a report that can be replayed (packages/agents/src/replay). The
-- harness (packages/agents/src/harness) calls an agent through an adapter, under an authority that is the
-- intersection of grants (packages/agents/src/capabilities), and recovers from failures by a policy
-- (packages/agents/src/recovery). What it puts before an agent is bounded (packages/agents/src/context), and the
-- packs of a run are frozen (packages/agents/src/dependencies).
--
-- Base/ has what the parts share: tests, lists, sets, sorting, text, results of code that throws.
-- Contracts.antt and Contracts/Values.antt: contracts/index.ts. A JSON number is a finite decimal, an
--   object the list of its properties in order; numbers of the contracts are natural numbers.
-- Builder.antt: node, terminal, transition, limits, fromPack, defineAgent, compile; Builder/Identifier,
--   Builder/Validate (validateDefinition), Builder/Reach (its loop over the transitions, repeated as many
--   rounds as there are transitions and one more, which is enough: Builder/Reach/Closure), Builder/State
--   (stateSchema, validateState, readPath, validateGraphStatePaths). compile has the hash of the graph as a
--   parameter.
-- Engine.antt: the constructor, execute and resume; Engine/Steps is one turn of the loop in runFrom, with
--   a function for each of its statements that changes the variables. A handler is a function of the
--   context; the clock and the abort signal are functions of the number of the call. The loop has
--   max_steps - steps + 1 turns of fuel, which Engine/Termination shows to be enough: every turn
--   ends the run or takes a step.
-- Replay.antt: validateReplay, recordReplayTrace, validateReplayEvents.
-- Capabilities/Authority.antt: capabilities/authority.ts.
-- Recovery/: the types, classifyFailure, parseRecoveryPolicy and nextStrategy. toLowerCase and the text of
--   an output are parameters.
-- Harness/Recover.antt: invokeWithRecovery of harness/session.ts. What the adapter and the hooks do is a
--   sequence by the number of the call; the fuel that is enough is in Harness/Recover/Ends.
-- Harness/Lifecycle.antt: validateTask, assertAdapterSupportsTask, emptyEnvelope and evaluateInvocation.
-- Context/: what is put before an agent. Lexical has the scores and isRedundant, Budget applyBudget, the choice
--   within a number of characters, Rank the marking and the order of items, Compiler compileContext.
-- Capabilities/Index.antt: CapabilityIndex, two maps kept in the order of their keys (Base/Dict), and the metadata
--   of a pack. Skills/: Definition, Policy, Resolver, which reads the index under an authority, Hits with the
--   queries to a registry and the tests of what it finds, and Acquire with Acquire/Loop, which pulls packs that
--   close the gaps and stages them. The loop runs over a list, so it needs no fuel.
-- Experience/: what local runs teach. Promote has the lessons and the gates, Policy the options, State the state of
--   LocalExperience and what reads it, Store its methods, as functions from a state to a state and a result.
-- Evaluation/: the suites and evaluateRun, which takes the receipt of Harness/Lifecycle further.
-- Dependencies/: the packs of a run: normalisation and merging (Root), and the object that freezes them for a
--   run and stages others for the next (Activation), with the registry that notes there what it pulls
--   (Activation/Aware, freezeAwareRegistry); the text of a root is a parameter. Lockfile is knolo.lock.json
--   after JSON.parse, and its pins.
-- Registry/: Cache is MemoryPackCache, Spec the specs and manifests, Memory and Publish the methods of
--   MemoryPackRegistry (registry/fake.ts), over the cache and the pins of the lockfile.
-- Handoff.antt: assertNarrowAuthority of multi-agent/index.ts and validateResume of hitl/index.ts.
-- Tests/: runs on concrete inputs.
--
-- Not modelled: the adapters, the HTTP and canister clients and the WASM host, which are input and output;
-- the glue to @knolo/core, which is not in the repository; the Rust crates; and the other parts of the
-- harness (the publication of skills and the decoding of their packs, the offline registry, the scores of
-- recorded runs, middleware, claims, the session as a whole).
mod Base
pub mod Contracts
pub mod Builder
pub mod Capabilities
pub mod Context
pub mod Dependencies
pub mod Engine
pub mod Experience
pub mod Evaluation
pub mod Handoff
pub mod Harness
pub mod Recovery
pub mod Registry
pub mod Replay
pub mod Skills
mod Tests
