-- ===== src/Lib.antt =====
-- Kotowari: the context and accountability layer under agents, as a library of definitions that
-- follow the TypeScript sources and of theorems about them.
--
-- The program. The kernel (packages/kernel) has the domain records, the authorization of actions and
-- the builders of semantic writes, which refuse what has no provenance, no evidence or hidden
-- reasoning. The canonical store (packages/plugin-sdk) keeps entities, bitemporal claims with their
-- history, decisions, policies, the log of events and the outbox, and a lifecycle store that keeps
-- its records as events. On these stand the capabilities: policies and their versions
-- (packages/capability-policy), and decisions, which are recorded against a context and the policies
-- that apply, later related, observed, excepted and approved, and replayed, exported for an audit or
-- searched for precedents (packages/capability-decision), and knowledge: entities that are proposed,
-- approved and merged as one, and claims that conflict (packages/capability-knowledge). A principal
-- keeps memories (packages/capability-memory), contexts are assembled for decisions
-- (packages/capability-context), and claims are validated against semantic contracts
-- (packages/capability-ontology).
--
-- Which file models what.
--   * Base and its children: what the language gives. Base/Tests, Equality, Lists and Maps have Boolean
--     tests, `===`, array methods and `Map`; Base/Throw and Exec code that may throw, without and with
--     a state; Base/Text the order on strings by UTF-16 code units, and `trim`; Base/Number the numbers
--     as far as they are compared; Base/Sorting the stable sort; Base/Slices `slice(0, end)` for any
--     number `end`.
--   * Kernel/Errors, World, Ids, Metadata, Provenance, Claim, Entity, Context, Decision, Events and
--     Contracts: the files of packages/kernel/src of these names, a function for each function
--     (`claimVisibleAt` is `claim_visible_at`) and a record for each type. Kernel/Access and
--     Authorization: authorization.ts. Kernel/Invariants and its children: invariants.ts.
--   * PluginSdk/Store: ports.ts and fakes/memory-store.ts, the store as a record of maps and lists and an
--     operation for each method; PluginSdk/System: a store with the outside world, the state of the
--     capabilities; PluginSdk/Lifecycle: decision-lifecycle-store.ts.
--   * Policy: packages/capability-policy/src/policy.ts.
--   * Decisions and its children: decision.ts and lifecycle.ts of packages/capability-decision/src.
--     Decisions/Recording, Replay and Precedents are the capabilities of decision.ts of these names,
--     Decisions/Lifecycle the four that record a decision's later life, and Decisions/Audit the audit
--     bundle, which decision.ts begins and lifecycle.ts completes.
--   * Knowledge and its children: packages/capability-knowledge/src. Knowledge/Merges and ResolutionStore
--     are entity-resolution-store.ts: where merges that stand lead an entity, and proposals, decisions
--     and lineages read from the log. The rest of entity-resolution.ts is Knowledge/Signals, what two
--     entities have in common, and Knowledge/Entities: the checks that its operations share, with
--     Entities/Proposals, Merging and Candidates for the operations. Knowledge/Conflicts is
--     conflicts.ts, with Conflicts/Sets for the sets of claims that conflict, Conflicts/Detection and
--     Conflicts/Resolution.
--   * Memory: packages/capability-memory/src/memory.ts; Context: packages/capability-context/src/assemble.ts.
--   * Ontology: the contracts of packages/capability-ontology/src/semantic-contract.ts and the terms of
--     their parts; Ontology/Contracts: their validation there; Ontology/Claims: claim-validation.ts;
--     Ontology/Registry: registry.ts and conflict-rules.ts.
--   * Tests: the theorems at concrete inputs.
-- The children of a modelled file that are named for what they prove hold its theorems.
--
-- How the code corresponds. A function that only throws returns a `Result`; one that also reads the
-- clock, draws identifiers or writes the store is an `Exec` over the state, which comes back beside
-- an error too, since nothing rolls back what the in-memory store was told before a throw. `nowIso`
-- and `newId` read the clock and the generator of a `World`, whose n-th answers are given by
-- functions, so the theorems hold for every clock and every generator. `allow` takes what the clock
-- shows as an argument; its callers read the clock once for each call. An `await` is a step of the
-- sequence: a call runs to its end without another between, as in the in-memory store. A `Map` is an
-- association list in insertion order; a type with optional fields has fields of `Option`;
-- `PolicyVersion`, which the code tells from `PolicyRecord` by `'policyId' in policy`, is an
-- optional part of the record. Properties that a value may have beyond its type are a dictionary,
-- `extra`, of the inputs that are searched for hidden reasoning. Recursion is structural, on lists
-- and texts, but for two walks, which run on fuel: the loop that follows the redirects of merged
-- entities, and the search for cycles of entity types. The fuel is one round more than there are
-- redirects, or entity types, and enough, since each round but the last marks one that has an entry
-- and was not marked (Base/Unvisited).
--
-- Parameters. The text of a number, which messages and keys have, is a function `number_text`; what
-- `localeCompare` says is a function `collate`, of which the theorems that need it assume a weak
-- order; whether `Date.parse` reads a text is a function; `Number` on texts is a function
-- `to_number`; the digest of a value's JSON text is a function `hash`; the sums, products and
-- quotients of a precedent's score are a record `Arithmetic`; what names are compared by, the
-- normalization of Unicode, the letter case, the classes of characters, quotients and `toFixed`, are a
-- record `Platform`; `toLowerCase` is a function `lower_case`; `Number` on texts, `Date.parse`,
-- `new URL` and `RegExp`, as claims are validated with them, are a record `Reader`; and
-- `captureContext`, which a caller
-- of `recordDecisionCapability` provides, is a computation on the system.
--
-- Not modelled: the export of semantic contracts, ingestion and retrieval;
-- the SQL, file and object stores, the protocols, the servers, the worker and the model plugins.
pub mod Base
pub mod Kernel
pub mod PluginSdk
pub mod Policy
pub mod Decisions
pub mod Knowledge
pub mod Memory
pub mod Context
pub mod Ontology
pub mod Tests
