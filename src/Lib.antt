-- ===== src/Lib.antt =====
-- The Go runtime of AgentRD2, which lends game characters (peds) an agent: it decides which ped
-- it may own, keeps a timeline of events for each, and hands actions to the bridge inside the
-- game.
--
-- A scan of peds from the bridge goes through the eligibility gate; its verdict drives the
-- ownership manager, whose transitions are recorded on the timeline; the scheduler lets an owned
-- NPC reason, and the actions that come of it go out through the dispatcher, which records them
-- on the timeline and waits for the bridge's answers.
--
-- Files:
-- - Ownership/: runtime-go/internal/state/ownership.go. Types has the states, Transition and
--   EventName; Record has each method's effect on one record (UpdateFromScan is
--   update_from_scan_record, Suspend is suspend_record, and so on); Manager has the records by
--   NPC with `record`, and `call`, which is any of its methods. Edges holds the transition
--   diagram, History the runs, Safety what scans and suspensions may do.
-- - Domain/: runtime-go/internal/domain. Value has `any` as the JSON decoder makes it and the
--   readers of coerce.go and ids.go, Ped the snapshot of world.go, Event the event of event.go
--   with ToMap, EventFromMap, Validate and NewEvent. Event/Json and Event/RoundTrip say what
--   comes back of an event.
-- - Eligibility/: runtime-go/internal/state/eligibility.go. Glob has globMatch with its memo,
--   classEnd and classContains, on lists of runes; Gate has the blacklist and CanActivate.
--   Glob/Tokens says what a pattern means, Glob/Correct that the matcher decides it;
--   Gate/FailClosed and Gate/Reasons are about CanActivate.
-- - Timeline/: runtime-go/internal/timeline/store.go. Lines has the lines of a file and
--   tailNonEmptyLines, Store the files, the cache and every operation of the store. Tail is
--   about the reverse reader; Store/Linear, Store/Grab and Store/Shared are about appending,
--   retrieving and shared files, and Store/Filters says what the filters of a retrieval ask.
-- - Events/: runtime-go/internal/events/normalizer.go. Readers has truthy, stringList,
--   summaryFrom, importanceFrom and the pattern of a name, Message has EventFromMessage and
--   WorldStateFromMessage, Facts the payloads of PlayerSpoke, NPCSpoke, ActionResult and
--   GoalEvent. Message/Accepted says which messages become which events (by Message/Steps and
--   Message/Forms), Facts/Spoken and Facts/Results what becomes of the standard facts (by
--   Facts/Copies).
-- - Agent/: runtime-go/internal/agent. Dispatcher is dispatcher.go with the ActionRequest and
--   ToolResult of runtime-go/internal/domain/action.go; Dispatcher/Pending and Dispatcher/Trace
--   are about its waiting requests. Deferred has the queue of deferred activations of
--   scheduler.go (setDeferred, removeDeferred, popDeferred), Runtime the state of agent.go with
--   agentStateLocked, and recordTransition and ensureSingleConversation of scheduler.go, about
--   which Runtime/Ended and Runtime/Conversations are; promoteNextDeferred, which comes back to
--   recordTransition, is its argument `promote`. Thinking has waitGestureStyle and
--   thinkingModeFor (Thinking/Mode says when that is off), with the ThinkingPolicy of
--   runtime-go/internal/config/settings.go. Guardrails has applyBehaviorGuardrails of
--   decision.go on the AgentDecision of runtime-go/internal/domain/agent.go, and
--   Guardrails/Reaction what it promises; Normalize has its normalizeAction and recentPosition,
--   and Normalize/Ready what a kept action has. Decision has the rest of decision.go, callTool,
--   stabilizeDecision, executeDecision and applySpeechPolicy, and Decision/Overlay what the
--   dialogue overlay blocks. Reasoning has the turn of scheduler.go, buildContextLocked,
--   emitWaitGesture and scheduleReasoning; Reasoning/Frame and Reasoning/Turn say what a turn
--   leaves alone. Scheduler has makeMeaningful, promoteNextDeferred, reactToEvent, ReleaseAll,
--   maybeScheduleIdleThinking and Tick; Scheduler/Queue and Scheduler/Promotion are about the
--   loop of the promotions.
-- - Dotenv/: runtime-go/internal/dotenv/dotenv.go, with Resolve of
--   runtime-go/internal/project/root.go. Text has splitLines, pyStrip, keyPattern and
--   stripWrappingQuotes, Parser has ParseEnvText and interpolate, Load has LoadEnvFile and
--   LoadEnv (Applied says what they do to the environment), and Upsert the text that
--   UpsertEnvFile writes. RoundTrip, about which Lines, Entry, Entries and Rewrite have the
--   lemmas, says what parsing that text gives.
-- - Backend/: runtime-go/internal/backend/rule.go. Reply has ruleReplyTo, Rule the rest of
--   Decide with its branches and shouldSpeak, which counts the draws from the generator;
--   Rule/Kept and Rule/Reacts say what decision.go's normalizeAction and applyBehaviorGuardrails
--   make of what it decides.
-- - Lore/: runtime-go/internal/lore/lore.go. Text has pyStrip, pySlice and trimSummary, Pack the
--   loading of the packs, Get, Character and Lookup, Context has ContextForProfileWithWorld, and
--   Bounds says what comes of it. Quest is runtime-go/internal/lore/quests.go, and Quest/Context
--   says what ContextFor gives, by Quest/Overrides on what the state changes.
-- - World/: runtime-go/internal/state/world.go and the WorldState of
--   runtime-go/internal/domain/world.go. World has every operation of the store; Recent is about
--   the applied events, Snapshot and Merged about GetMap. Snapshots are values: the live maps
--   that Get hands out are not followed as aliases.
-- - Common/: Boolean tests, lists, maps as association lists, a map with the slice of its keys,
--   equality and float64 as interfaces.
-- - Samples/: concrete inputs to which the theorems are applied.
--
-- Conventions. A pointer that may be nil and a result with an error are sums. A mutex makes each
-- method one step. Strings that the code reads rune by rune are lists of code points. float64 is
-- any type with the interface Float64, of which no order law is assumed; an int of sequence
-- numbers is a natural number, and other ints are the data type ℤ. Go maps are association
-- lists; where the code ranges over a map, the result does not depend on the order.
--
-- Parameters of the model: encoding/json, bytes.TrimSpace and the Unicode tables (record Env,
-- with the laws JsonLaws), strconv (record NumberText), fresh identifiers and the clock (record
-- Fresh, and the time that each ownership method takes). The runtime reaches what else it was
-- built with through interfaces: the registry of tools (record Tools, whose handlers reach what
-- is in their ToolContext: the world, the timeline and the dispatcher, but neither the owners
-- nor the queue), the backend (record Backend, which the rule backend fills), the profiles and
-- the lore (record Parts). A file operation on a timeline fails on a path that the disk calls
-- broken; the environment files, filepath and project.Root are the record Disk. The stream of
-- the rule backend's generator, strings.EqualFold's folding and the separators of a path are
-- functions, and what the files of lore and quests decode to is given as values. Where a loop
-- over a map stops at an error, the model takes the order of the list for the map's.
--
-- Fuel and bounds. match_at runs on fuel, the sum of the two lengths and one, since every call
-- advances in the name or in the pattern. tail_loop runs on the file's length, since no chunk is
-- empty. promote_rounds runs on the length of the deferred queue, since each round takes an NPC
-- from it and none is added. The scanner's limit of a line, 16 MiB, and the tail's chunk of 64
-- KiB are those of the source.
--
-- Not modelled: the message handlers, selectConversationTarget and the quest dialogue overlay of
-- the scheduler, the tools and the other settings, which are planned; EnvFilePath and the errors
-- of UpsertEnvFile; the LLM backend, the IPC server, the command line, the scenario runner, the
-- C++ bridge and the Python code, which are input and output, another language or a driver.
pub mod Common
pub mod Ownership
pub mod Domain
pub mod Eligibility
pub mod Timeline
pub mod World
pub mod Events
pub mod Agent
pub mod Dotenv
pub mod Backend
pub mod Lore
pub mod Samples
