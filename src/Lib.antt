-- ===== src/Lib.antt =====
-- The planning core of VirtValidate (backend/app/core), which groups the VMs of an inventory and
-- arranges the groups in waves of a migration plan, and the state machine that says which VM
-- belongs to a plan.
--
-- The parts and their files:
--   Base           shared helpers: Boolean tests, lists, counts under a rearrangement, stable sorts,
--                  Python's str as a list of code points (Base/Texts) and dict as an association
--                  list in insertion order (Base/Dicts, Base/Keys).
--   Group          backend/app/core/preclassifier.py: GroupKey, RiskAssessment, HAMember, VMGroup.
--   Preclassifier  the rest of that file: the VM columns it reads (Source), detect_role and
--                  detect_state (Roles), assess_risk (Risk), the HA members and split_ha_group (Ha),
--                  _build_group (Build), _merge_groups and _consolidate (Merge), the three passes
--                  of _classify_within_primary (Cluster) and classify (Classify). The other modules
--                  are proofs: of one group (Formed, Members), of the clusters (Clusters,
--                  Ungrouped), of the consolidation (Consolidated), of classify (Whole, Kept, Result).
--   Planner        backend/app/core/planner.py: plan_with_groups, which runs classify, expands the
--                  HA groups, calls assign_waves of Skeleton and verifies the waves. Its proofs take
--                  the theorems of Preclassifier and Skeleton. Planner/Answers is _parse_group_plan and
--                  _parse_plan, which read the answer of a language model; the value that json.loads
--                  returns is their argument.
--   Family         backend/app/core/family.py: detect_family (Family/Names) and Stage 3,
--                  split_overconcentrated_families (Family/Split), which takes the groups of the
--                  pre-classifier and gives the groups that the wave skeleton packs.
--   Skeleton       backend/app/core/wave_skeleton.py: Wave and build_wave (Skeleton/Wave), the HA
--                  families (Skeleton/HaFamily), the split of oversized groups (Skeleton/Oversized),
--                  _topological_sort (Skeleton/Order), the packing loop (Skeleton/Packing) and
--                  assign_waves as a whole (Skeleton/Assign).
--   Lifecycle      backend/app/core/vm_lifecycle.py: every transition function, over a session with
--                  the rows of the table and the audit rows; Lifecycle/Moves is the state machine as
--                  a relation, Lifecycle/Calls a sequence of calls, Lifecycle/Outcomes
--                  what a created plan finds and leaves.
--   Environment    backend/app/core/environment.py: normalize and the cascade of detect_environment.
--   Concurrency    backend/app/core/concurrency.py: the colouring of the finished waves by
--                  concurrency groups, which reads the families of Family/Names.
--   Constraints    backend/app/core/wave_constraints.py: the checks of a layout that an operator
--                  rearranged, which read the families and caps of Family/Names.
--   Chunking       backend/app/core/plan_chunking.py: chunk_partition (Chunking/Balance, Chunking/Order),
--                  slug_for_plan_name (Chunking/Slugs) and compose_series_name (Chunking/Names). A
--                  selection is cut into plans before each is classified.
--   Editing        backend/app/core/plan_edit.py: the request and the rows (Editing), the membership
--                  and the moving loop (Editing/Waves), the checks that read the database
--                  (Editing/Checks, Editing/Targets), the first half of prepare (Editing/Request), its
--                  violations (Editing/Violations), the rebuilt documents (Editing/Docs,
--                  Editing/Rebuild), prepare as a whole (Editing/Prepare) and apply (Editing/Apply). It
--                  classifies a changed wave by Preclassifier, colours the plan by Concurrency, checks
--                  it by Constraints, and applies an edit by a call of Lifecycle. The proofs are of the
--                  moves (Moved, Conserved, Kept), of the rebuild (Rebuilt, Sound, Keyed, Whole), of
--                  prepare (Steps, Alone, Within, Result), of apply (Effects on the rows, Logged, Written,
--                  Applied) and of the numbers of new waves (Numbers).
--   Partitions     backend/app/core/plan_membership.py: the partition of a VM and of a plan, and
--                  vm_plan_index (Partitions/Newest), which Editing asks.
--   Examples       concrete data and runs.
--
-- A function of the source is a function of the same name, without the leading underscore. A
-- method of MechanicalWaveAssigner takes the two limits first. What a loop mutates is passed from
-- round to round; a RuntimeError is `none`, a LifecycleTransitionError is `refused`, as is a
-- PlanEditError with its cause, and an error of the planner is `failed` with its cause. The objects
-- that the planner mutates in place (the groups of a wave, the rows of a session) are reached by
-- one name at a time, so a changed value takes the place of the old one.
--
-- Bounds and fuel: `decimal n` has fuel n + 1, and each round divides n by 10. The batches of an
-- oversized group have as much fuel as the group has ids, and each round takes at least one. Kahn's
-- loop has as much fuel as there are groups and ends with no id ready. The search for a wave tries
-- the source's own range, up to max(min_wave + len(waves) + 2, 1024).
-- The merging loop of _consolidate has as much fuel as there are groups, and each round takes one
-- group away. The search for a colour has one round more than there are colours in use.
--
-- Simplifications: lower, upper, isdigit and isalnum are the ASCII ones, but for the slugs of
-- Chunking: there Python's lower() and isalnum() are an argument, the record StrMethods, and IsPython
-- says what they do with ASCII characters. A `$` at the end of a
-- pattern does not match before a newline. The rows that a SELECT returns come in the order of the
-- table, and a row's id is its primary key. A plan id and a VM id are natural numbers. The clock
-- is an argument. The values of the custom attributes are texts. A text column that is null is the
-- empty text. A pattern `\b(w1|w2)\b` looks for a word among the runs of ASCII letters, digits and
-- underscores. round(n / d) is taken on the exact fraction. `max_groups` is at least one. The
-- rationale texts of the waves are left out: they change no placement. The number of a plan in a
-- series has fewer than 62 digits. In the colouring, waves of one
-- number share the last colour of that number. `items_per_llm_call` is left out: the packing does
-- not read it.
--
-- The columns of the table of VMs stand in two lists, SourceVm for the ones that the classifier reads
-- and the rows of Lifecycle for the state. What an edit asks of target_resolution.py, of the mapping
-- check, of the assessment and of the YAML emitter are arguments, the record Services; a wave document
-- has the columns that an edit reads or decides on, without the texts for the reader.
--
-- Not modelled: the HTTP API, the database and the LLM client (I/O), the import of inventories, the
-- capture over SSH, the target resolution and the mappings, the assessment, the YAML of the waves, the
-- validation tiers and, of the planner, the prompts, the retries and the mechanical fallback.
pub mod Base
pub mod Group
pub mod Family
pub mod Skeleton
pub mod Lifecycle
pub mod Environment
pub mod Concurrency
pub mod Constraints
pub mod Preclassifier
pub mod Planner
pub mod Chunking
pub mod Editing
pub mod Partitions
mod Examples
