-- ===== src/Policies.antt =====
-- memory/policy_hook.go and memory/write_policy.go: sanitizers and write policies, which see an
-- item before it is stored.
pub mod Chains
pub mod Decisions
use llm_agent_memory.Common.{
  Bool, true, false, not, none, some, Option, List, [], ◌∷◌, Text, codes, Dict, if◌then◌else◌,
}
use llm_agent_memory.Errors.{
  Error, Result, ok, err, rejected_by_policy, kind_reroute_unsupported, unknown_verdict,
  policy_manager_required, policy_required,
}
use llm_agent_memory.Contract.{Kind, kind_eq, Value, MemoryItem, zero_item}
use llm_agent_memory.Manager.{Manager, Memory, Method}
use llm_agent_memory.Manager
use llm_agent_memory.Observing.{
  Event, write_policy_decided, Observer, emit, Config, ConfigOption, new_config,
}

-- `(item, keep, err)`
abbrev pub Sanitizer : Type 0 → Type 0
Sanitizer W = Kind → MemoryItem → Method W (MemoryItem × Bool)

module _ {W : Type 0} where
  -- The loop over the chain in `sanitizingMemory.Add`.
  unfoldable pub sanitize_loop : Kind → List (Sanitizer W) → MemoryItem → Method W MemoryItem
  sanitize_loop kind [] cur w = (ok cur, w)
  sanitize_loop kind (s ∷ rest) cur w =
      let (r, w') = s kind cur w in
      elim r [
        | err e ↦ (err e, w')
        | ok (out, keep) ↦
            let next = sanitize_loop kind rest out w' in
            if keep then next else (err rejected_by_policy, w')
      ]

  unfoldable pub sanitizing_add : Memory W → List (Sanitizer W) → MemoryItem → Method W Text
  unfolding sanitize_loop
  sanitizing_add inner chain item w =
      let (r, w') = sanitize_loop inner.kind chain item w in
      elim r [ err e ↦ (err e, w') | ok cur ↦ inner.add cur w' ]

  -- The wrapper has the methods of `Memory` and no others, so no type assertion on it succeeds.
  unfoldable pub with_sanitizer : Memory W → List (Sanitizer W) → Memory W
  unfolding sanitizing_add
  with_sanitizer inner [] = inner
  with_sanitizer inner (s ∷ rest) = record inner {
    add = sanitizing_add inner (s ∷ rest);
    as_lister = none;
    as_exporter = none;
    as_importer = none;
  }

abbrev pub WriteSource : Type 0
WriteSource = Text

abbrev pub write_source_system : WriteSource
write_source_system = codes "system"

pub data Verdict : Type 0 where
  accept redact reject : Verdict
  unlisted : Text → Verdict

-- `string(decision.Verdict)`
unfoldable pub verdict_text : Verdict → Text
verdict_text accept = codes "accept"
verdict_text redact = codes "redact"
verdict_text reject = codes "reject"
verdict_text (Verdict.unlisted s) = s

-- This code only hands the hint to the policy.
pub record ProposedWrite : Type 0 where
  pub kind : Kind
  pub item : MemoryItem
  pub source : WriteSource
  pub hint : Option (Dict Value)

-- What the adapter proposes: a write of the system, without a hint.
abbrev pub system_write : Kind → MemoryItem → ProposedWrite
system_write kind item = record {
  kind = kind;
  item = item;
  source = write_source_system;
  hint = none;
}

pub record WritePolicyDecision : Type 0 where
  pub verdict : Verdict
  pub kind : Kind
  pub item : MemoryItem
  pub reason : Text

-- The event of a decision.
abbrev pub decided : ProposedWrite → WritePolicyDecision → Kind → Event
decided write d kind =
    write_policy_decided (verdict_text d.verdict) write.kind kind write.source d.reason

abbrev pub WritePolicy : Type 0 → Type 0
WritePolicy W = ProposedWrite → W → WritePolicyDecision × W

pub record PolicyEnforcingMemory (W : Type 0) : Type 0 where
  pub mgr : Manager W
  pub policy : WritePolicy W
  pub cfg : Config W

module _ {W : Type 0} where
  unfoldable pub new_policy_enforcing_memory :
      Option (Manager W)
      → Option (WritePolicy W)
      → List (ConfigOption W)
      → Result (PolicyEnforcingMemory W)
  new_policy_enforcing_memory none policy opts = err policy_manager_required
  new_policy_enforcing_memory (some m) none opts = err policy_required
  new_policy_enforcing_memory (some m) (some policy) opts =
      ok (record { mgr = m; policy = policy; cfg = new_config opts })

  -- What follows the decision `d` when it lets the item pass.
  unfoldable pub write_decided :
      PolicyEnforcingMemory W → ProposedWrite → WritePolicyDecision → Method W Text
  unfolding emit
  write_decided p write d w =
      let (r, w') = Manager.add p.mgr d.kind d.item w in
      elim r [
        | err e ↦ (err e, w')
        | ok id ↦ (ok id, emit p.cfg.observer (decided write d d.kind) w')
      ]

  unfoldable pub policy_add : PolicyEnforcingMemory W → ProposedWrite → Method W Text
  unfolding write_decided emit
  policy_add p write w =
      let (d, w') = p.policy write w in
      elim d.verdict [
        | accept ↦ write_decided p write d w'
        | redact ↦ write_decided p write d w'
        | reject ↦ (err rejected_by_policy, emit p.cfg.observer (decided write d write.kind) w')
        | Verdict.unlisted _ ↦ (err unknown_verdict, w')
      ]

  -- `PolicyAdapter.Sanitize`: a policy as a sanitizer.
  unfoldable pub policy_adapter : WritePolicy W → Sanitizer W
  unfolding kind_eq
  policy_adapter policy kind item w =
      let (d, w') = policy (system_write kind item) w in
      let pass = if kind_eq d.kind kind then ok (d.item, true) else err kind_reroute_unsupported in
      elim d.verdict [
        | accept ↦ (pass, w')
        | redact ↦ (pass, w')
        | reject ↦ (ok (zero_item, false), w')
        | Verdict.unlisted _ ↦ (err unknown_verdict, w')
      ]
