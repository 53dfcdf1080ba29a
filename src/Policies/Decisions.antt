-- ===== src/Policies/Decisions.antt =====
-- The two ways of enforcing a write policy, against each other.
use llm_agent_memory.Common.{
  Bool, true, false, none, [], ◌∷◌, ◌≡◌, refl, sym, ap, ◌∙◌, Text, inl, inr, text_eq_refl,
}
use llm_agent_memory.Errors.{Result, ok, err, rejected_by_policy, unknown_verdict, Result-cases}
use llm_agent_memory.Contract.{Kind, MemoryItem, zero_item, kind_eq}
use llm_agent_memory.Manager.{Memory, Method, Manager, require_memory, dispatch}
use llm_agent_memory.Manager
use llm_agent_memory.Policies.Chains.{continued, proceed, sanitize_loop-cons, add-with_sanitizer}
use llm_agent_memory.Observing.{emit}
use llm_agent_memory.Policies.{
  sanitize_loop, with_sanitizer, WritePolicyDecision, ProposedWrite, PolicyEnforcingMemory,
  policy_add, policy_adapter, write_decided, decided, system_write, Verdict, accept, redact, reject,
}

kind_eq_refl : (k : Kind) → kind_eq k k ≡ true
unfolding kind_eq
kind_eq_refl Kind.working = refl
kind_eq_refl Kind.episodic = refl
kind_eq_refl Kind.semantic = refl
kind_eq_refl (Kind.unlisted s) = text_eq_refl s

module _ {W : Type 0} (p : PolicyEnforcingMemory W) (mem : Memory W) (item : MemoryItem)
    (w : W) where
  abbrev write : ProposedWrite
  write = system_write mem.kind item

  -- What both ways come to.
  abbrev settled : Verdict → WritePolicyDecision → W → Result Text × W
  settled accept d v = mem.add d.item v
  settled redact d v = mem.add d.item v
  settled reject d v = (err rejected_by_policy, v)
  settled (Verdict.unlisted s) d v = (err unknown_verdict, v)

  module _ (silent : p.cfg.observer ≡ none) (tier : require_memory p.mgr mem.kind ≡ ok mem) where
    added :
        (d : WritePolicyDecision) (v : W)
        → d.kind ≡ mem.kind
        → Manager.add p.mgr d.kind d.item v ≡ mem.add d.item v
    unfolding Manager.add dispatch
    added d v same = rw (Manager.add, same, tier) refl

    -- The end of a write, with its event.
    abbrev reported : WritePolicyDecision → Result Text × W → Result Text × W
    reported d (err e, v) = (err e, v)
    reported d (ok id, v) = (ok id, emit p.cfg.observer (decided write d d.kind) v)

    reported_silent : (d : WritePolicyDecision) (r : Result Text × W) → reported d r ≡ r
    unfolding emit
    reported_silent d (err e, v) = refl
    reported_silent d (ok id, v) = rw silent refl

    write_decided-reported :
        (d : WritePolicyDecision) (v : W)
        → write_decided p write d v ≡ reported d (Manager.add p.mgr d.kind d.item v)
    unfolding write_decided
    write_decided-reported d v = elim (Result-cases (Manager.add p.mgr d.kind d.item v).0) [
      | inl (id, e) ↦ rw (write_decided, e) refl
      | inr (x, e) ↦ rw (write_decided, e) refl
    ]

    write_decided_lem :
        (d : WritePolicyDecision) (v : W)
        → d.kind ≡ mem.kind
        → write_decided p write d v ≡ mem.add d.item v
    write_decided_lem d v same =
        write_decided-reported d v ∙ ap (reported d) (added d v same) ∙ reported_silent d _

    policy_add-settled :
        (vd : Verdict)
        → (p.policy write w).0.verdict ≡ vd
        → (p.policy write w).0.kind ≡ mem.kind
        → policy_add p write w ≡ settled vd (p.policy write w).0 (p.policy write w).1
    unfolding policy_add emit
    policy_add-settled accept e same =
        simp (policy_add, e) (write_decided_lem (p.policy write w).0 (p.policy write w).1 same)
    policy_add-settled redact e same =
        simp (policy_add, e) (write_decided_lem (p.policy write w).0 (p.policy write w).1 same)
    policy_add-settled reject e same = simp (policy_add, e, silent) refl
    policy_add-settled (Verdict.unlisted s) e same = simp (policy_add, e) refl

  -- The policy as a sanitizer, on each verdict.
  abbrev adapted : Verdict → WritePolicyDecision → W → Result (MemoryItem × Bool) × W
  adapted accept d v = (ok (d.item, true), v)
  adapted redact d v = (ok (d.item, true), v)
  adapted reject d v = (ok (zero_item, false), v)
  adapted (Verdict.unlisted s) d v = (err unknown_verdict, v)

  adapter_adapted :
      (vd : Verdict)
      → (p.policy write w).0.verdict ≡ vd
      → (p.policy write w).0.kind ≡ mem.kind
      → policy_adapter p.policy mem.kind item w
        ≡ adapted vd (p.policy write w).0 (p.policy write w).1
  unfolding policy_adapter
  adapter_adapted accept e same = simp (policy_adapter, e, same, kind_eq_refl mem.kind) refl
  adapter_adapted redact e same = simp (policy_adapter, e, same, kind_eq_refl mem.kind) refl
  adapter_adapted reject e same = simp (policy_adapter, e) refl
  adapter_adapted (Verdict.unlisted s) e same = simp (policy_adapter, e) refl

  adapted-settled :
      (vd : Verdict) (d : WritePolicyDecision) (v : W)
      → continued (proceed mem.kind [] (adapted vd d v)) mem.add ≡ settled vd d v
  unfolding sanitize_loop
  adapted-settled accept d v = refl
  adapted-settled redact d v = refl
  adapted-settled reject d v = refl
  adapted-settled (Verdict.unlisted s) d v = refl

  adapter_settled :
      (vd : Verdict)
      → (p.policy write w).0.verdict ≡ vd
      → (p.policy write w).0.kind ≡ mem.kind
      → (with_sanitizer mem (policy_adapter p.policy ∷ [])).add item w
        ≡ settled vd (p.policy write w).0 (p.policy write w).1
  adapter_settled vd e same =
      add-with_sanitizer mem (policy_adapter p.policy ∷ []) item w
      ∙ ap (λ r. continued r mem.add)
          (sanitize_loop-cons mem.kind (policy_adapter p.policy) [] item w)
      ∙ ap (λ r. continued (proceed mem.kind [] r) mem.add) (adapter_adapted vd e same)
      ∙ adapted-settled vd _ _

-- For a manager without an observer, a tier that it has, a policy that never changes the kind of a
-- write, and a write whose source is the system and that has no hint (a policy may decide another
-- write differently): the write through the policy-enforcing memory and an `Add` to the tier's
-- memory wrapped in the policy as a sanitizer give the same result and leave the same world.
pub policy_add-policy_adapter :
    {W : Type 0} (p : PolicyEnforcingMemory W) (mem : Memory W) (item : MemoryItem) (w : W)
    → p.cfg.observer ≡ none
    → require_memory p.mgr mem.kind ≡ ok mem
    → ((write : ProposedWrite) (v : W) → (p.policy write v).0.kind ≡ write.kind)
    → policy_add p (system_write mem.kind item) w
      ≡ (with_sanitizer mem (policy_adapter p.policy ∷ [])).add item w
policy_add-policy_adapter p mem item w silent tier same =
    let keeps = same (write p mem item w) w in
    policy_add-settled p mem item w silent tier _ refl keeps
    ∙ sym (adapter_settled p mem item w _ refl keeps)
