-- ===== src/Tests/Restoring.antt =====
-- Restoring engines from a snapshot.
use llm_agent_memory.Common.{◌≡◌, pos, none, some}
use llm_agent_memory.Errors.{ok}
use llm_agent_memory.Contract.{working, semantic, episodic}
use llm_agent_memory.Snapshots.{export_from_store}
use llm_agent_memory.Engines.Working.{WorkingMemory, WorkingOptions}
use llm_agent_memory.Engines.Semantic.{SemanticMemory, SemanticOptions}
use llm_agent_memory.Engines.Episodic.{EpisodicMemory, EpisodicOptions}
use llm_agent_memory.Tiers.{restore_working, restore_semantic, restore_episodic}
use llm_agent_memory.Tiers.Restore.{Holds, restore-export}
use llm_agent_memory.Tests.Stores.{two_items, two_items-IsWellFormed, two_items-IsEntry}
use llm_agent_memory.Tests.Fixtures.{rt, rt-IsLawful, contract, embedder}

-- Fewer items fit than the snapshot has.
abbrev working_options : WorkingOptions
working_options = record { capacity = pos 1; decay = pos 1; saved_boost = 0 }

abbrev semantic_options : SemanticOptions
semantic_options = record { saved_boost = 0; vector_backend = none }

abbrev episodic_options : EpisodicOptions
episodic_options = record { recency_half_life_days = 0; saved_boost = 0; vector_backend = none }

restore-export_example :
    ((m : WorkingMemory) × (restore_working contract
          (some embedder)
          (export_from_store rt contract two_items working)
          working_options
        ≡ ok m)
      × Holds rt rt-IsLawful contract two_items two_items-IsWellFormed two_items-IsEntry m.store)
    × ((m : SemanticMemory) × (restore_semantic rt contract
            (some embedder)
            (export_from_store rt contract two_items semantic)
            semantic_options
          ≡ ok m)
        × Holds rt rt-IsLawful contract two_items two_items-IsWellFormed two_items-IsEntry m.store)
    × ((m : EpisodicMemory) × (restore_episodic rt contract
            (some embedder)
            (export_from_store rt contract two_items episodic)
            episodic_options
          ≡ ok m)
        × Holds rt rt-IsLawful contract two_items two_items-IsWellFormed two_items-IsEntry m.store)
restore-export_example =
    restore-export rt rt-IsLawful contract two_items two_items-IsWellFormed two_items-IsEntry
      embedder working_options semantic_options episodic_options
