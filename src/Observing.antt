-- ===== src/Observing.antt =====
-- memory/observer.go: events, the observer that may be installed, and the options of constructors.
use llm_agent_memory.Common.{ℕ, Option, none, some, List, [], ◌∷◌, Text}
use llm_agent_memory.Contract.{Kind}

-- The events with their attributes; the constructor stands for the name.
pub data Event : Type 0 where
  add_total : Kind → Event
  search_total : ℕ → Event
  search_hits : ℕ → Event
  consolidated_total : ℕ → Event
  forgotten_total : Kind → ℕ → Event
  snapshot_items : Kind → ℕ → Event
  snapshot_vectors_bytes : Kind → ℕ → Event
  -- verdict, input kind, decided kind, source, reason
  write_policy_decided : Text → Kind → Kind → Text → Text → Event

-- An observer changes the world as it likes; `none` is the nil one.
abbrev pub Observer : Type 0 → Type 0
Observer W = Option (Event → W → W)

module _ {W : Type 0} where
  unfoldable pub emit : Observer W → Event → W → W
  emit none event w = w
  emit (some on_event) event w = on_event event w

pub record Config (W : Type 0) : Type 0 where
  pub observer : Observer W

-- A constructor's option; `none` is a nil one.
abbrev pub ConfigOption : Type 0 → Type 0
ConfigOption W = Option (Config W → Config W)

module _ {W : Type 0} where
  unfoldable pub with_observer : Observer W → ConfigOption W
  with_observer o = some (λ c. record c { observer = o })

  unfoldable pub apply_options : List (ConfigOption W) → Config W → Config W
  apply_options [] c = c
  apply_options (none ∷ opts) c = apply_options opts c
  apply_options (some opt ∷ opts) c = apply_options opts (opt c)

  unfoldable pub new_config : List (ConfigOption W) → Config W
  unfolding apply_options
  new_config opts = apply_options opts (record { observer = none })
