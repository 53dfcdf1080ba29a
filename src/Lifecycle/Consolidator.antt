-- ===== src/Lifecycle/Consolidator.antt =====
-- memory/consolidator.go: promotion of working items into the episodic memory, at most once each.
use llm_agent_memory.Common.{
  ℕ, zero, suc, ◌==◌, ◌+◌, ◌*◌, ℤ, pos, negsuc, ltb_ℤ, leb_ℤ, time_sub, Bool, true, false, ◌&&◌,
  Option, none, some, List, [], ◌∷◌, Text, codes, insert, Float64, zero_float, float_0_7, float_lt,
  float_le, Runtime, length, if◌then◌else◌,
}
use llm_agent_memory.Errors.{Error, Result, ok, err, wrapped, manager_required}
use llm_agent_memory.Contract.{
  Time, working, episodic, Value, text, int, int64, float, time, MemoryItem, Snapshot, SnapshotItem,
  ConsolidateOptions,
}
use llm_agent_memory.Scopes.{meta_value, entries}
use llm_agent_memory.Observing.{
  add_total, consolidated_total, snapshot_items, snapshot_vectors_bytes, emit, Config, ConfigOption,
  new_config,
}
use llm_agent_memory.Manager.{Manager, Method}
use llm_agent_memory.Manager
use llm_agent_memory.Manager.FanOut.{KindMap}
use llm_agent_memory.Manager.Persistence.{export_all}
use llm_agent_memory.Lifecycle.Paging.{Listed, at_kind, list_all_paged}

abbrev pub consolidated_at_key : Text
consolidated_at_key = codes "_consolidated_at"

abbrev pub promoted_from_key : Text
promoted_from_key = codes "_promoted_from"

abbrev pub promotion_count_key : Text
promotion_count_key = codes "_promotion_count"

pub record Consolidator (W : Type 0) : Type 0 where
  pub mgr : Manager W
  pub cfg : Config W

unfoldable pub new_consolidator :
    {W : Type 0} → Option (Manager W) → List (ConfigOption W) → Result (Consolidator W)
new_consolidator none opts = err manager_required
new_consolidator (some m) opts = ok (record { mgr = m; cfg = new_config opts })

-- `int(v)` of a float64 is a parameter: the conversion to a 64-bit integer.
abbrev pub count_of_value : Runtime → Option Value → ℤ
count_of_value rt (some (int n)) = n
count_of_value rt (some (int64 n)) = n
count_of_value rt (some (float x)) = rt.to_duration x
count_of_value rt _ = pos 0

unfoldable pub promotion_count : Runtime → MemoryItem → ℤ
promotion_count rt it = count_of_value rt (meta_value promotion_count_key it.metadata)

-- `n + 1` of an int64, which wraps around at its largest value.
unfoldable pub incremented : ℤ → ℤ
incremented (pos n) = if n == 0x7fffffffffffffff then negsuc 0x7fffffffffffffff else pos (suc n)
incremented (negsuc zero) = pos 0
incremented (negsuc (suc n)) = negsuc n

-- `if opts.Threshold <= 0 { opts.Threshold = 0.7 }`
abbrev pub threshold_or_default : Float64 → Float64
threshold_or_default t = if float_le t zero_float then float_0_7 else t

-- The three `continue`s: whether the item is promoted.
unfoldable pub is_due : Runtime → Time → ConsolidateOptions → MemoryItem → Bool
is_due rt now opts it =
    if float_lt it.importance (threshold_or_default opts.threshold)
    then false
    else if ltb_ℤ (pos 0) opts.min_age && ltb_ℤ (time_sub now it.created_at) opts.min_age
    then false
    else if leb_ℤ (pos 1) (promotion_count rt it)
    then false
    else true

-- The clone that goes to the episodic memory; its metadata is a map of its own.
unfoldable pub promoted_clone : MemoryItem → MemoryItem
promoted_clone it = record it {
  id = [];
  metadata = some (insert promoted_from_key (text it.id) (entries it.metadata));
}

-- The function with which the source is updated. The count is read after the time was written.
unfoldable pub stamp_source : Runtime → Time → MemoryItem → MemoryItem
stamp_source rt now it =
    let dated : MemoryItem = record it {
      metadata = some (insert consolidated_at_key (time now) (entries it.metadata));
    } in
    record dated {
      metadata = some (
          insert promotion_count_key (int (incremented (promotion_count rt dated)))
            (entries dated.metadata));
    }

-- What `Consolidate` returns: the count so far, also beside an error.
abbrev pub Counted : Type 0
Counted = ℕ × Option Error

module _ {W : Type 0} (rt : Runtime) (con : Consolidator W) where
  -- The promotion of one item: an error of `Add`, or of `Update` once the clone has been added.
  unfoldable pub promote : Time → MemoryItem → Method W (Unit {0})
  promote now it w =
      let (r, w') = Manager.add con.mgr episodic (promoted_clone it) w in
      elim r [
        | err e ↦ (err (wrapped e), w')
        | ok _ ↦
            let w'' = emit con.cfg.observer (add_total episodic) w' in
            let (u, w''') = Manager.update con.mgr working it.id (stamp_source rt now) w'' in
            elim u [ err e ↦ (err (wrapped e), w''') | ok _ ↦ (ok tt, w''') ]
      ]

  -- The loop over the working items. Items are values: where one is listed twice, the code would
  -- see in the second copy what the first promotion wrote into a metadata map that the two share.
  unfoldable pub promote_loop : Time → ConsolidateOptions → List MemoryItem → ℕ → W → Counted × W
  promote_loop now opts [] count w = ((count, none), w)
  promote_loop now opts (it ∷ rest) count w = elim (is_due rt now opts it) [
    | false ↦ promote_loop now opts rest count w
    | true ↦
        let (r, w') = promote now it w in
        elim r [ err e ↦ ((count, some e), w') | ok _ ↦ promote_loop now opts rest (suc count) w' ]
  ]

  -- What follows the listing.
  unfoldable pub consolidate_listed : Time → ConsolidateOptions → Result Listed × W → Counted × W
  consolidate_listed now opts (err e, w) = ((0, some (wrapped e)), w)
  consolidate_listed now opts (ok out, w) =
      let ((count, failed), w') = promote_loop now opts (at_kind out working) 0 w in
      elim failed [
        | some e ↦ ((count, some e), w')
        | none ↦ ((count, none), emit con.cfg.observer (consolidated_total count) w')
      ]

  -- `none` means that the fuel of the listing ran out.
  unfoldable pub consolidate : ℕ → Time → ConsolidateOptions → W → Option (Counted × W)
  consolidate fuel now opts w = elim (list_all_paged rt fuel con.mgr (pos 200) w) [
    | none ↦ none
    | some listed ↦ some (consolidate_listed now opts listed)
  ]

  -- The bytes of the vectors of a snapshot.
  abbrev pub vector_bytes : List SnapshotItem → ℕ
  vector_bytes [] = 0
  vector_bytes (si ∷ rest) =
      (elim si.vector [ none ↦ 0 | some v ↦ length v * 4 ]) + vector_bytes rest

  -- The events of the snapshots.
  unfoldable pub emit_snapshots : KindMap Snapshot → W → W
  emit_snapshots [] w = w
  emit_snapshots ((k, snap) ∷ rest) w =
      let w' = emit con.cfg.observer (snapshot_items k (length snap.items)) w in
      emit_snapshots rest
        (emit con.cfg.observer (snapshot_vectors_bytes k (vector_bytes snap.items)) w')

  unfoldable pub consolidator_export_all : Text → Method W (KindMap Snapshot)
  consolidator_export_all key w =
      let ((snaps, failed), w') = export_all con.mgr rt key w in
      elim failed [ some e ↦ (err e, w') | none ↦ (ok snaps, emit_snapshots (rt.range snaps) w') ]
