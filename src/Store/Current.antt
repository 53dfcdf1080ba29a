-- ===== src/Store/Current.antt =====
-- The calls of engine_scored_store.go side by side: the second step of `update`, and then
-- any sequence of steps.
use llm_agent_memory.Common.{
  ◌≡◌, ◌≢◌, ◌⊎◌, inl, inr, refl, sym, ◌∙◌, ap, subst, [], ◌∷◌, some, Text, text_eq, text_eq_refl,
  lookup, insert, lookup-insert, true, false, if◌then◌else◌, arith, Bool-cases,
}
use llm_agent_memory.Errors.{Error, ok, err, Result-cases}
use llm_agent_memory.Contract.{Vector, MemoryItem}
use llm_agent_memory.Store.{Store, Embedder, query_embedding, reembed, update_vector}
use llm_agent_memory.Store.Branches.{stored}
use llm_agent_memory.Store.Interleaving.{
  Waiting, Shared, waiting_for, Picks, here, there, Step, adds, gets, removes, begins_update,
  ends_update, Spares, IsSettled, CurrentAt, Reach, start, later,
}
use llm_agent_memory.Store.Locked.{
  IsCurrent-waits, same_key, add-CurrentAt, get-CurrentAt, remove-CurrentAt, begin-CurrentAt,
}

picks_other :
    (k id : Text) (p : MemoryItem) {rest ws : Waiting}
    → text_eq id k ≡ false
    → Picks (id, p) rest ws
    → waiting_for k ws ≡ waiting_for k rest
picks_other k id p h here = rw h refl
picks_other k id p h (there {v = v} q) =
    ap (λ z. if text_eq v.0 k then v.1 ∷ z else z) (picks_other k id p h q)

picks_some :
    (id : Text) (p : MemoryItem) {rest ws : Waiting}
    → Picks (id, p) rest ws
    → waiting_for id ws ≢ []
picks_some id p here h = ground (arith, text_eq_refl id)
picks_some id p (there {v = v} q) h = ground (arith, picks_some id p q)

picks_only :
    (id : Text) (p p' : MemoryItem) {rest ws : Waiting}
    → Picks (id, p) rest ws
    → waiting_for id ws ≡ p' ∷ []
    → (p' ≡ p) × (waiting_for id rest ≡ [])
picks_only id p p' here h = ground (arith, text_eq_refl id)
picks_only id p p' (there {v = v} q) h = ground (arith, picks_only id p p' q, picks_some id p q)

module _ (e : Embedder) where
  pub reembed_found :
      (id : Text) (p : MemoryItem) (s : Store) (vec : Vector)
      → query_embedding e 0 p.content ≡ ok vec
      → (reembed e id (some p) s).1 ≡ record s { vectors = insert id vec s.vectors }
  unfolding reembed update_vector
  reembed_found id p s vec h = rw (h, reembed) refl

  reembed_failed :
      (id : Text) (p : MemoryItem) (s : Store) (x : Error)
      → query_embedding e 0 p.content ≡ err x
      → (reembed e id (some p) s).1 ≡ s
  unfolding reembed
  reembed_failed id p s x h = rw (h, reembed) refl

  module _ (k id : Text) (p : MemoryItem) (s : Store) {rest ws : Waiting}
      (picks : Picks (id, p) rest ws) (h : CurrentAt e k (record { store = s; waiting = ws })) where
    end_other :
        text_eq id k ≡ false
        → CurrentAt e k (record { store = (reembed e id (some p) s).1; waiting = rest })
    end_other other = elim (Result-cases (query_embedding e 0 p.content)) [
      | inl (vec, found) ↦
          rw (reembed_found id p s vec found, lookup-insert id k vec s.vectors)
            (rw (other, sym (picks_other k id p other picks)) h)
      | inr (x, failed) ↦
          rw (reembed_failed id p s x failed, sym (picks_other k id p other picks)) h
    ]

    end_same :
        (vec : Vector)
        → query_embedding e 0 p.content ≡ ok vec
        → id ≡ k
        → CurrentAt e k (record { store = (reembed e id (some p) s).1; waiting = rest })
    end_same vec found same =
        let some_waits = subst (λ z. waiting_for z ws ≢ []) same (picks_some id p picks) in
        let (item, p', stored, one, agree) = IsCurrent-waits e _ _ _ some_waits h in
        let (first, others) =
          picks_only id p p' picks (subst (λ z. waiting_for z ws ≡ p' ∷ []) (sym same) one) in
        rw
          (
            reembed_found id p s vec found,
            lookup-insert id k vec s.vectors,
            stored,
            subst (λ z. waiting_for z rest ≡ []) same others,
            subst (λ z. text_eq id z ≡ true) same (text_eq_refl id),
          )
          (ap (query_embedding e 0) (agree ∙ ap (λ q. q.content) first) ∙ found)

    end-CurrentAt :
        (id ≢ k) ⊎ ((v : Vector) × (query_embedding e 0 p.content ≡ ok v))
        → CurrentAt e k (record { store = (reembed e id (some p) s).1; waiting = rest })
    end-CurrentAt spares = elim (Bool-cases (text_eq id k)) [
      | inr other ↦ end_other other
      | inl same ↦ elim spares [
        | inl differ ↦ absurd (differ (same_key e id k same))
        | inr (vec, found) ↦ end_same vec found (same_key e id k same)
      ]
    ]

  Step-CurrentAt :
      (k : Text) {s t : Shared} (move : Step e s t)
      → Spares e k move
      → CurrentAt e k s
      → CurrentAt e k t
  Step-CurrentAt k {s} (adds stamp now item) spares h =
      add-CurrentAt e k s.waiting stamp now item s.store spares h
  Step-CurrentAt k {s} (gets now id) spares h = get-CurrentAt e k s.waiting now id s.store h
  Step-CurrentAt k {s} (removes id) spares h = remove-CurrentAt e k s.waiting id s.store spares h
  Step-CurrentAt k {s} (begins_update now id fn) spares h =
      begin-CurrentAt e k s.waiting now id fn s.store spares h
  Step-CurrentAt k {s} (ends_update id p picks) spares h =
      end-CurrentAt k id p s.store picks h spares

  -- Whatever order the locked steps of concurrent calls take, from a store with nothing waiting in
  -- which `k` is settled: if nobody adds, updates or removes `k` while an update of it embeds, and
  -- that embedding succeeds, then `k` has neither item nor vector, or an item with the vector of
  -- its content, or one waiting update, which embeds the content that the item has.
  pub Reach-CurrentAt :
      (k : Text) {s t : Shared}
      → IsSettled e (lookup k s.store.items) (lookup k s.store.vectors)
      → s.waiting ≡ []
      → Reach e k s t
      → CurrentAt e k t
  Reach-CurrentAt k settled idle start = rw idle settled
  Reach-CurrentAt k settled idle (later r move spares) =
      Step-CurrentAt k move spares (Reach-CurrentAt k settled idle r)
