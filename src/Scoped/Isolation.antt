-- ===== src/Scoped/Isolation.antt =====
-- What a scoped manager lets a caller see and touch.
use llm_agent_memory.Common.{
  true, false, ℤ, List, ◌≡◌, refl, sym, subst, ap, ◌∙◌, Text, inl, inr, All, keep_if-IsTrue,
}
use llm_agent_memory.Errors.{Error, ok, err, not_found, Result-cases}
use llm_agent_memory.Contract.{Kind, MemoryItem, SearchResult, Scope, Contract}
use llm_agent_memory.Scopes.{read_scope}
use llm_agent_memory.Manager
use llm_agent_memory.Scoped.{
  ScopedManager, in_scope, get, guarded, update, remove, filter_by_scope, search,
}

ok_inj : {A : Type 0} {a b : A} → ok a ≡ ok b → a ≡ b
ok_inj h = cc h

module _ {W : Type 0} (c : Contract) (scope : Scope) (sm : ScopedManager W) where
  abbrev pub IsInScope : SearchResult → Type 0
  IsInScope r = in_scope c scope sm r.item ≡ true

  pub outside_scope :
      (kind : Kind) (id : Text) (fn : MemoryItem → MemoryItem) (it : MemoryItem) (w w' : W)
      → Manager.get sm.inner kind id w ≡ (ok it, w')
      → c.scope_matches scope (read_scope it) ≡ false
      → (get c scope sm kind id w ≡ (err not_found, w'))
        × (update c scope sm kind id fn w ≡ (err not_found, w'))
        × (remove c scope sm kind id w ≡ (err not_found, w'))
  unfolding get update remove guarded
  outside_scope kind id fn it w w' found out = (
    rw (get, found, out) (ap (λ r. (err not_found, r.1)) found),
    rw (update, guarded, found, out) (ap (λ r. (err not_found, r.1)) found),
    rw (remove, guarded, found, out) (ap (λ r. (err not_found, r.1)) found),
  )

  pub inside_scope :
      (kind : Kind) (id : Text) (fn : MemoryItem → MemoryItem) (it : MemoryItem) (w w' : W)
      → Manager.get sm.inner kind id w ≡ (ok it, w')
      → c.scope_matches scope (read_scope it) ≡ true
      → (get c scope sm kind id w ≡ (ok it, w'))
        × (update c scope sm kind id fn w ≡ Manager.update sm.inner kind id fn w')
        × (remove c scope sm kind id w ≡ Manager.remove sm.inner kind id w')
  unfolding get update remove guarded
  inside_scope kind id fn it w w' found out = (
    rw (get, found, out) (ap (λ r. (ok it, r.1)) found),
    rw (update, guarded, found, out) (ap (λ r. Manager.update sm.inner kind id fn r.1) found),
    rw (remove, guarded, found, out) (ap (λ r. Manager.remove sm.inner kind id r.1) found),
  )

  pub no_item :
      (kind : Kind) (id : Text) (fn : MemoryItem → MemoryItem) (x : Error) (w w' : W)
      → Manager.get sm.inner kind id w ≡ (err x, w')
      → (get c scope sm kind id w ≡ (err x, w'))
        × (update c scope sm kind id fn w ≡ (err x, w'))
        × (remove c scope sm kind id w ≡ (err x, w'))
  unfolding get update remove guarded
  no_item kind id fn x w w' failed = (
    rw (get, failed) (ap (λ r. (err x, r.1)) failed),
    rw (update, guarded, failed) (ap (λ r. (err x, r.1)) failed),
    rw (remove, guarded, failed) (ap (λ r. (err x, r.1)) failed),
  )

  filter_by_scope-All :
      c.scope_is_zero scope ≡ false
      → (rs : List SearchResult) → All IsInScope (filter_by_scope c scope sm rs)
  unfolding filter_by_scope
  filter_by_scope-All z rs = rw z (keep_if-IsTrue (λ r. in_scope c scope sm r.item) rs)

  -- With a scope in the context, `Search` returns items of that scope only.
  pub search-IsInScope :
      (kind : Kind) (query : Text) (top_k : ℤ) (w : W) (rs : List SearchResult)
      → c.scope_is_zero scope ≡ false
      → (search c scope sm kind query top_k w).0 ≡ ok rs
      → All IsInScope rs
  unfolding search
  search-IsInScope kind query top_k w rs z h =
      elim (Result-cases (Manager.search sm.inner kind query top_k w).0) [
        | inl (raw, e) ↦
            subst (All IsInScope) (ok_inj (sym (rw (search, e) refl) ∙ h))
              (filter_by_scope-All z raw)
        | inr (x, e) ↦
            let failed : (search c scope sm kind query top_k w).0 ≡ err x = rw (search, e) refl in
            cc (h, failed)
      ]
