-- ===== src/Store/Keyed.antt =====
-- Every item of a store is kept under its own id.
use llm_agent_memory.Common.{
  Pairwise, Pairwise-perm, ◌≡◌, refl, sym, ℕ, Bool, false, none, some, List, [], ◌∷◌, map, Permᴰ,
  Text, text_eq, text_eq_iff, Dict, lookup, insert, erase, IsMap, All, All-keep_if, keep_if, ◌∙◌,
  Option-cases, inl, inr, arith, subst,
}
use llm_agent_memory.Errors.{Result-cases}
use llm_agent_memory.Contract.{Time, MemoryItem}
use llm_agent_memory.Store.{Store, Embedder, query_embedding, add, get, update, remove, updated}
use llm_agent_memory.Store.Branches.{
  stored, add_embedded, add_refused, get_missing, get_found, remove_missing, remove_found,
  update_missing, update_found, changed,
}
use llm_agent_memory.Store.Behaviour.{SameMaps-named, items-reembed}
use llm_agent_memory.Store.Invariant.{Call, adds, gets, updates, removes, step, run}

abbrev pub IsKeyed : Dict MemoryItem → Type 0
IsKeyed m = All (λ (k, item). item.id ≡ k) m

pub insert-IsKeyed :
    (item : MemoryItem) (m : Dict MemoryItem) → IsKeyed m → IsKeyed (insert item.id item m)
unfolding insert
insert-IsKeyed item [] h = (refl, tt)
insert-IsKeyed item ((j, w) ∷ m) h = ground (arith, insert-IsKeyed item m h.1)

put-IsKeyed :
    (k : Text) (item : MemoryItem) (m : Dict MemoryItem)
    → item.id ≡ k
    → IsKeyed m
    → IsKeyed (insert k item m)
put-IsKeyed k item m e h = subst (λ z. IsKeyed (insert z item m)) e (insert-IsKeyed item m h)

erase-IsKeyed : (k : Text) (m : Dict MemoryItem) → IsKeyed m → IsKeyed (erase k m)
unfolding erase
erase-IsKeyed k [] h = tt
erase-IsKeyed k ((j, w) ∷ m) h = ground (arith, erase-IsKeyed k m h.1)

lookup-id :
    (k : Text) (m : Dict MemoryItem) (item : MemoryItem)
    → IsKeyed m
    → lookup k m ≡ some item
    → item.id ≡ k
unfolding lookup
lookup-id k [] item h e = cc
lookup-id k ((j, w) ∷ m) item h e = ground (arith, lookup-id k m item h.1, text_eq_iff j k)

abbrev Differs : MemoryItem → MemoryItem → Type 0
Differs x y = text_eq x.id y.id ≡ false

-- The items of a map, no two with the same id.
abbrev pub HasDistinctIds : List MemoryItem → Type 0
HasDistinctIds = Pairwise Differs

abbrev pub values : Dict MemoryItem → List MemoryItem
values m = map (λ (_, it). it) m

fresh_id :
    (k : Text) (m : Dict MemoryItem)
    → lookup k m ≡ none
    → IsKeyed m
    → All (λ y. text_eq k y.id ≡ false) (values m)
unfolding lookup
fresh_id k [] e h = tt
fresh_id k ((j, w) ∷ m) e h = ground (arith, fresh_id k m, text_eq_iff j k, text_eq_iff k w.id)

pub values-HasDistinctIds : (m : Dict MemoryItem) → IsMap m → IsKeyed m → HasDistinctIds (values m)
values-HasDistinctIds [] u h = tt
values-HasDistinctIds ((j, w) ∷ m) u h = (
  subst (λ z. All (λ y. text_eq z y.id ≡ false) (values m)) (sym h.0) (fresh_id j m u.0 h.1),
  values-HasDistinctIds m u.1 h.1,
)

text_eq_comm : (s t : Text) → text_eq s t ≡ text_eq t s
text_eq_comm s t = ground (arith, text_eq_iff s t, text_eq_iff t s)

pub HasDistinctIds-perm :
    {xs ys : List MemoryItem} → Permᴰ xs ys → HasDistinctIds xs → HasDistinctIds ys
HasDistinctIds-perm p h = Pairwise-perm Differs (λ x y d. text_eq_comm y.id x.id ∙ d) p h

pub keep_if-HasDistinctIds :
    (p : MemoryItem → Bool) (xs : List MemoryItem)
    → HasDistinctIds xs
    → HasDistinctIds (keep_if p xs)
keep_if-HasDistinctIds p [] h = tt
keep_if-HasDistinctIds p (x ∷ xs) h =
    ground (arith, All-keep_if (Differs x) p xs h.0, keep_if-HasDistinctIds p xs h.1)

module _ (e : Embedder) (stamp : ℕ) (now : Time) (item : MemoryItem) (s : Store)
    (h : IsKeyed s.items) where
  add-IsKeyed : IsKeyed (add e stamp now item s).1.items
  add-IsKeyed =
      let new : MemoryItem = stored e stamp now item s in
      elim (Result-cases (query_embedding e 0 new.content)) [
        | inl (vec, found) ↦
            rw (add_embedded e stamp now item s vec found, (SameMaps-named e stamp now item s).0)
              (insert-IsKeyed new s.items h)
        | inr (x, failed) ↦
            rw (add_refused e stamp now item s x failed, (SameMaps-named e stamp now item s).0) h
      ]

get-IsKeyed :
    (now : Time) (id : Text) (s : Store) → IsKeyed s.items → IsKeyed (get now id s).1.items
get-IsKeyed now id s h = elim (Option-cases (lookup id s.items)) [
  | inl missing ↦ rw (get_missing now id s missing) h
  | inr (item, found) ↦
      rw (get_found now id s item found)
        (put-IsKeyed id _ s.items (lookup-id id s.items item h found) h)
]

remove-IsKeyed : (id : Text) (s : Store) → IsKeyed s.items → IsKeyed (remove id s).1.items
remove-IsKeyed id s h = elim (Option-cases (lookup id s.items)) [
  | inl missing ↦ rw (remove_missing id s missing) h
  | inr (item, found) ↦ rw (remove_found id s item found) (erase-IsKeyed id s.items h)
]

update-IsKeyed :
    (e : Embedder) (now : Time) (id : Text) (fn : MemoryItem → MemoryItem) (s : Store)
    → ((item : MemoryItem) → (fn item).id ≡ item.id)
    → IsKeyed s.items
    → IsKeyed (update e now id fn s).1.items
update-IsKeyed e now id fn s keeps h = elim (Option-cases (lookup id s.items)) [
  | inl missing ↦ rw (update_missing e now id fn s missing) h
  | inr (item, found) ↦
      rw (update_found e now id fn s item found, items-reembed e id (changed now id fn s item))
        (put-IsKeyed id _ s.items (unfold updated in keeps item ∙ lookup-id id s.items item h found)
          h)
]

-- A caller's function that leaves ids alone, where the call has one.
abbrev pub KeepsIds : Call → Type 0
KeepsIds (updates e now id fn) = (item : MemoryItem) → (fn item).id ≡ item.id
KeepsIds _ = Unit

step-IsKeyed : (c : Call) (s : Store) → KeepsIds c → IsKeyed s.items → IsKeyed (step c s).items
step-IsKeyed (adds e stamp now item) s k h = add-IsKeyed e stamp now item s h
step-IsKeyed (gets now id) s k h = get-IsKeyed now id s h
step-IsKeyed (updates e now id fn) s k h = update-IsKeyed e now id fn s k h
step-IsKeyed (removes id) s k h = remove-IsKeyed id s h

-- As long as no update changes an id, every item stays under its own id.
pub run-IsKeyed :
    (cs : List Call) (s : Store) → All KeepsIds cs → IsKeyed s.items → IsKeyed (run cs s).items
run-IsKeyed [] s k h = h
run-IsKeyed (c ∷ cs) s k h = run-IsKeyed cs (step c s) k.1 (step-IsKeyed c s k.0 h)
