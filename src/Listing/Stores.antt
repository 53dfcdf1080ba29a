-- ===== src/Listing/Stores.antt =====
-- Listing a store: what the pages of a store hold together.
use mathlib.Core.List.Permᴰ
use mathlib.Core.Path.{fun_ext}
use llm_agent_memory.Common.{
  ◌≡◌, refl, ap, ◌∙◌, Option, none, pos, negsuc, zero, suc, ℕ, ◌+◌, ◌≤◌, ◌<◌, ℤ, true, false, some,
  List, [], ◌∷◌, Permᴰ, Text, text_lt_total, text_eq, text_eq_iff, IsMap, All, All-of, keep_if,
  keep_if-perm, IsSorted, Runtime, IsLawful, length, positive_or, arith,
}
use llm_agent_memory.Contract.{MemoryItem, Contract, ListFilter}
use llm_agent_memory.Store.{Store}
use llm_agent_memory.Store.Keyed.{
  IsKeyed, HasDistinctIds, values, values-HasDistinctIds, HasDistinctIds-perm,
  keep_if-HasDistinctIds,
}
use llm_agent_memory.Listing.{
  CursorCodec, IsFaithful, listed_before, matches_filter, candidates, list_page, list_from_store,
  max_int,
}
use llm_agent_memory.Listing.Pages.{IsListing, listed_before-IsStrictWeak}
use llm_agent_memory.Listing.Complete.{gather, follow, follow-listing, IsEncodable}

listed_before_of_not :
    (x y : MemoryItem)
    → listed_before y x ≡ false
    → text_eq x.id y.id ≡ false
    → listed_before x y ≡ true
unfolding listed_before
listed_before_of_not x y h d = ground (arith, text_lt_total x.id y.id, text_eq_iff x.id y.id)

All-after :
    (x : MemoryItem) (ys : List MemoryItem)
    → All (λ y. listed_before y x ≡ false) ys
    → All (λ y. text_eq x.id y.id ≡ false) ys
    → All (λ y. listed_before x y ≡ true) ys
All-after x [] h d = tt
All-after x (y ∷ ys) h d = (listed_before_of_not x y h.0 d.0, All-after x ys h.1 d.1)

IsListing-of_sorted :
    (xs : List MemoryItem) → IsSorted listed_before xs → HasDistinctIds xs → IsListing xs
IsListing-of_sorted [] s d = tt
IsListing-of_sorted (x ∷ xs) s d = (All-after x xs s.0 d.0, IsListing-of_sorted xs s.1 d.1)

abbrev pub matching : Runtime → Contract → Store → ListFilter → List MemoryItem
matching rt c s f = keep_if (λ it. matches_filter rt c it f) (values s.items)

module _ (rt : Runtime) (lawful : IsLawful rt) (c : Contract) (s : Store) (f : ListFilter) where
  pub candidates-perm : Permᴰ (candidates rt c s f) (matching rt c s f)
  unfolding candidates
  candidates-perm =
      Permᴰ.trans (lawful.sort-perm listed_before _)
        (keep_if-perm _ (Permᴰ.map _ (lawful.range-perm s.items)))

  pub candidates-IsListing : IsMap s.items → IsKeyed s.items → IsListing (candidates rt c s f)
  unfolding candidates
  candidates-IsListing u k =
      IsListing-of_sorted (candidates rt c s f)
        (lawful.sort-IsSorted (λ _. Unit) listed_before listed_before-IsStrictWeak _
          (All-of _ (λ _. tt) _))
        (HasDistinctIds-perm (Permᴰ.symm candidates-perm)
          (keep_if-HasDistinctIds _ _ (values-HasDistinctIds s.items u k)))

-- The client of `Listing.Complete` against the store itself.
unfoldable pub follow_store :
    Runtime → Contract → CursorCodec → Store → ListFilter → ℤ → ℕ → Text → Option (List MemoryItem)
follow_store rt c codec s f page_size zero cursor = none
follow_store rt c codec s f page_size (suc fuel) cursor =
    gather (list_from_store rt c codec s f page_size cursor)
      (follow_store rt c codec s f page_size fuel)

follow_store-follow :
    (rt : Runtime) (c : Contract) (codec : CursorCodec) (s : Store) (f : ListFilter) (page_size : ℤ)
    (fuel : ℕ) (cursor : Text)
    → follow_store rt c codec s f page_size fuel cursor
      ≡ follow codec (candidates rt c s f) (positive_or 50 page_size) fuel cursor
unfolding follow_store follow list_from_store
follow_store-follow rt c codec s f page_size zero cursor = refl
follow_store-follow rt c codec s f page_size (suc fuel) cursor =
    ap (gather (list_page codec (candidates rt c s f) (positive_or 50 page_size) cursor))
      (fun_ext (follow_store-follow rt c codec s f page_size fuel))

positive_or_pos : (k : ℤ) → 0 < positive_or 50 k
positive_or_pos (pos zero) = omega arith
positive_or_pos (pos (suc n)) = omega arith
positive_or_pos (negsuc n) = omega arith

-- A client that lists a store whose items stand under their own ids, page by page and with whatever
-- filter and page size, collects exactly the items that match, each once, newest first and by id
-- among items of one time. (The store does not change meanwhile; cursors can be encoded; the page
-- size does not overflow an int.)
pub follow-store :
    (rt : Runtime) (lawful : IsLawful rt) (c : Contract) (codec : CursorCodec)
    (faithful : IsFaithful codec) (s : Store) (f : ListFilter) (page_size : ℤ) (fuel : ℕ)
    → IsMap s.items
    → IsKeyed s.items
    → All (IsEncodable codec) (candidates rt c s f)
    → length (candidates rt c s f) + positive_or 50 page_size ≤ max_int
    → length (candidates rt c s f) < fuel
    → (found : List MemoryItem) × (follow_store rt c codec s f page_size fuel [] ≡ some found)
      × Permᴰ found (matching rt c s f)
      × IsListing found
follow-store rt lawful c codec faithful s f page_size fuel u k encodable fits enough = (
  candidates rt c s f,
  follow_store-follow rt c codec s f page_size fuel []
      ∙ follow-listing codec faithful (candidates rt c s f) (positive_or 50 page_size)
          (candidates-IsListing rt lawful c s f u k) encodable (positive_or_pos page_size) fits fuel
          enough,
  candidates-perm rt lawful c s f,
  candidates-IsListing rt lawful c s f u k,
)
