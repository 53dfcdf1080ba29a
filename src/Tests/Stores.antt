-- ===== src/Tests/Stores.antt =====
-- The store and its listing on concrete items.
use llm_agent_memory.Common.{
  ◌≡◌, ◌≢◌, refl, ◌+◌, ◌≤◌, ◌<◌, pos, true, false, none, some, List, [], ◌∷◌, Text, codes, text_eq,
  lookup, insert, erase, All, length, insertion_sort, insert_by, float_lt, is_nan, float_rank,
  positive_or, IsMap, Permᴰ, arith, Puts, Drops, ◌⊎◌, if◌then◌else◌,
}
use llm_agent_memory.Errors.{Error, ok, err, wrapped, not_found}
use llm_agent_memory.Contract.{
  MemoryItem, ListFilter, zero_scope, Snapshot, upsert, Vector, Kind, ImportReport, zero_item,
  Scope, text, text_map,
}
use llm_agent_memory.Store.{
  Store, new_store, query_embedding, assign_id, stamped, add, get, update, remove, updated,
}
use llm_agent_memory.Store.Branches.{stored}
use llm_agent_memory.Store.Invariant.{
  IsWellFormed, adds, gets, updates, removes, Call, run, run-IsWellFormed, new_store-IsWellFormed,
}
use llm_agent_memory.Store.Keyed.{IsKeyed}
use llm_agent_memory.Store.Behaviour.{
  add_lem, get-add, update_lem, remove_lem, AddStores, SameMaps, Reembeds,
}
use llm_agent_memory.Store.Interleaving.{CurrentAt, Steps}
use llm_agent_memory.Store.Races.{idle, Changes, update_races}
use llm_agent_memory.Scopes.{
  scope_key, scope_map, meta_value, read_scope, stamp_scope, read_scope-stamp_scope,
}
use llm_agent_memory.Listing.{candidates, max_int, matches_filter, listed_before}
use llm_agent_memory.Listing.Pages.{IsListing}
use llm_agent_memory.Listing.Complete.{IsEncodable}
use llm_agent_memory.Listing.Stores.{follow_store, follow-store, matching}
use llm_agent_memory.Snapshots.{import_into_store, import_loop, import_item}
use llm_agent_memory.Snapshots.Imports.{IsSound, import-IsSound, import-total}
use llm_agent_memory.Snapshots.Merging.{import_merge-lookup}
use llm_agent_memory.Contract.{merge}
use llm_agent_memory.Snapshots.RoundTrip.{import-export, IsEntry}
use llm_agent_memory.Snapshots.{export_from_store}
use llm_agent_memory.Contract.{replace}
use llm_agent_memory.Store.{snapshot_vectors}
use llm_agent_memory.Tests.Fixtures.{
  rt, rt-IsLawful, contract, codec, codec-IsFaithful, embedder, broken_embedder, first_item,
  second_item, unnamed_item,
}

abbrev renamed : MemoryItem → MemoryItem
renamed it = record it { content = codes "new" }

abbrev calls : List Call
calls =
    adds embedder 7 10 first_item
    ∷ adds embedder 8 11 unnamed_item
    ∷ adds broken_embedder 9 12 second_item
    ∷ gets 13 (codes "a")
    ∷ updates embedder 14 (codes "a") renamed
    ∷ removes (codes "b")
    ∷ []

abbrev empty_store : Store
empty_store = new_store (codes "wrk")

run-IsWellFormed_example : IsWellFormed (run calls empty_store)
run-IsWellFormed_example = run-IsWellFormed calls empty_store (new_store-IsWellFormed (codes "wrk"))

abbrev pub two_items : Store
two_items = record {
  items = (codes "a", first_item) ∷ (codes "b", second_item) ∷ [];
  vectors = (codes "a", some (codes "x")) ∷ (codes "b", some (codes "y")) ∷ [];
  prefix = codes "wrk";
  seq = 0;
}

abbrev added_id : Text
added_id = codes "wrk_7_1"

get-add_example :
    (get 12 (codes "a") (add embedder 7 10 first_item two_items).1).0
    ≡ ok (record (stored embedder 7 10 first_item two_items) { accessed_at = 12 })
unfolding add query_embedding assign_id stamped insert text_eq
get-add_example = get-add embedder 7 10 12 first_item two_items (codes "a") refl

add_lem_example :
    ((vec : Vector) × (query_embedding embedder 0
          (stored embedder 7 10 unnamed_item two_items).content
        ≡ ok vec)
      × AddStores embedder 7 10 unnamed_item two_items vec
          (add embedder 7 10 unnamed_item two_items))
    ⊎ ((x : Error) × (query_embedding embedder 0
            (stored embedder 7 10 unnamed_item two_items).content
          ≡ err x)
        × ((add embedder 7 10 unnamed_item two_items).0 ≡ err (wrapped x))
        × SameMaps two_items (add embedder 7 10 unnamed_item two_items).1)
add_lem_example = add_lem embedder 7 10 unnamed_item two_items

update_lem_example :
    ((lookup (codes "a") two_items.items ≡ none)
      × (update broken_embedder 9 (codes "a") renamed two_items ≡ (err not_found, two_items)))
    ⊎ ((item : MemoryItem) × (lookup (codes "a") two_items.items ≡ some item)
        × Puts
            (codes "a")
            (updated 9 renamed item)
            two_items.items
            (update broken_embedder 9 (codes "a") renamed two_items).1.items
        × Reembeds broken_embedder
            (codes "a")
            item
            (updated 9 renamed item)
            two_items.vectors
            (update broken_embedder 9 (codes "a") renamed two_items))
update_lem_example = update_lem broken_embedder 9 (codes "a") renamed two_items

two_items-IsMap : IsMap two_items.items
unfolding lookup text_eq
two_items-IsMap = (refl, (refl, tt))

two_items-IsKeyed : IsKeyed two_items.items
two_items-IsKeyed = (refl, (refl, tt))

pub two_items-IsWellFormed : IsWellFormed two_items
unfolding lookup text_eq
two_items-IsWellFormed = record {
  items_map = (refl, (refl, tt));
  vectors_map = (refl, (refl, tt));
  covered = λ k h. ground (arith, h);
}

remove_lem_example :
    ((lookup (codes "b") two_items.items ≡ none)
      × (remove (codes "b") two_items ≡ (err not_found, two_items)))
    ⊎ (((remove (codes "b") two_items).0 ≡ ok tt)
        × Drops (codes "b") two_items.items (remove (codes "b") two_items).1.items
        × Drops (codes "b") two_items.vectors (remove (codes "b") two_items).1.vectors
        × (length (remove (codes "b") two_items).1.items + 1 ≡ length two_items.items))
remove_lem_example = remove_lem (codes "b") two_items two_items-IsWellFormed

abbrev doubled : MemoryItem → MemoryItem
doubled it = record it { content = codes "newer" }

abbrev old_vector : Vector
old_vector = some (codes "new")

abbrev new_vector : Vector
new_vector = some (codes "newer")

Changes-renamed : Changes 9 renamed first_item
unfolding updated text_eq
Changes-renamed = refl

Changes-doubled : Changes 9 doubled (updated 9 renamed first_item)
unfolding updated text_eq
Changes-doubled = refl

vectors_differ : old_vector ≢ new_vector
vectors_differ h = cc h

update_races_example :
    ((t : Store) × Steps embedder (idle two_items) (idle t)
      × (lookup (codes "a") t.items ≡ none)
      × (lookup (codes "a") t.vectors ≡ some old_vector)
      × (¬ IsWellFormed t))
    × ((t : Store) × Steps embedder (idle two_items) (idle t)
        × (lookup (codes "a") t.items ≡ some (updated 9 doubled (updated 9 renamed first_item)))
        × (lookup (codes "a") t.vectors ≡ some old_vector)
        × (¬ CurrentAt embedder (codes "a") (idle t)))
unfolding lookup text_eq query_embedding updated
update_races_example =
    update_races embedder 9 (codes "a") renamed doubled first_item two_items old_vector new_vector
      refl Changes-renamed Changes-doubled refl refl vectors_differ

abbrev user_scope : Scope
user_scope = record { user = codes "u"; project = []; session = [] }

-- An item that has metadata of its own.
abbrev labelled_item : MemoryItem
labelled_item = record first_item { metadata = some ((codes "label", text (codes "x")) ∷ []) }

read_scope-stamp_scope_example :
    ((contract.scope_is_zero user_scope ≡ true)
      × (stamp_scope contract labelled_item user_scope ≡ labelled_item))
    ⊎ ((contract.scope_is_zero user_scope ≡ false)
        × (read_scope (stamp_scope contract labelled_item user_scope) ≡ user_scope)
        × (meta_value (codes "label") (stamp_scope contract labelled_item user_scope).metadata ≡ (
            if text_eq scope_key (codes "label")
            then some (text_map (scope_map user_scope))
            else meta_value (codes "label") labelled_item.metadata))
        × (record (stamp_scope contract labelled_item user_scope) {
          metadata = labelled_item.metadata;
        }
            ≡ labelled_item))
read_scope-stamp_scope_example =
    read_scope-stamp_scope contract labelled_item user_scope (codes "label")

-- The scope is not the zero scope.
user_scope_test : contract.scope_is_zero user_scope ≡ false
unfolding text_eq
user_scope_test = refl

abbrev no_filter : ListFilter
no_filter = record {
  include_disabled = true;
  pinned_only = false;
  source = [];
  category = [];
  scope = zero_scope;
  min_importance = 0;
  tags = [];
}

candidates_of_two : candidates rt contract two_items no_filter ≡ second_item ∷ first_item ∷ []
unfolding candidates matches_filter insertion_sort insert_by listed_before text_eq float_lt is_nan
    float_rank
candidates_of_two = refl

candidates-IsEncodable : All (IsEncodable codec) (candidates rt contract two_items no_filter)
unfolding text_eq
candidates-IsEncodable = rw candidates_of_two ((refl, (_, refl)), ((refl, (_, refl)), tt))

candidates-fit :
    length (candidates rt contract two_items no_filter) + positive_or 50 (pos 1) ≤ max_int
candidates-fit = rw candidates_of_two (omega arith)

candidates-bound : length (candidates rt contract two_items no_filter) < 3
candidates-bound = rw candidates_of_two (omega arith)

follow-store_example :
    (found : List MemoryItem) × (follow_store rt contract codec two_items no_filter (pos 1) 3 []
      ≡ some found)
    × Permᴰ found (matching rt contract two_items no_filter)
    × IsListing found
follow-store_example =
    follow-store rt rt-IsLawful contract codec codec-IsFaithful two_items no_filter (pos 1) 3
      two_items-IsMap two_items-IsKeyed candidates-IsEncodable candidates-fit candidates-bound

abbrev snapshot : Snapshot
snapshot = record {
  version = 1;
  kind = Kind.working;
  items =
      record { item = first_item; vector = none }
      ∷ record { item = zero_item; vector = some [] }
      ∷ record { item = second_item; vector = some (codes "v") }
      ∷ [];
}

import-IsSound_example : IsSound (import_into_store contract snapshot upsert two_items).1
import-IsSound_example =
    import-IsSound contract snapshot upsert two_items (two_items-IsWellFormed, two_items-IsKeyed)

abbrev report : ImportReport
report = record { loaded = 0; replaced = 2; skipped = 0; errors = 1 }

import-total_example :
    report.loaded + report.replaced + report.skipped + report.errors ≡ length snapshot.items
unfolding import_into_store import_loop import_item insert lookup erase text_eq
import-total_example = import-total contract snapshot upsert two_items report refl

import_merge-lookup_example :
    lookup (codes "b") (import_into_store contract snapshot merge two_items).1.items
    ≡ some second_item
unfolding lookup text_eq
import_merge-lookup_example =
    import_merge-lookup contract snapshot (codes "b") second_item two_items refl

pub two_items-IsEntry : All IsEntry two_items.items
unfolding text_eq
two_items-IsEntry = ((refl, refl), ((refl, refl), tt))

import-export_example :
    ((import_into_store contract
        (export_from_store rt contract two_items Kind.working)
        replace
        empty_store).0
      ≡ ok (record { loaded = 2; replaced = 0; skipped = 0; errors = 0 }))
    × ((k : Text)
        → lookup k
            (import_into_store contract
              (export_from_store rt contract two_items Kind.working)
              replace
              empty_store).1.items
          ≡ lookup k two_items.items)
    × ((k : Text)
        → lookup k
            (import_into_store contract
              (export_from_store rt contract two_items Kind.working)
              replace
              empty_store).1.vectors
          ≡ lookup k (snapshot_vectors two_items))
import-export_example =
    import-export rt rt-IsLawful contract two_items empty_store Kind.working two_items-IsWellFormed
      two_items-IsEntry
