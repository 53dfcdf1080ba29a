-- ===== src/Listing.antt =====
-- memory/engine_list.go: listing a store by pages. A cursor names the last item of a page by its
-- creation time and id.
pub mod Pages
pub mod OnePage
pub mod Complete
pub mod Stores
use llm_agent_memory.Common.{
  ◌≡◌, ℕ, suc, ◌+◌, ◌-◌, ℤ, pos, Bool, true, false, not, ◌&&◌, ◌||◌, Option, none, some, List, [],
  ◌∷◌, map, Text, text_eq, text_lt, text_in, Dict, Float64, zero_float, float_lt, Runtime, ltb, leb,
  ◌==◌, positive_or, length, take, drop, keep_if, any_by, if◌then◌else◌,
}
use llm_agent_memory.Errors.{Error, Result, ok, err, wrapped, bad_cursor, panicked, ◌>>=◌}
use llm_agent_memory.Contract.{Time, MemoryItem, Contract, ListFilter, ListPage}
use llm_agent_memory.Scopes.{read_scope}
use llm_agent_memory.Scoring.{to_lower}
use llm_agent_memory.Store.{Store}

pub record ListCursor : Type 0 where
  pub after_created_at : Time
  pub after_id : Text

abbrev pub zero_cursor : ListCursor
zero_cursor = record { after_created_at = 0; after_id = [] }

-- `encoding/json` followed by `encoding/base64`, and back; either way may fail.
pub record CursorCodec : Type 0 where
  pub encode : ListCursor → Option Text
  pub decode : Text → Option ListCursor

-- What is encoded is decoded again, and is not empty.
pub record IsFaithful (codec : CursorCodec) : Type 0 where
  pub decode-encode :
      (c : ListCursor) (t : Text) → codec.encode c ≡ some t → codec.decode t ≡ some c
  pub encode_ne_nil : (c : ListCursor) (t : Text) → codec.encode c ≡ some t → text_eq t [] ≡ false

unfoldable pub encode_cursor : CursorCodec → ListCursor → Result Text
encode_cursor codec c = elim (codec.encode c) [ none ↦ err bad_cursor | some t ↦ ok t ]

unfoldable pub decode_cursor : CursorCodec → Text → Result ListCursor
decode_cursor codec s =
    if text_eq s []
    then ok zero_cursor
    else elim (codec.decode s) [ none ↦ err (wrapped bad_cursor) | some c ↦ ok c ]

module _ (rt : Runtime) (c : Contract) where
  -- Whether the item has one of the tags, case ignored.
  abbrev pub has_tag : MemoryItem → List Text → Bool
  has_tag it tags = any_by (λ q. text_in (to_lower rt q) (map (to_lower rt) it.tags)) tags

  unfoldable pub matches_filter : MemoryItem → ListFilter → Bool
  matches_filter it f =
      if not f.include_disabled && c.is_disabled it
      then false
      else if f.pinned_only && not (c.is_pinned it)
      then false
      else if not (text_eq f.source []) && not (text_eq (c.get_source it) f.source)
      then false
      else if not (text_eq f.category []) && not (text_eq (c.get_category it) f.category)
      then false
      else if not (c.scope_is_zero f.scope) && not (c.scope_matches f.scope (read_scope it))
      then false
      else if float_lt zero_float f.min_importance && float_lt it.importance f.min_importance
      then false
      else if ltb 0 (length f.tags) && not (has_tag it f.tags)
      then false
      else true

-- The order of a listing: newest first, and by id among items of one time.
unfoldable pub listed_before : MemoryItem → MemoryItem → Bool
listed_before a b =
    if a.created_at == b.created_at then text_lt a.id b.id else ltb b.created_at a.created_at

-- Whether an item comes after the cursor.
unfoldable pub is_after : ListCursor → MemoryItem → Bool
is_after cur it =
    ltb it.created_at cur.after_created_at
    || (it.created_at == cur.after_created_at && text_lt cur.after_id it.id)

-- `start`: the index of the first item after the cursor, the length if there is none.
unfoldable pub first_after : ListCursor → List MemoryItem → ℕ
first_after cur [] = 0
first_after cur (it ∷ rest) = let n = first_after cur rest in if is_after cur it then 0 else suc n

unfoldable pub start_index : ListCursor → List MemoryItem → ℕ
unfolding first_after is_after
start_index cur candidates =
    if not (cur.after_created_at == 0) || not (text_eq cur.after_id [])
    then first_after cur candidates
    else 0

abbrev pub max_int : ℕ
max_int = 0x7fffffffffffffff

-- `end`, cut off at the length; `none` where `start + pageSize` overflows an int and is negative.
unfoldable pub end_index : ℕ → ℕ → ℕ → Option ℕ
end_index start page_size len =
    if ltb max_int (start + page_size)
    then none
    else some (if ltb len (start + page_size) then len else start + page_size)

abbrev pub last_cursor : List MemoryItem → ListCursor
last_cursor [] = zero_cursor
last_cursor (x ∷ []) = record { after_created_at = x.created_at; after_id = x.id }
last_cursor (x ∷ y ∷ rest) = last_cursor (y ∷ rest)

-- The page `candidates[start:end]`, with a cursor if more items follow.
unfoldable pub make_page : CursorCodec → List MemoryItem → ℕ → ℕ → Result ListPage
unfolding encode_cursor
make_page codec candidates start end' =
    let page = take (end' - start) (drop start candidates) in
    if ltb end' (length candidates)
    then (do
      next ← encode_cursor codec (last_cursor page)
      ok (record { items = page; next_cursor = next }))
    else ok (record { items = page; next_cursor = [] })

-- The page of a sorted list of candidates; a slice with a negative end panics.
unfoldable pub page_from : CursorCodec → List MemoryItem → ℕ → ListCursor → Result ListPage
unfolding start_index end_index make_page
page_from codec candidates page_size cur =
    let start = start_index cur candidates in
    elim (end_index start page_size (length candidates)) [
      | none ↦ err panicked
      | some end' ↦ make_page codec candidates start end'
    ]

-- The page of a sorted list of candidates after a cursor that a client hands back.
unfoldable pub list_page : CursorCodec → List MemoryItem → ℕ → Text → Result ListPage
list_page codec items page_size cursor = do
  cur ← decode_cursor codec cursor
  page_from codec items page_size cur

module _ (rt : Runtime) (c : Contract) where
  -- The items of the store that match, in the order of a listing.
  unfoldable pub candidates : Store → ListFilter → List MemoryItem
  candidates s f =
      rt.sort listed_before
        (keep_if (λ it. matches_filter rt c it f) (map (λ (_, it). it) (rt.range s.items)))

  unfoldable pub list_from_store : CursorCodec → Store → ListFilter → ℤ → Text → Result ListPage
  unfolding list_page
  list_from_store codec s f page_size cursor =
      list_page codec (candidates s f) (positive_or 50 page_size) cursor
