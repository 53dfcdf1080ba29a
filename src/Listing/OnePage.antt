-- ===== src/Listing/OnePage.antt =====
-- engine_list.go: a listing whose items all fit into the first page.
use llm_agent_memory.Common.{
  ◌≡◌, refl, ℕ, ◌-◌, ◌≤◌, pos, suc, some, List, [], length, take_of_length-le, text_eq,
  le→ltb-false, Runtime, arith,
}
use llm_agent_memory.Errors.{ok}
use llm_agent_memory.Contract.{MemoryItem, ListFilter, Contract}
use llm_agent_memory.Store.{Store}
use llm_agent_memory.Listing.{
  CursorCodec, decode_cursor, start_index, end_index, make_page, page_from, list_page, candidates,
  list_from_store, max_int,
}

end_index-fits : (size len : ℕ) → len ≤ size → size ≤ max_int → end_index 0 size len ≡ some len
unfolding end_index
end_index-fits size len short small = ground arith

make_page-whole :
    (codec : CursorCodec) (items : List MemoryItem)
    → make_page codec items 0 (length items) ≡ ok (record { items = items; next_cursor = [] })
unfolding make_page
make_page-whole codec items =
    rw
      (
        le→ltb-false (length items) (length items) (omega arith),
        take_of_length-le (length items - 0) items (omega arith),
      )
      refl

pub list_from_store-fits :
    (rt : Runtime) (c : Contract) (codec : CursorCodec) (s : Store) (f : ListFilter) (size : ℕ)
    → length (candidates rt c s f) ≤ suc size
    → suc size ≤ max_int
    → list_from_store rt c codec s f (pos (suc size)) []
      ≡ ok (record { items = candidates rt c s f; next_cursor = [] })
unfolding list_from_store list_page page_from decode_cursor start_index text_eq
list_from_store-fits rt c codec s f size short small =
    rw (page_from, end_index-fits (suc size) (length (candidates rt c s f)) short small)
      (make_page-whole codec (candidates rt c s f))
