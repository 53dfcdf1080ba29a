-- ===== src/Listing/Pages.antt =====
-- Paging through a listing of a store that does not change meanwhile.
use llm_agent_memory.Common.{
  ◌≡◌, refl, ℕ, ◌+◌, ◌-◌, ◌≤◌, ◌<◌, true, false, some, List, [], ◌∷◌, ◌++◌, Text, text_eq,
  text_lt_irrefl, text_lt_asym, text_lt_incomp_trans, length, take, drop, All, length-append,
  IsStrictWeak, arith, take_of_length-le,
}
use llm_agent_memory.Errors.{ok}
use llm_agent_memory.Contract.{MemoryItem}
use llm_agent_memory.Listing.{
  ListCursor, CursorCodec, listed_before, is_after, first_after, start_index, last_cursor,
  page_from, max_int,
}

pub listed_before_asym : (a b : MemoryItem) → listed_before a b ≡ true → listed_before b a ≡ false
unfolding listed_before
listed_before_asym a b h = ground (arith, text_lt_asym a.id b.id)

pub listed_before_irrefl : (a : MemoryItem) → listed_before a a ≡ false
unfolding listed_before
listed_before_irrefl a = ground (arith, text_lt_irrefl a.id)

listed_before_incomp_trans :
    (a b c : MemoryItem)
    → listed_before b a ≡ false
    → listed_before c b ≡ false
    → listed_before c a ≡ false
unfolding listed_before
listed_before_incomp_trans a b c h k = ground (arith, text_lt_incomp_trans a.id b.id c.id)

-- A listing is sorted by a strict weak order.
pub listed_before-IsStrictWeak : IsStrictWeak (λ _. Unit) listed_before
listed_before-IsStrictWeak = record {
  asym = λ a b _ _. listed_before_asym a b;
  incomp_trans = λ a b c _ _ _. listed_before_incomp_trans a b c;
}

-- Each item comes before all later ones; no two are alike in time and id.
abbrev pub IsListing : List MemoryItem → Type 0
IsListing [] = Unit
IsListing (x ∷ xs) = All (λ y. listed_before x y ≡ true) xs × IsListing xs

abbrev pub cursor_of : MemoryItem → ListCursor
cursor_of x = record { after_created_at = x.created_at; after_id = x.id }

is_after-cursor_of : (x y : MemoryItem) → is_after (cursor_of x) y ≡ listed_before x y
unfolding is_after listed_before
is_after-cursor_of x y = ground arith

pub All-middle {ℓ} :
    {A : Type 0} (P : A → Type ℓ) (xs : List A) (l : A) (ys : List A) → All P (xs ++ l ∷ ys) → P l
All-middle P [] l ys h = h.0
All-middle P (x ∷ xs) l ys h = All-middle P xs l ys h.1

-- In a listing, the first item after an item of it is the next one.
pub first_after-listing :
    (xs : List MemoryItem) (l : MemoryItem) (ys : List MemoryItem)
    → IsListing (xs ++ l ∷ ys)
    → first_after (cursor_of l) (xs ++ l ∷ ys) ≡ length xs + 1
unfolding first_after
first_after-listing [] l [] h = rw (is_after-cursor_of l l, listed_before_irrefl l) (omega arith)
first_after-listing [] l (y ∷ ys) h =
    rw (is_after-cursor_of l l, listed_before_irrefl l, is_after-cursor_of l y, h.0.0) (omega arith)
first_after-listing (x ∷ xs) l ys h =
    let x_first : listed_before x l ≡ true = All-middle _ xs l ys h.0 in
    rw (is_after-cursor_of l x, listed_before_asym x l x_first, first_after-listing xs l ys h.1)
      (omega arith)

-- A cursor that the zero cursor, which stands for the start, cannot be mistaken for.
abbrev pub IsNamed : MemoryItem → Type 0
IsNamed x = text_eq x.id [] ≡ false

pub start_index-listing :
    (xs : List MemoryItem) (l : MemoryItem) (ys : List MemoryItem)
    → IsListing (xs ++ l ∷ ys)
    → IsNamed l
    → start_index (cursor_of l) (xs ++ l ∷ ys) ≡ length xs + 1
unfolding start_index
start_index-listing xs l ys h named = ground (arith, first_after-listing xs l ys h)

drop-length-append {ℓ} : {A : Type ℓ} (xs ys : List A) → drop (length xs) (xs ++ ys) ≡ ys
drop-length-append [] ys = refl
drop-length-append (x ∷ xs) ys = drop-length-append xs ys

-- The page that starts at an index, where the size does not overflow: a full one that more items
-- follow, or the rest.
module _ (codec : CursorCodec) (xs ys : List MemoryItem) (size : ℕ) (cur : ListCursor)
    (at : start_index cur (xs ++ ys) ≡ length xs) (fits : length xs + size ≤ max_int) where
  pub full_page :
      (next : Text)
      → size < length ys
      → codec.encode (last_cursor (take size ys)) ≡ some next
      → page_from codec (xs ++ ys) size cur
        ≡ ok (record { items = take size ys; next_cursor = next })
  unfolding page_from
  full_page next more enc =
      let len = length-append xs ys in
      let here = drop-length-append xs ys in
      let count : length xs + size - length xs ≡ size = omega arith in
      ground (arith, at, len, here, count, enc)

  pub last_page :
      length ys ≤ size
      → page_from codec (xs ++ ys) size cur ≡ ok (record { items = ys; next_cursor = [] })
  unfolding page_from
  last_page rest =
      let all = take_of_length-le (length ys) ys (omega arith) in
      ground (arith, at, length-append xs ys, drop-length-append xs ys, all)
