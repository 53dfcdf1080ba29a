-- ===== src/Listing/Complete.antt =====
-- Following the cursors of a listing from its start to its end.
use mathlib.Core.List.{append_assoc}
use llm_agent_memory.Common.{
  ◌≡◌, refl, sym, ap, ◌∙◌, subst, ℕ, zero, suc, ◌+◌, ◌≤◌, ◌<◌, false, Option, none, some, List, [],
  ◌∷◌, ◌++◌, Text, text_eq, length, take, drop, All, length-append, length-take, length-drop,
  take-append-drop, arith, if◌then◌else◌, ltb, ltb→lt, Bool-cases, inl, inr,
}
use llm_agent_memory.Errors.{Result, ok, err}
use llm_agent_memory.Contract.{MemoryItem, ListPage}
use llm_agent_memory.Listing.{
  ListCursor, zero_cursor, CursorCodec, IsFaithful, start_index, last_cursor, list_page,
  decode_cursor, max_int,
}
use llm_agent_memory.Listing.Pages.{
  All-middle, cursor_of, IsListing, IsNamed, start_index-listing, full_page, last_page,
}

-- What a client does with a page, and with a way to get all later ones: nothing more if the page
-- has no next cursor.
unfoldable pub gather :
    Result ListPage → (Text → Option (List MemoryItem)) → Option (List MemoryItem)
gather (err e) more = none
gather (ok page) more =
    if text_eq page.next_cursor []
    then some page.items
    else elim (more page.next_cursor) [ none ↦ none | some later ↦ some (page.items ++ later) ]

-- A client that asks for page after page of one listing until there is no next cursor. `none` means
-- that a page failed or that the fuel ran out.
unfoldable pub follow : CursorCodec → List MemoryItem → ℕ → ℕ → Text → Option (List MemoryItem)
unfolding gather
follow codec items size zero cursor = none
follow codec items size (suc fuel) cursor =
    gather (list_page codec items size cursor) (follow codec items size fuel)

-- The item can be named by a cursor that is not the zero cursor.
abbrev pub IsEncodable : CursorCodec → MemoryItem → Type 0
IsEncodable codec x = IsNamed x × ((t : Text) × (codec.encode (cursor_of x) ≡ some t))

split_last :
    (xs : List MemoryItem)
    → 0 < length xs
    → (pre : List MemoryItem) × (l : MemoryItem) × (xs ≡ pre ++ l ∷ [])
      × (last_cursor xs ≡ cursor_of l)
split_last [] h = elim h [ ]
split_last (x ∷ []) h = ([], x, refl, refl)
split_last (x ∷ y ∷ xs) h =
    let (pre, l, e, c) = split_last (y ∷ xs) (omega arith) in (x ∷ pre, l, ap (◌∷◌ x) e, c)

module _ (codec : CursorCodec) (items : List MemoryItem) (size fuel : ℕ) (cursor : Text) where
  follow_end :
      (found : List MemoryItem)
      → list_page codec items size cursor ≡ ok (record { items = found; next_cursor = [] })
      → follow codec items size (suc fuel) cursor ≡ some found
  unfolding follow text_eq
  follow_end found h = ground (arith, h)

  follow_more :
      (found later : List MemoryItem) (next : Text)
      → list_page codec items size cursor ≡ ok (record { items = found; next_cursor = next })
      → text_eq next [] ≡ false
      → follow codec items size fuel next ≡ some later
      → follow codec items size (suc fuel) cursor ≡ some (found ++ later)
  unfolding follow
  follow_more found later next h named rest = ground (arith, h, rest)

decode-next :
    (codec : CursorCodec)
    → IsFaithful codec
    → (c : ListCursor) (t : Text) → codec.encode c ≡ some t
    → decode_cursor codec t ≡ ok c
unfolding decode_cursor
decode-next codec faithful c t enc =
    ground (arith, faithful.encode_ne_nil c t enc, faithful.decode-encode c t enc)

reshape :
    (before todo pre : List MemoryItem) (l : MemoryItem) (size : ℕ) (items : List MemoryItem)
    → items ≡ before ++ todo
    → take size todo ≡ pre ++ l ∷ []
    → items ≡ (before ++ pre) ++ l ∷ drop size todo
reshape before todo pre l size items e split = rw (append_assoc before pre (l ∷ drop size todo)) (
    e
    ∙ ap (λ z. before ++ z)
        (sym (take-append-drop size todo)
          ∙ ap (λ z. z ++ drop size todo) split
          ∙ append_assoc pre (l ∷ []) (drop size todo)))

not_empty :
    (size : ℕ) (todo : List MemoryItem)
    → size < length todo
    → 0 < size
    → 0 < length (take size todo)
not_empty size todo h k = omega (arith, length-take size todo)

decode_start : (codec : CursorCodec) → decode_cursor codec [] ≡ ok zero_cursor
unfolding decode_cursor text_eq
decode_start codec = refl

start_index-start : (items : List MemoryItem) → start_index zero_cursor items ≡ 0
unfolding start_index text_eq
start_index-start items = refl

module _ (codec : CursorCodec) (faithful : IsFaithful codec) (items : List MemoryItem) (size : ℕ)
    (listing : IsListing items) (encodable : All (IsEncodable codec) items) (some_size : 0 < size)
    (fits : length items + size ≤ max_int) where
  module _ (before todo pre : List MemoryItem) (l : MemoryItem)
      (split : take size todo ≡ pre ++ l ∷ []) (e : items ≡ before ++ todo) where
    shape : items ≡ (before ++ pre) ++ l ∷ drop size todo
    shape = reshape before todo pre l size items e split

    last-IsEncodable : IsEncodable codec l
    last-IsEncodable =
        All-middle _ (before ++ pre) l (drop size todo)
          (subst (All (IsEncodable codec)) shape encodable)

    start_index-next : start_index (cursor_of l) items ≡ length (before ++ take size todo)
    start_index-next =
        let count : length (before ++ pre) + 1 ≡ length (before ++ take size todo) = omega (
          arith,
          length-append before pre,
          length-append before (take size todo),
          ap length split,
          length-append pre (l ∷ []),
        ) in
        subst (λ z. start_index (cursor_of l) z ≡ length (before ++ take size todo)) (sym shape)
          (start_index-listing (before ++ pre) l (drop size todo) (subst IsListing shape listing)
              last-IsEncodable.0
            ∙ count)

  follow_rest :
      (fuel : ℕ) (before todo : List MemoryItem) (cursor : Text) (cur : ListCursor)
      → items ≡ before ++ todo
      → decode_cursor codec cursor ≡ ok cur
      → start_index cur items ≡ length before
      → length todo < fuel
      → follow codec items size fuel cursor ≡ some todo
  unfolding list_page
  follow_rest zero before todo cursor cur e d at h = elim h [ ]
  follow_rest (suc fuel) before todo cursor cur e d at h =
      let at' : start_index cur (before ++ todo) ≡ length before =
        subst (λ l. start_index cur l ≡ length before) e at in
      let fits' : length before + size ≤ max_int =
        omega (arith, ap length e, length-append before todo) in
      elim (Bool-cases (ltb size (length todo))) [
        | inr rest ↦ follow_end codec items size fuel cursor todo (
            subst
              (λ z. list_page codec z size cursor ≡ ok (record { items = todo; next_cursor = [] }))
              (sym e)
              (rw (d, list_page) (last_page codec before todo size cur at' fits' (ground arith))))
        | inl more ↦
            let (pre, l, split, last) =
              split_last (take size todo) (not_empty size todo (ltb→lt size _ more) some_size) in
            let (named, (t, enc)) = last-IsEncodable before todo pre l split e in
            let later =
              follow_rest fuel (before ++ take size todo) (drop size todo) t (cursor_of l)
                (e
                  ∙ ap (λ z. before ++ z) (sym (take-append-drop size todo))
                  ∙ sym (append_assoc before (take size todo) (drop size todo)))
                (decode-next codec faithful (cursor_of l) t enc)
                (start_index-next before todo pre l split e)
                (omega (arith, length-drop size todo, ltb→lt size _ more)) in
            let page =
              full_page codec before todo size cur at' fits' t (ltb→lt size _ more)
                (ap codec.encode last ∙ enc) in
            let whole =
              follow_more codec items size fuel cursor (take size todo) (drop size todo) t
                (subst
                  (λ z.
                    list_page codec z size cursor
                    ≡ ok (record { items = take size todo; next_cursor = t }))
                  (sym e) (rw (d, list_page) page))
                (faithful.encode_ne_nil (cursor_of l) t enc) later in
            whole ∙ ap some (take-append-drop size todo)
      ]

  -- A client that follows the cursors from the start collects every item of the listing exactly
  -- once and in its order, with more fuel than there are items.
  pub follow-listing :
      (fuel : ℕ) → length items < fuel → follow codec items size fuel [] ≡ some items
  follow-listing fuel enough =
      follow_rest fuel [] items [] zero_cursor refl (decode_start codec) (start_index-start items)
        enough
