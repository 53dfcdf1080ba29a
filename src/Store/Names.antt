-- ===== src/Store/Names.antt =====
-- The ids that a store generates: a prefix, the time and a sequence number, of which the number
-- alone tells two ids apart.
use mathlib.Core.List.{append_assoc}
use llm_agent_memory.Common.{
  ◌≡◌, ◌≢◌, refl, sym, ap, ◌∙◌, ℕ, zero, suc, ◌+◌, ◌-◌, ◌*◌, ◌/◌, ◌%◌, ◌^◌, ◌≤◌, ◌<◌, ◌==◌, ltb,
  ltb→lt, Bool, true, false, List, [], ◌∷◌, ◌++◌, Text, text_eq, any_by, any_by-append, Bool-cases,
  inl, inr, if◌then◌else◌, arith,
}
use llm_agent_memory.Errors.{Result-cases, ok}
use llm_agent_memory.Contract.{Time, MemoryItem}
use llm_agent_memory.Store.{
  Store, Embedder, query_embedding, update_item, update_vector, generated_id, assign_id, stamped,
  add, get, update, remove, reembed,
}
use llm_agent_memory.Listing.{max_int}
use llm_agent_memory.Store.Branches.{stored, add_embedded, add_refused}
use llm_agent_memory.Store.Invariant.{Call, adds, gets, updates, removes, step, run}
use llm_agent_memory.Store.Decimal.{decimal, digits_from}

-- The number that digits stand for, after `acc`.
abbrev value_from : ℕ → Text → ℕ
value_from acc [] = acc
value_from acc (d ∷ ds) = value_from (acc * 10 + (d - 48)) ds

value_from-append :
    (acc : ℕ) (xs : Text) (d : ℕ)
    → value_from acc (xs ++ d ∷ []) ≡ value_from acc xs * 10 + (d - 48)
value_from-append acc [] d = refl
value_from-append acc (x ∷ xs) d = value_from-append (acc * 10 + (x - 48)) xs d

value_from-digits_from : (f n : ℕ) → n < 10 ^ f → value_from 0 (digits_from f n) ≡ n
unfolding digits_from
value_from-digits_from zero n h = omega (arith, h)
value_from-digits_from (suc f) n h = elim (Bool-cases (ltb n 10)) [
  | inl small ↦ rw small (omega arith)
  | inr big ↦
      rw
        (
          big,
          value_from-append 0 (digits_from f (n / 10)) (48 + n % 10),
          value_from-digits_from f (n / 10) (omega (arith, h)),
        )
        (omega arith)
]

abbrev is_underscore : ℕ → Bool
is_underscore x = x == 95

digits_from-plain : (f n : ℕ) → any_by is_underscore (digits_from f n) ≡ false
unfolding digits_from
digits_from-plain zero n = refl
digits_from-plain (suc f) n = elim (Bool-cases (ltb n 10)) [
  | inl small ↦ rw small (ground (arith, ltb→lt n 10 small))
  | inr big ↦
      rw
        (
          big,
          any_by-append is_underscore (digits_from f (n / 10)) ((48 + n % 10) ∷ []),
          digits_from-plain f (n / 10),
        )
        (ground arith)
]

-- What stands after the last underscore.
abbrev after_last : Text → Text
after_last [] = []
after_last (x ∷ xs) =
    let rest = after_last xs in
    if any_by is_underscore xs then rest else if is_underscore x then xs else x ∷ xs

after_last-append : (xs d : Text) → any_by is_underscore d ≡ false → after_last (xs ++ 95 ∷ d) ≡ d
after_last-append [] d h = rw h refl
after_last-append (x ∷ xs) d h =
    rw (any_by-append is_underscore xs (95 ∷ d)) (ground (arith, after_last-append xs d h))

generated_id-after_last :
    (prefix : Text) (stamp seq : ℕ) → after_last (generated_id prefix stamp seq) ≡ decimal seq
unfolding generated_id decimal
generated_id-after_last prefix stamp seq =
    ap after_last (sym (append_assoc prefix (95 ∷ decimal stamp) (95 ∷ decimal seq)))
    ∙ after_last-append (prefix ++ 95 ∷ decimal stamp) (decimal seq) (digits_from-plain 20 seq)

-- Two ids with numbers that fit an int are the same only if the numbers are.
generated_id-seq :
    (prefix prefix' : Text) (stamp stamp' seq seq' : ℕ)
    → seq ≤ max_int
    → seq' ≤ max_int
    → generated_id prefix stamp seq ≡ generated_id prefix' stamp' seq'
    → seq ≡ seq'
unfolding decimal
generated_id-seq prefix prefix' stamp stamp' seq seq' small small' same =
    sym (value_from-digits_from 20 seq (omega (arith, small)))
    ∙ ap (value_from 0) (
        sym (generated_id-after_last prefix stamp seq)
        ∙ ap after_last same
        ∙ generated_id-after_last prefix' stamp' seq')
    ∙ value_from-digits_from 20 seq' (omega (arith, small'))

-- No call takes the sequence number back.
assign_id-seq : (stamp : ℕ) (item : MemoryItem) (s : Store) → s.seq ≤ (assign_id stamp item s).1.seq
unfolding assign_id
assign_id-seq stamp item s = ground arith

step-seq : (c : Call) (s : Store) → s.seq ≤ (step c s).seq
unfolding add get update update_item reembed update_vector remove
step-seq (adds e stamp now item) s = ground (arith, assign_id-seq stamp item s)
step-seq (gets now id) s = ground arith
step-seq (updates e now id fn) s = ground arith
step-seq (removes id) s = ground arith

run-seq : (cs : List Call) (s : Store) → s.seq ≤ (run cs s).seq
run-seq [] s = omega arith
run-seq (c ∷ cs) s = omega (arith, step-seq c s, run-seq cs (step c s))

assign_id_unnamed :
    (stamp : ℕ) (item : MemoryItem) (s : Store)
    → text_eq item.id [] ≡ true
    → assign_id stamp item s
      ≡ (record item { id = generated_id s.prefix stamp (s.seq + 1) }, record s { seq = s.seq + 1 })
unfolding assign_id
assign_id_unnamed stamp item s h = rw (assign_id, h) refl

ok_inj : {A : Type 0} {a b : A} → ok a ≡ ok b → a ≡ b
ok_inj h = cc h

-- What an `add` of an item without an id returns, and the number that it leaves.
add-generated :
    (e : Embedder) (stamp : ℕ) (now : Time) (item : MemoryItem) (s : Store) (id : Text)
    → text_eq item.id [] ≡ true
    → (add e stamp now item s).0 ≡ ok id
    → (id ≡ generated_id s.prefix stamp (s.seq + 1)) × ((add e stamp now item s).1.seq ≡ s.seq + 1)
unfolding assign_id stamped
add-generated e stamp now item s id unnamed done =
    elim (Result-cases (query_embedding e 0 (stored e stamp now item s).content)) [
      | inl (vec, found) ↦
          let assigned = assign_id_unnamed stamp item s unnamed in
          let opened = add_embedded e stamp now item s vec found in
          (
            ok_inj (sym done ∙ ap (λ r. r.0) opened) ∙ ap (λ z. (stamped now z.0).id) assigned,
            ap (λ r. r.1.seq) opened ∙ ap (λ z. z.1.seq) assigned,
          )
      | inr (x, failed) ↦ cc (done, ap (λ r. r.0) (add_refused e stamp now item s x failed))
    ]

-- The ids that a store generates do not repeat: of two items without an id, added with any calls in
-- between, each `add` without an error, the second gets another id than the first, whatever the
-- clock says. (The sequence number fits an int.)
pub generated_id-add :
    (e e' : Embedder) (stamp stamp' : ℕ) (now now' : Time) (item item' : MemoryItem)
    (cs : List Call) (s : Store) (id id' : Text)
    → text_eq item.id [] ≡ true
    → text_eq item'.id [] ≡ true
    → (add e stamp now item s).0 ≡ ok id
    → (add e' stamp' now' item' (run cs (add e stamp now item s).1)).0 ≡ ok id'
    → (run cs (add e stamp now item s).1).seq + 1 ≤ max_int
    → id ≢ id'
generated_id-add e e' stamp stamp' now now' item item' cs s id id' unnamed unnamed' done done' small
      same =
    let t : Store = run cs (add e stamp now item s).1 in
    let (first, seq) = add-generated e stamp now item s id unnamed done in
    let (second, _) = add-generated e' stamp' now' item' t id' unnamed' done' in
    let later : (add e stamp now item s).1.seq ≤ t.seq = run-seq cs (add e stamp now item s).1 in
    let equal : s.seq + 1 ≡ t.seq + 1 =
      generated_id-seq s.prefix t.prefix stamp stamp' (s.seq + 1) (t.seq + 1)
        (omega (arith, later, seq, small)) (omega (arith, small)) (sym first ∙ same ∙ second) in
    absurd (omega (arith, later, seq, equal))
