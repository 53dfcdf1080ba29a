-- ===== src/Policies/Chains.antt =====
-- What a chain of sanitizers does, and where it stops.
use llm_agent_memory.Common.{
  Bool, true, false, none, some, Option, List, [], ◌∷◌, ◌++◌, ◌≡◌, refl, sym, ap, ◌∙◌,
  if◌then◌else◌, inl, inr, Bool-cases,
}
use llm_agent_memory.Errors.{Error, Result, ok, err, rejected_by_policy, Result-cases}
use llm_agent_memory.Contract.{Kind, MemoryItem}
use llm_agent_memory.Manager.{Memory, Method}
use llm_agent_memory.Policies.{Sanitizer, sanitize_loop, sanitizing_add, with_sanitizer}

-- What follows a chain.
abbrev pub continued :
    {W A : Type 0} → Result MemoryItem × W → (MemoryItem → Method W A) → Result A × W
continued (err e, w) next = (err e, w)
continued (ok cur, w) next = next cur w

module _ {W : Type 0} (kind : Kind) where
  sanitize_loop-append :
      (first second : List (Sanitizer W)) (item : MemoryItem) (w : W)
      → sanitize_loop kind (first ++ second) item w
        ≡ continued (sanitize_loop kind first item w) (sanitize_loop kind second)
  unfolding sanitize_loop
  sanitize_loop-append [] second item w = refl
  sanitize_loop-append (s ∷ rest) second item w = elim (Result-cases (s kind item w).0) [
    | inl ((out, keep), e) ↦ elim (Bool-cases keep) [
      | inl k ↦ rw (e, k) (sanitize_loop-append rest second out _)
      | inr k ↦ rw (e, k) refl
    ]
    | inr (x, e) ↦ rw e refl
  ]

-- What `Add` makes of a sanitizer's answer.
abbrev pub proceed :
    {W : Type 0}
    → Kind
    → List (Sanitizer W)
    → Result (MemoryItem × Bool) × W
    → Result MemoryItem × W
proceed kind rest (err e, w) = (err e, w)
proceed kind rest (ok (out, keep), w) =
    let next = sanitize_loop kind rest out w in if keep then next else (err rejected_by_policy, w)

pub sanitize_loop-cons :
    {W : Type 0} (kind : Kind) (s : Sanitizer W) (rest : List (Sanitizer W)) (cur : MemoryItem)
    (w : W)
    → sanitize_loop kind (s ∷ rest) cur w ≡ proceed kind rest (s kind cur w)
unfolding sanitize_loop
sanitize_loop-cons kind s rest cur w = elim (Result-cases (s kind cur w).0) [
  | inl (answer, e) ↦ rw e refl
  | inr (x, e) ↦ rw e refl
]

module _ {W : Type 0} (inner : Memory W) where
  sanitizing_add_lem :
      (chain : List (Sanitizer W)) (item : MemoryItem) (w : W)
      → sanitizing_add inner chain item w
        ≡ continued (sanitize_loop inner.kind chain item w) inner.add
  unfolding sanitizing_add
  sanitizing_add_lem chain item w = elim (Result-cases (sanitize_loop inner.kind chain item w).0) [
    | inl (cur, e) ↦
        rw (sanitizing_add, e)
          (ap (λ r. continued (r, (sanitize_loop inner.kind chain item w).1) inner.add) (sym e))
    | inr (x, e) ↦
        rw (sanitizing_add, e)
          (ap (λ r. continued (r, (sanitize_loop inner.kind chain item w).1) inner.add) (sym e))
  ]

  pub add-with_sanitizer :
      (chain : List (Sanitizer W)) (item : MemoryItem) (w : W)
      → (with_sanitizer inner chain).add item w
        ≡ continued (sanitize_loop inner.kind chain item w) inner.add
  unfolding with_sanitizer sanitize_loop
  add-with_sanitizer [] item w = refl
  add-with_sanitizer (s ∷ rest) item w = sanitizing_add_lem (s ∷ rest) item w

  kind-with_sanitizer :
      (chain : List (Sanitizer W)) → (with_sanitizer inner chain).kind ≡ inner.kind
  unfolding with_sanitizer
  kind-with_sanitizer [] = refl
  kind-with_sanitizer (s ∷ rest) = refl

  continued_assoc :
      (r : Result MemoryItem × W) (chain : List (Sanitizer W))
      → continued r (with_sanitizer inner chain).add
        ≡ continued (continued r (sanitize_loop inner.kind chain)) inner.add
  continued_assoc (err e, w) chain = refl
  continued_assoc (ok cur, w) chain = add-with_sanitizer chain cur w

-- To wrap a memory in one chain and then in another is to wrap it once in the second chain followed
-- by the first: an item passes the outer chain before the inner one.
pub with_sanitizer-append :
    {W : Type 0} (inner : Memory W) (first second : List (Sanitizer W)) (item : MemoryItem) (w : W)
    → (with_sanitizer (with_sanitizer inner first) second).add item w
      ≡ (with_sanitizer inner (second ++ first)).add item w
with_sanitizer-append inner first second item w =
    rw
      (
        add-with_sanitizer (with_sanitizer inner first) second item w,
        add-with_sanitizer inner (second ++ first) item w,
        kind-with_sanitizer inner first,
        sanitize_loop-append inner.kind second first item w,
      )
      (continued_assoc inner (sanitize_loop inner.kind second item w) first)

-- The error with which `Add` stops at a sanitizer's answer.
abbrev pub refusal : Result (MemoryItem × Bool) → Option Error
refusal (err e) = some e
refusal (ok (out, true)) = none
refusal (ok (out, false)) = some rejected_by_policy

proceed-refusal :
    {W : Type 0} (kind : Kind) (rest : List (Sanitizer W)) (r : Result (MemoryItem × Bool))
    (x : Error) (w : W)
    → refusal r ≡ some x
    → proceed kind rest (r, w) ≡ (err x, w)
proceed-refusal kind rest (err e) x w h = cc h
proceed-refusal kind rest (ok (out, true)) x w h = cc h
proceed-refusal kind rest (ok (out, false)) x w h = cc h

-- In a chain whose first sanitizers let an item pass as `cur`, the next one decides alone if it
-- drops the item or fails: `Add` returns its refusal or its error in the world that it leaves, so
-- neither a later sanitizer nor the memory has been called.
pub sanitizing_add_stops :
    {W : Type 0} (inner : Memory W) (before after : List (Sanitizer W)) (s : Sanitizer W)
    (item cur : MemoryItem) (r : Result (MemoryItem × Bool)) (x : Error) (w w' last : W)
    → sanitize_loop inner.kind before item w ≡ (ok cur, w')
    → s inner.kind cur w' ≡ (r, last)
    → refusal r ≡ some x
    → sanitizing_add inner (before ++ s ∷ after) item w ≡ (err x, last)
sanitizing_add_stops inner before after s item cur r x w w' last passes answer refuses =
    let start = sanitizing_add_lem inner (before ++ s ∷ after) item w in
    let split = sanitize_loop-append inner.kind before (s ∷ after) item w in
    let here = sanitize_loop-cons inner.kind s after cur w' in
    let stops = proceed-refusal inner.kind after r x last refuses in
    start
    ∙ rw (split, passes, here)
        (ap (λ a. continued (proceed inner.kind after a) inner.add) answer
          ∙ ap (λ a. continued a inner.add) stops)
