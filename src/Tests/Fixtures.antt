-- ===== src/Tests/Fixtures.antt =====
-- The environment of the tests, and the data that they run on.
use mathlib.Core.List.Permᴰ
use llm_agent_memory.Common.{
  ◌≡◌, refl, subst, pos, ◌+◌, ◌&&◌, ◌||◌, Bool, false, Option, none, some, [], ◌∷◌, Text, codes,
  text_eq, Runtime, IsLawful, insertion_sort, insertion_sort-perm, insertion_sort-IsSorted,
}
use llm_agent_memory.Errors.{ok, err, external}
use llm_agent_memory.Contract.{Contract, MemoryItem, zero_item}
use llm_agent_memory.Store.{Embedder}
use llm_agent_memory.Listing.{ListCursor, CursorCodec, IsFaithful}

abbrev pub rt : Runtime
rt = record {
  range = λ m. m;
  interleave = λ m. m;
  sort = λ less xs. insertion_sort less xs;
  lower = λ k. k;
  fadd = λ a b. a + b;
  fmul = λ a b. a;
  fdiv = λ a b. a;
  of_int = λ k. 0;
  of_float32 = λ k. k;
  to_duration = λ a. pos a;
  exp = λ a. a;
  sqrt = λ a. a;
}

pub rt-IsLawful : IsLawful rt
rt-IsLawful = record {
  range-perm = λ m. Permᴰ.refl m;
  interleave-perm = λ m. Permᴰ.refl m;
  sort-perm = λ less xs. insertion_sort-perm less xs;
  sort-IsSorted = λ P less w xs p. insertion_sort-IsSorted w xs p;
}

abbrev within : Text → Text → Bool
within want got = text_eq want [] || text_eq want got

abbrev pub contract : Contract
contract = record {
  is_pinned = λ it. false;
  is_disabled = λ it. false;
  get_source = λ it. [];
  get_category = λ it. [];
  set_pinned = λ it b. it;
  set_source = λ it s. it;
  set_category = λ it s. it;
  scope_is_zero = λ s. text_eq s.user [] && (text_eq s.project [] && text_eq s.session []);
  scope_matches =
      λ s t. within s.user t.user && (within s.project t.project && within s.session t.session);
  snapshot_version = 1;
  user_saved = codes "user";
  agent_inferred = codes "agent";
}

abbrev decode_codes : Text → Option ListCursor
decode_codes [] = none
decode_codes (t ∷ id) = some (record { after_created_at = t; after_id = id })

abbrev pub codec : CursorCodec
codec = record { encode = λ c. some (c.after_created_at ∷ c.after_id); decode = decode_codes }

some_inj : {A : Type 0} {a b : A} → some a ≡ some b → a ≡ b
some_inj h = cc h

pub codec-IsFaithful : IsFaithful codec
unfolding text_eq
codec-IsFaithful = record {
  decode-encode = λ c t h. subst (λ z. decode_codes z ≡ some c) (some_inj h) refl;
  encode_ne_nil = λ c t h. subst (λ z. text_eq z [] ≡ false) (some_inj h) refl;
}

-- The text itself is its vector.
abbrev pub embedder : Embedder
embedder call t = ok (some t ∷ [])

abbrev pub broken_embedder : Embedder
broken_embedder call t = err (external 0)

abbrev pub first_item : MemoryItem
first_item = record zero_item { id = codes "a"; content = codes "x"; created_at = 3 }

abbrev pub second_item : MemoryItem
second_item = record zero_item { id = codes "b"; content = codes "y"; created_at = 5 }

abbrev pub unnamed_item : MemoryItem
unnamed_item = record zero_item { content = codes "z" }
