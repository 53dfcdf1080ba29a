-- ===== src/Sqlite/Keys.antt =====
-- The keys of memory/sqlite_store.go.
use llm_agent_memory.Common.{
  ◌≡◌, ◌≢◌, refl, ap, ℕ, true, [], ◌∷◌, Text, All, Bool-cases, inl, inr, if◌then◌else◌,
}
use llm_agent_memory.Sqlite.{is_key_char, in_range, key_chars, sanitize_sqlite_key}

-- A text that may stand in the key column.
abbrev pub IsKey : Text → Type 0
IsKey s = (s ≢ []) × All (λ r. is_key_char r ≡ true) s

underscore : is_key_char 95 ≡ true
unfolding is_key_char in_range
underscore = refl

replaced-is_key_char : (r : ℕ) → is_key_char (if is_key_char r then r else 95) ≡ true
replaced-is_key_char r = elim (Bool-cases (is_key_char r)) [
  | inl h ↦ rw h h
  | inr h ↦ rw h underscore
]

key_chars-All : (s : Text) → All (λ r. is_key_char r ≡ true) (key_chars s)
unfolding key_chars
key_chars-All [] = tt
key_chars-All (r ∷ s) = (replaced-is_key_char r, key_chars-All s)

key_chars_id : (s : Text) → All (λ r. is_key_char r ≡ true) s → key_chars s ≡ s
unfolding key_chars
key_chars_id [] h = refl
key_chars_id (r ∷ s) h = rw h.0 (ap (◌∷◌ r) (key_chars_id s h.1))

sanitize-IsKey : (s : Text) → IsKey (sanitize_sqlite_key s)
unfolding sanitize_sqlite_key key_chars is_key_char in_range
sanitize-IsKey [] = (λ e. cc e, (refl, tt))
sanitize-IsKey (r ∷ s) = (λ e. cc e, key_chars-All (r ∷ s))

sanitize_id : (s : Text) → IsKey s → sanitize_sqlite_key s ≡ s
unfolding sanitize_sqlite_key key_chars
sanitize_id [] h = absurd (h.0 refl)
sanitize_id (r ∷ s) h = key_chars_id (r ∷ s) h.1

-- A sanitized key is never empty and has only letters, digits, `-` and `_`; and a key that is so
-- already is left as it is.
pub sanitize_sqlite_key_lem :
    (s k : Text) → IsKey k → IsKey (sanitize_sqlite_key s) × (sanitize_sqlite_key k ≡ k)
sanitize_sqlite_key_lem s k h = (sanitize-IsKey s, sanitize_id k h)
