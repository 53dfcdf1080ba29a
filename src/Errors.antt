-- ===== src/Errors.antt =====
-- Errors as values: the sentinels of the package and of the contract module, errors of code outside
-- the package, and errors wrapped by `fmt.Errorf` with `%w`. Message texts are left out.
use llm_agent_memory.Common.{ℕ, Bool, true, false, ◌≡◌, refl, ◌⊎◌, inl, inr}

pub data Error : Type 0 where
  not_found empty_query embedder_required : Error
  kind_disabled snapshot_version_mismatch snapshot_kind_mismatch : Error
  snapshot_store_not_configured : Error
  no_tiers capability_missing unknown_kind unsupported_memory : Error
  manager_required scoped_manager_required policy_required : Error
  policy_manager_required unified_manager_required : Error
  parallel_manager_required recall_manager_required : Error
  rejected_by_policy kind_reroute_unsupported unknown_verdict : Error
  max_age_required unknown_strategy unknown_import_mode : Error
  schema_version_ahead dsn_required kind_required not_exist no_schema_table : Error
  bad_cursor : Error
  -- a run-time panic, which nothing here recovers
  panicked : Error
  -- an error value that code outside the package returned
  external : ℕ → Error
  -- `fmt.Errorf("...%w", err)`
  wrapped : Error → Error

pub data Result {ℓ} (A : Type ℓ) : Type ℓ where
  ok : A → Result A
  err : Error → Result A

infixl 5 ◌>>=◌
abbrev pub ◌>>=◌ {ℓ κ} : {A : Type ℓ} {B : Type κ} → Result A → (A → Result B) → Result B
ok a >>= f = f a
err e >>= f = err e

-- `if err != nil { return fmt.Errorf("...%w", err) }`
abbrev pub wrap_err {ℓ} : {A : Type ℓ} → Result A → Result A
wrap_err (ok a) = ok a
wrap_err (err e) = err (wrapped e)

-- `ErrTierDisabled` wraps `ErrKindDisabled`.
abbrev pub tier_disabled : Error
tier_disabled = wrapped kind_disabled

-- `errors.Is(err, ErrKindDisabled)`
unfoldable pub is_kind_disabled : Error → Bool
is_kind_disabled kind_disabled = true
is_kind_disabled (wrapped e) = is_kind_disabled e
is_kind_disabled _ = false

-- `errors.Is(err, os.ErrNotExist)`
unfoldable pub is_not_exist : Error → Bool
is_not_exist not_exist = true
is_not_exist (wrapped e) = is_not_exist e
is_not_exist _ = false

pub Result-cases {ℓ} :
    {A : Type ℓ} (r : Result A) → ((a : A) × (r ≡ ok a)) ⊎ ((e : Error) × (r ≡ err e))
Result-cases (ok a) = inl (a, refl)
Result-cases (err e) = inr (e, refl)
