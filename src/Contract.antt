-- ===== src/Contract.antt =====
-- The data of the contract module as far as this repository reads or writes it
-- (memory/types_alias.go re-exports it), and the functions of that module, which are parameters.
-- A time is the number of nanoseconds since the zero time, so `IsZero` is a test against 0.
use llm_agent_memory.Common.{ℕ, ℤ, Bool, Option, List, Text, Dict, Float64, true, false, text_eq}

abbrev pub Time : Type 0
Time = ℕ

-- `time.Duration` in nanoseconds.
abbrev pub Duration : Type 0
Duration = ℤ

-- A `[]float32`, which may be nil; a float32 is its bits.
abbrev pub Vector : Type 0
Vector = Option (List ℕ)

pub data Kind : Type 0 where
  working episodic semantic : Kind
  -- any other string
  unlisted : Text → Kind

-- The dynamic values of a metadata map (`any`).
mutual
  pub data Value : Type 0 where
    text : Text → Value
    int int64 : ℤ → Value
    float : Float64 → Value
    boolean : Bool → Value
    time : Time → Value
    text_map : Dict Text → Value
    any_map : Fields → Value
    opaque_value : ℕ → Value

  pub data Fields : Type 0 where
    end : Fields
    field : Text → Value → Fields → Fields

-- A nil map is `none`; the other states are by value: two items never share a map here.
pub record MemoryItem : Type 0 where
  pub id : Text
  pub content : Text
  pub tags : List Text
  pub importance : Float64
  pub created_at : Time
  pub accessed_at : Time
  pub metadata : Option (Dict Value)

-- `MemoryItem{}`
abbrev pub zero_item : MemoryItem
zero_item = record {
  id = List.[];
  content = List.[];
  tags = List.[];
  importance = 0;
  created_at = 0;
  accessed_at = 0;
  metadata = Option.none;
}

pub record SearchResult : Type 0 where
  pub item : MemoryItem
  pub score : Float64

pub record Stats : Type 0 where
  pub count : ℕ
  pub capacity : ℤ
  pub avg_importance : Float64
  pub oldest_age : Duration

pub record Scope : Type 0 where
  pub user : Text
  pub project : Text
  pub session : Text

abbrev pub Source : Type 0
Source = Text

abbrev pub Category : Type 0
Category = Text

pub record ListFilter : Type 0 where
  pub include_disabled : Bool
  pub pinned_only : Bool
  pub source : Source
  pub category : Category
  pub scope : Scope
  pub min_importance : Float64
  pub tags : List Text

pub record ListPage : Type 0 where
  pub items : List MemoryItem
  pub next_cursor : Text

pub record SnapshotItem : Type 0 where
  pub item : MemoryItem
  pub vector : Vector

pub record Snapshot : Type 0 where
  pub version : ℕ
  pub kind : Kind
  pub items : List SnapshotItem

pub data ImportMode : Type 0 where
  replace merge upsert : ImportMode
  unlisted : Text → ImportMode

-- `errors` counts the errors that the Go field holds.
pub record ImportReport : Type 0 where
  pub loaded : ℕ
  pub replaced : ℕ
  pub skipped : ℕ
  pub errors : ℕ

pub record ConsolidateOptions : Type 0 where
  pub threshold : Float64
  pub min_age : Duration

pub data ForgetStrategy : Type 0 where
  by_importance by_age by_capacity : ForgetStrategy
  unlisted : Text → ForgetStrategy

pub record ForgetOptions : Type 0 where
  pub strategy : ForgetStrategy
  pub threshold : Float64
  pub max_age : Duration
  pub keep : ℤ

-- The functions and constants of the contract module.
pub record Contract : Type 0 where
  pub is_pinned : MemoryItem → Bool
  pub is_disabled : MemoryItem → Bool
  pub get_source : MemoryItem → Source
  pub get_category : MemoryItem → Category
  pub set_pinned : MemoryItem → Bool → MemoryItem
  pub set_source : MemoryItem → Source → MemoryItem
  pub set_category : MemoryItem → Category → MemoryItem
  pub scope_is_zero : Scope → Bool
  pub scope_matches : Scope → Scope → Bool
  pub snapshot_version : ℕ
  pub user_saved : Source
  pub agent_inferred : Source

abbrev pub zero_scope : Scope
zero_scope = record { user = List.[]; project = List.[]; session = List.[] }

unfoldable pub kind_eq : Kind → Kind → Bool
kind_eq working working = true
kind_eq episodic episodic = true
kind_eq semantic semantic = true
kind_eq (Kind.unlisted s) (Kind.unlisted t) = text_eq s t
kind_eq _ _ = false
