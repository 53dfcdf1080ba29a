-- ===== src/Tests/Recovering.antt =====
-- An ExportAll into the database in memory, and what ImportAll reads back.
use llm_agent_memory.Common.{
  ◌≡◌, refl, false, subst, ℕ, pos, none, some, List, [], ◌∷◌, Text, codes, text_eq,
}
use llm_agent_memory.Errors.{Result, ok, err, external}
use llm_agent_memory.Contract.{episodic, kind_eq, Snapshot, SnapshotItem, zero_item}
use llm_agent_memory.Manager.{Manager, Memory, no_tier, tier_for}
use llm_agent_memory.Manager.FanOut.{KindMap, lookup_kind, fan_out}
use llm_agent_memory.Manager.Persistence.{exporter_at, export_all, save_loop}
use llm_agent_memory.Sqlite.{
  Payload, SnapshotCodec, sanitize_sqlite_key, key_chars, is_key_char, in_range, save,
  as_snapshot_store,
}
use llm_agent_memory.Sqlite.Tables.{Table}
use llm_agent_memory.Sqlite.Recovered.{ReadsBack, Decodes, each_snapshot, import_all-export_all}
use llm_agent_memory.Tests.Fixtures.{rt, rt-IsLawful, first_item}
use llm_agent_memory.Tests.Databases.{store, db-IsSql, db-Answers, empty, now}

ok_inj : {A : Type 0} {a b : A} → ok a ≡ ok b → a ≡ b
ok_inj h = cc h

abbrev snapshot_of : ℕ → Text → Snapshot
snapshot_of version content = record {
  version = version;
  kind = episodic;
  items = record { item = record zero_item { content = content }; vector = none } ∷ [];
}

-- A snapshot of one item is encoded as its version and the item's content, and no other is encoded.
abbrev encode : ℕ → List SnapshotItem → Result Payload
encode version [] = err (external 1)
encode version (it ∷ []) = ok (version ∷ it.item.content)
encode version (it ∷ _ ∷ _) = err (external 1)

abbrev json : SnapshotCodec
json = record {
  marshal = λ snap. encode snap.version snap.items;
  unmarshal = λ payload. elim payload [
    | [] ↦ err (external 2)
    | version ∷ content ↦ ok (snapshot_of version content)
  ];
}

abbrev normal_of : ℕ → List SnapshotItem → Snapshot
normal_of version [] = snapshot_of version []
normal_of version (it ∷ rest) = snapshot_of version it.item.content

-- What is left of a snapshot: the version, and the content of the first item.
abbrev normal : Snapshot → Snapshot
normal snap = normal_of snap.version snap.items

decodes_of :
    (version : ℕ) (items : List SnapshotItem) (payload : Payload)
    → encode version items ≡ ok payload
    → json.unmarshal payload ≡ ok (normal_of version items)
decodes_of version [] payload h = cc h
decodes_of version (it ∷ []) payload h =
    subst (λ z. json.unmarshal z ≡ ok (snapshot_of version it.item.content)) (ok_inj h) refl
decodes_of version (it ∷ _ ∷ _) payload h = cc h

decodes : Decodes json normal
decodes snap payload h = decodes_of snap.version snap.items payload h

-- Its item has an id, a time and a vector besides its content, which the codec loses.
abbrev snapshot : Snapshot
snapshot = record {
  version = 1;
  kind = episodic;
  items = record { item = first_item; vector = some (codes "v") } ∷ [];
}

-- An episodic memory that has nothing but an exporter.
abbrev exporting : Memory Table
exporting = record {
  kind = episodic;
  add = λ it t. (err (external 0), t);
  search = λ q k t. (err (external 0), t);
  get = λ id t. (err (external 0), t);
  update = λ id fn t. (err (external 0), t);
  remove = λ id t. (err (external 0), t);
  stats = λ t. record { count = 0; capacity = pos 0; avg_importance = 0; oldest_age = pos 0 };
  as_lister = none;
  as_exporter = some (λ t. (ok snapshot, t));
  as_importer = none;
}

abbrev mgr : Manager Table
mgr = record {
  opts = record {
    working = no_tier;
    episodic = record no_tier { memory = some exporting };
    semantic = no_tier;
    snapshot_store = some (as_snapshot_store json store now);
  };
}

abbrev key : Text
key = codes "k"

abbrev out : KindMap Snapshot
out = (episodic, snapshot) ∷ []

abbrev exported : Table
exported = (export_all mgr rt key empty).1

named : text_eq key [] ≡ false
unfolding text_eq
named = refl

import_all-export_all_example :
    ReadsBack rt json store now (λ t. t) mgr key (each_snapshot normal out) exported
unfolding export_all fan_out exporter_at tier_for save_loop save sanitize_sqlite_key key_chars
    is_key_char in_range lookup_kind kind_eq text_eq
import_all-export_all_example =
    import_all-export_all rt rt-IsLawful json store now (λ t. t) db-IsSql db-Answers mgr refl key
      named normal decodes empty refl ((refl, tt), ((λ h. refl), ((λ h. cc h), ((λ h. refl), tt))))
