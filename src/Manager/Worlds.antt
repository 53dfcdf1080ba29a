-- ===== src/Manager/Worlds.antt =====
-- Memories (memory/manager.go) that keep to their own part of a world.
use llm_agent_memory.Common.{none, some}
use llm_agent_memory.Manager.{Memory, Method}

-- A method of an object that stands beside others.
abbrev pub beside : {E X A : Type 0} → Method E A → Method (E × X) A
beside call (m, x) = let (r, m') = call m in (r, (m', x))

-- A memory that stands beside others.
abbrev pub memory_beside : {E X : Type 0} → Memory E → Memory (E × X)
memory_beside mem = record {
  kind = mem.kind;
  add = λ item. beside (mem.add item);
  search = λ query top_k. beside (mem.search query top_k);
  get = λ id. beside (mem.get id);
  update = λ id fn. beside (mem.update id fn);
  remove = λ id. beside (mem.remove id);
  stats = λ w. mem.stats w.0;
  as_lister = elim mem.as_lister [
    | none ↦ none
    | some lister ↦ some (λ f size cursor. beside (lister f size cursor))
  ];
  as_exporter = none;
  as_importer = none;
}

-- A memory that stands after others.
abbrev pub memory_after : {E X : Type 0} → Memory X → Memory (E × X)
memory_after mem = record {
  kind = mem.kind;
  add = λ item (w, x). let (r, x') = mem.add item x in (r, (w, x'));
  search = λ query top_k (w, x). let (r, x') = mem.search query top_k x in (r, (w, x'));
  get = λ id (w, x). let (r, x') = mem.get id x in (r, (w, x'));
  update = λ id fn (w, x). let (r, x') = mem.update id fn x in (r, (w, x'));
  remove = λ id (w, x). let (r, x') = mem.remove id x in (r, (w, x'));
  stats = λ (w, x). mem.stats x;
  as_lister = elim mem.as_lister [
    | none ↦ none
    | some lister ↦
        some (λ f size cursor (w, x). let (r, x') = lister f size cursor x in (r, (w, x')))
  ];
  as_exporter = none;
  as_importer = none;
}
