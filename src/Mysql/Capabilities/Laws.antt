-- ===== src/Mysql/Capabilities/Laws.antt =====
-- Which capabilities are found.
use mathlib.Core.Bool.{or_assoc, or-false, and-or_distrib_left}
use dbprobe.Base.{
  String, Bool, true, false, ◌&&◌, ◌||◌, ◌==◌, List, [], ◌∷◌, ◌++◌, ◌≡◌, refl, arith, Bool-cases,
  inl, inr,
}
use dbprobe.Base.Contains.{contains}
use dbprobe.Sdk.Capability.{has}
use dbprobe.Sdk.Capability.Laws.{has-new}
use dbprobe.Mysql.Capabilities.{
  probe_performance_schema, probe_sessions, probe_transactions, probe_query_digest, probe_indexes,
  probe_objects, probe_schema_fingerprint, probe_lock_waits, probe_replication, probe_storage_cache,
  probe_explain, probe_innodb, probe_innodb_metrics, probe_sys, Probe, answers, add_if,
  with_performance_schema, with_the_rest, discover_capabilities,
}

contains-append :
    (xs ys : List String) (k : String) → contains (xs ++ ys) k ≡ (contains xs k || contains ys k)
contains-append [] ys k = refl
contains-append (x ∷ xs) ys k = ground (arith, contains-append xs ys k)

contains-add_if :
    (probe : Probe) (query : String) (caps values : List String) (k : String)
    → contains (add_if probe query caps values) k
      ≡ (contains values k || (answers probe query && contains caps k))
unfolding add_if
contains-add_if probe query caps values k = elim (Bool-cases (answers probe query)) [
  | inl e ↦ ground (arith, contains-append values caps k)
  | inr e ↦ ground arith
]

-- The capabilities that need no performance schema, each with the statement that it needs.
abbrev pub plain_needs : List (String × String)
plain_needs =
    ("activity.transactions", probe_transactions)
    ∷ ("schema.objects", probe_objects)
    ∷ ("mysql.schema_fingerprint", probe_schema_fingerprint)
    ∷ ("query.explain", probe_explain)
    ∷ ("mysql.innodb", probe_innodb)
    ∷ ("mysql.innodb_metrics", probe_innodb_metrics)
    ∷ ("mysql.sys_schema", probe_sys)
    ∷ []

-- The capabilities that need the performance schema, each with the statement that it needs.
abbrev pub performance_needs : List (String × String)
performance_needs =
    ("activity.sessions", probe_sessions)
    ∷ ("workload.query_summary", probe_query_digest)
    ∷ ("schema.indexes", probe_indexes)
    ∷ ("locking.wait_graph", probe_lock_waits)
    ∷ ("replication.status", probe_replication)
    ∷ ("mysql.replication", probe_replication)
    ∷ ("storage.cache", probe_storage_cache)
    ∷ []

-- A capability is granted by a table when a statement of it that stands with the name is answered.
abbrev pub is_granted : Probe → List (String × String) → String → Bool
is_granted probe [] name = false
is_granted probe (need ∷ rest) name =
    (answers probe need.1 && (need.0 == name)) || is_granted probe rest name

with_the_rest-is_granted :
    (probe : Probe) (values : List String) (name : String)
    → contains (with_the_rest probe values) name
      ≡ (contains values name || is_granted probe plain_needs name)
unfolding with_the_rest
with_the_rest-is_granted probe values name = simp (contains-add_if, or_assoc, or-false)

with_performance_schema-is_granted :
    (probe : Probe) (is_readable : Bool) (name : String)
    → contains (with_performance_schema probe is_readable) name ≡ (
        is_readable
        && (("mysql.performance_schema" == name) || is_granted probe performance_needs name))
unfolding with_performance_schema
with_performance_schema-is_granted probe false name = refl
with_performance_schema-is_granted probe true name =
    simp (contains-add_if, or_assoc, or-false, and-or_distrib_left)

-- A capability is found exactly when the statement that it needs is answered and, for those of the
-- performance schema, this is switched on and can be read too; no other name is ever found.
pub has-discover_capabilities :
    (performance_schema : Bool) (probe : Probe) (name : String)
    → has (discover_capabilities performance_schema probe) name ≡ (
        (performance_schema
          && answers probe probe_performance_schema
          && (("mysql.performance_schema" == name) || is_granted probe performance_needs name))
        || is_granted probe plain_needs name)
unfolding discover_capabilities
has-discover_capabilities performance_schema probe name =
    rw (has-new, with_the_rest-is_granted, with_performance_schema-is_granted) refl
