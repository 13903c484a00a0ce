-- ===== src/Findings/Totals.antt =====
-- adapters/mysql/findings/rules.go, internal/core/findings/connections.go: the rules that put
-- together what several observations say of one object.
use Prim.Native.String.{◌++◌}
use dbprobe.Base.{
  String, Option, none, some, Bool, true, false, not, List, [], ◌∷◌, ◌==◌, ◌||◌, ◌&&◌,
  if◌then◌else◌,
}
use dbprobe.Base.GoMap.{GoMap, keys, lookup, insert}
use dbprobe.Base.GoStrings.{upper_is_on}
use dbprobe.Base.Optional.{◌>>=◌, ◌>>◌, skip_if, collect}
use dbprobe.Base.Sort.{sort_strings}
use dbprobe.Findings.{severity_at, severity_from}
use dbprobe.Findings.Groups.{group_key}
use dbprobe.Sdk.Finding.{Finding, AnalysisContext, Rule}
use dbprobe.Sdk.Number.{Float64, whole}
use dbprobe.Sdk.Signal.{Observation, Ref}

-- A field and its `has` flag are one `Option`.
pub record ReplicationChannel : Type 0 where
  pub ref : Ref
  pub receiver : Option String
  pub applier : Option String

abbrev pub channel_or_new : Ref → Option ReplicationChannel → ReplicationChannel
channel_or_new ref none = record { ref = ref; receiver = none; applier = none }
channel_or_new ref (some s) = s

-- the zero value of a string that was not set
abbrev pub text_or_empty : Option String → String
text_or_empty none = ""
text_or_empty (some s) = s

-- `hasReceiver && strings.ToUpper(receiver) == "ON"`
abbrev pub is_on : Option String → Bool
is_on none = false
is_on (some s) = upper_is_on s

module _ {N : Type 0} where
  -- the `switch` on the key
  unfoldable pub read_channel : Observation N → String → ReplicationChannel → ReplicationChannel
  read_channel obs text s =
      if obs.key == "mysql.replication.receiver_state"
      then record s { receiver = some text }
      else if obs.key == "mysql.replication.applier_state"
      then record s { applier = some text }
      else s

  unfoldable pub put_channel :
      Observation N → Option String → GoMap ReplicationChannel → GoMap ReplicationChannel
  unfolding read_channel
  put_channel obs none states = states
  put_channel obs (some text) states =
      if obs.object.kind == "mysql.replication_channel"
      then insert obs.object.id
          (read_channel obs text (channel_or_new obs.object (lookup states obs.object.id))) states
      else states

  unfoldable pub channels :
      List (Observation N) → GoMap ReplicationChannel → GoMap ReplicationChannel
  unfolding put_channel
  channels [] states = states
  channels (obs ∷ current) states = channels current (put_channel obs obs.text states)

  -- the loop of the rule on lock waits: the totals and the references by table
  unfoldable pub lock_totals :
      ⦃f : Float64 N⦄ → List (Observation N) → GoMap N → GoMap Ref → GoMap N × GoMap Ref
  lock_totals [] totals refs = (totals, refs)
  lock_totals ⦃f⦄ (obs ∷ current) totals refs = elim obs.number [
    | none ↦ lock_totals current totals refs
    | some n ↦
        if not (obs.key == "mysql.lock_wait.count") || not (obs.object.kind == "mysql.table")
        then lock_totals current totals refs
        else lock_totals current
            (insert obs.object.id (f.add (number_or_zero (lookup totals obs.object.id)) n) totals)
            (insert obs.object.id obs.object refs)
  ]
    where
      number_or_zero : Option N → N
      number_or_zero none = whole 0
      number_or_zero (some n) = n

-- `used` with `usedObs` and `hasUsed`, and `limit` with `limitObs` and `hasLimit`, are one `Option`
-- each.
pub record ConnectionState (N : Type 0) : Type 0 where
  pub ref : Ref
  pub used : Option (N × Observation N)
  pub limit : Option (N × Observation N)

module _ {N : Type 0} where
  abbrev pub connection_or_new : Ref → Option (ConnectionState N) → ConnectionState N
  connection_or_new ref none = record { ref = ref; used = none; limit = none }
  connection_or_new ref (some s) = s

  unfoldable pub read_connection : Observation N → N → ConnectionState N → ConnectionState N
  read_connection observation n s =
      if observation.key == "core.connections.used"
      then record s { used = some (n, observation) }
      else record s { limit = some (n, observation) }

  unfoldable pub put_connection :
      Observation N → Option N → GoMap (ConnectionState N) → GoMap (ConnectionState N)
  unfolding read_connection
  put_connection observation none states = states
  put_connection observation (some n) states =
      if not (observation.key == "core.connections.used")
        && not (observation.key == "core.connections.limit")
      then states
      else insert (group_key observation.object)
          (read_connection observation n
            (connection_or_new observation.object (lookup states (group_key observation.object))))
          states

  unfoldable pub connections :
      List (Observation N) → GoMap (ConnectionState N) → GoMap (ConnectionState N)
  unfolding put_connection
  connections [] states = states
  connections (observation ∷ current) states =
      connections current (put_connection observation observation.number states)

module _ {N : Type 0} ⦃f : Float64 N⦄ where
  -- `quote` is the verb `%q` of `fmt`.
  unfoldable pub replication_stopped :
      (String → String) → GoMap ReplicationChannel → String → Option (Finding N)
  replication_stopped quote states id = do
    s ← lookup states id
    skip_if (is_nil s.receiver && is_nil s.applier)
    skip_if (is_on s.receiver && is_on s.applier)
    some (record {
      id = "mysql.replication_stopped";
      title = "Replication channel is not fully running";
      severity = "critical";
      object = s.ref;
      evidence = [];
      summary =
          "Receiver state="
          ++ quote (text_or_empty s.receiver)
          ++ ", applier state="
          ++ quote (text_or_empty s.applier)
          ++ ".";
      guidance =
          "Inspect receiver/applier error codes, connectivity, source availability, and replication configuration before restarting components.";
      confidence = f.lit 95 2;
    })
    where
      is_nil : Option String → Bool
      is_nil none = true
      is_nil (some s) = false

  unfoldable pub stopped_channels : (String → String) → AnalysisContext N → List (Finding N)
  stopped_channels quote ctx =
      let states = channels ctx.current [] in
      collect (replication_stopped quote states) (sort_strings (keys states))

  abbrev pub replication_stopped_rule : (String → String) → Rule N
  replication_stopped_rule quote = record {
    id = "mysql.replication_stopped";
    requires = "replication.status" ∷ [];
    evaluate = stopped_channels quote;
  }

  unfoldable pub lock_contention : GoMap N × GoMap Ref → String → Option (Finding N)
  unfolding severity_from
  lock_contention (totals, refs) id = do
    n ← lookup totals id
    ref ← lookup refs id
    skip_if (f.lt n (whole 3))
    some (record {
      id = "mysql.lock_wait_contention";
      title = "Table has concurrent lock waits";
      severity = severity_from n (whole 10);
      object = ref;
      evidence = [];
      summary = f.fixed 0 n ++ " lock-wait edges currently involve this table.";
      guidance =
          "Inspect blocking transactions and transaction boundaries; do not automatically kill blockers without application context.";
      confidence = f.lit 90 2;
    })

  unfoldable pub contended_tables : AnalysisContext N → List (Finding N)
  contended_tables ctx =
      let totals = lock_totals ctx.current [] [] in
      collect (lock_contention totals) (sort_strings (keys totals.0))

  abbrev pub lock_contention_rule : Rule N
  lock_contention_rule = record {
    id = "mysql.lock_wait_contention";
    requires = "locking.wait_graph" ∷ [];
    evaluate = contended_tables;
  }

  unfoldable pub connection_saturation : GoMap (ConnectionState N) → String → Option (Finding N)
  unfolding severity_at
  connection_saturation states id = do
    s ← lookup states id
    used ← s.used
    limit ← s.limit
    skip_if (f.le limit.0 (whole 0) || f.lt used.0 (whole 0))
    let ratio = f.div used.0 limit.0
    severity ← severity_at ratio (f.lit 95 2) (f.lit 85 2)
    some (record {
      id = "core.connection_saturation";
      title = "Connection capacity is saturated";
      severity = severity;
      object = s.ref;
      evidence = used.1 ∷ limit.1 ∷ [];
      summary =
          f.fixed 0 used.0
          ++ " of "
          ++ f.fixed 0 limit.0
          ++ " configured connections are in use ("
          ++ f.fixed 1 (f.mul ratio (whole 100))
          ++ "%).";
      guidance =
          "Investigate connection leaks, pool sizing, long-running work, and the configured connection limit together before changing capacity.";
      confidence = f.lit 95 2;
    })

  unfoldable pub saturated_connections : AnalysisContext N → List (Finding N)
  saturated_connections ctx =
      let states = connections ctx.current [] in
      collect (connection_saturation states) (sort_strings (keys states))

  abbrev pub connection_saturation_rule : Rule N
  connection_saturation_rule = record {
    id = "core.connection_saturation";
    requires = [];
    evaluate = saturated_connections;
  }
