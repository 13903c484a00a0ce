-- ===== src/Sdk/Signal.antt =====
-- sdk/object/ref.go, sdk/signal: what collectors report. A pointer field is an `Option`; the string
-- types `Key`, `Unit`, `Exactness` and `Sensitivity` are strings, as in the source.
use dbprobe.Base.{String, Option, none, some, Bool, ◌&&◌, ◌==◌}
use dbprobe.Sdk.Clock.{Time}

pub record Ref : Type 0 where
  pub kind : String
  pub id : String

-- `==` on two `Ref` values
unfoldable pub ref_eq : Ref → Ref → Bool
ref_eq a b = (a.kind == b.kind) && (a.id == b.id)

abbrev pub exactness_cumulative : String
exactness_cumulative = "cumulative"

abbrev pub exactness_sampled : String
exactness_sampled = "sampled"

abbrev pub sensitivity_query_text : String
sensitivity_query_text = "query_text"

pub record Observation (N : Type 0) : Type 0 where
  pub key : String
  pub object : Ref
  pub unit : String
  pub exactness : String
  pub number : Option N
  pub text : Option String
  pub boolean : Option Bool
  pub collected_at : Time
  pub sensitivity : String
  pub source : String
  pub reason : String

pub record Delta (N : Type 0) : Type 0 where
  pub key : String
  pub object : Ref
  pub unit : String
  pub delta : N
  pub rate_per_second : N
  pub window_seconds : N
  pub exactness : String

module _ {N : Type 0} where
  abbrev pub number_observation : String → Ref → N → String → String → String → Time → Observation N
  number_observation key ref value unit exactness sensitivity at = record {
    key = key;
    object = ref;
    unit = unit;
    exactness = exactness;
    number = some value;
    text = none;
    boolean = none;
    collected_at = at;
    sensitivity = sensitivity;
    source = "";
    reason = "";
  }

  -- The two results of `Numeric` are one `Option`.
  abbrev pub numeric : Observation N → Option N
  numeric o = o.number
