-- ===== src/Tests/Service.antt =====
-- An inspection of a target with three collectors, one of which fails.
use dbprobe.Base.{ℕ, some, true, [], ◌∷◌}
use dbprobe.Base.Outcome.{ok}
use dbprobe.Inspect.Service.{Runtime, Outside}
use dbprobe.Registry.{Registry}
use dbprobe.Sdk.Capability.{new}
use dbprobe.Sdk.Number.{milli}
use dbprobe.Tests.Collection.{collectors}
use dbprobe.Tests.Data.{at}

abbrev pub runtime : Runtime ℕ
runtime = record {
  target = record {
    engine = "mysql";
    adapter_id = "mysql";
    fingerprint = "db1";
    display_name = "db1";
  };
  capabilities = new [];
  collectors = collectors;
  rules = [];
  security_profile = record {
    read_only_guaranteed = true;
    required = [];
    recommended = [];
    missing = [];
  };
}

abbrev pub outside : Outside ℕ
outside = record {
  url_scheme = λ raw. some "mysql";
  quote = λ text. text;
  open_target = λ selected spec. ok runtime;
  now = at 9;
}

abbrev pub mysql_only : Registry
mysql_only = record {
  adapters =
      record {
        metadata = record {
          id = "mysql";
          name = "MySQL";
          version = "1";
          contract_version = "v0.1";
        };
        is_match = λ spec. true;
      }
      ∷ [];
}
