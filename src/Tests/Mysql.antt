-- ===== src/Tests/Mysql.antt =====
-- The configuration of a target on this machine, without encryption, and refusals.
use Prim.Native.Nat.{ℕ, suc}
use dbprobe.Base.{
  ◌&&◌, ◌||◌, true, none, some, false, [], ◌∷◌, ◌==◌, nat_eq, if◌then◌else◌, ◌≡◌, refl, arith,
}
use dbprobe.Base.GoMap.{insert, lookup}
use dbprobe.Base.GoStrings.{trim_space, trim_left, trim_right}
use dbprobe.Base.Outcome.{ok, err}
use dbprobe.Explain.Statement.{contains_rune, upper_is}
use dbprobe.Mysql.Capabilities.{
  Probe, answers, probe_performance_schema, probe_explain, discover_capabilities,
}
use dbprobe.Mysql.Capabilities.Laws.{
  is_granted, plain_needs, performance_needs, has-discover_capabilities,
}
use dbprobe.Sdk.Capability.{has}
use dbprobe.Mysql.Config.{
  Url, Driver, DriverConfig, config_of, lower_is, parse_config, safe_query, validate_tls_mode,
}
use dbprobe.Mysql.Config.Laws.{IsSafe, parse_config-IsSafe}

abbrev local_url : Url
local_url = record {
  scheme = "mysql";
  hostname = "LocalHost";
  port = "";
  database = some "shop";
  user = "dbprobe";
  password = "secret";
  query = ("tls", " False " ∷ []) ∷ ("timeout", "3" ∷ []) ∷ [];
}

abbrev answer : DriverConfig ℕ
answer = record { dsn = "shop"; timeout = 3; read_timeout = 0; write_timeout = 0 }

abbrev driver : Driver ℕ
driver = record {
  parse_url = λ raw. some local_url;
  is_loopback_ip = λ host. false;
  parse_dsn =
      λ user password addr database options. if addr == "LocalHost:3306" then some answer else none;
  format_dsn = λ config. config.dsn;
  seconds = λ n. n;
  is_zero = λ duration. nat_eq duration 0;
}

accepted_locally :
    parse_config driver "mysql://LocalHost/shop"
    ≡ ok (config_of driver "mysql://LocalHost/shop" local_url "shop" answer)
unfolding parse_config safe_query validate_tls_mode insert lookup lower_is upper_is trim_space
    trim_left trim_right contains_rune
accepted_locally = refl

remote_refused :
    validate_tls_mode driver "db.example" local_url.query
    ≡ err "remote MySQL target requires tls=true"
unfolding validate_tls_mode lookup lower_is upper_is trim_space trim_left trim_right
remote_refused = refl

option_refused :
    safe_query (("allowAllFiles", "true" ∷ []) ∷ []) [] ≡ err "unsupported MySQL connection option"
unfolding safe_query
option_refused = refl

not_zero : (n : ℕ) → nat_eq (suc n) 0 ≡ false
not_zero n = ground arith

parse_config-IsSafe_example :
    IsSafe driver "mysql://LocalHost/shop"
      (config_of driver "mysql://LocalHost/shop" local_url "shop" answer)
parse_config-IsSafe_example =
    parse_config-IsSafe driver not_zero "mysql://LocalHost/shop" accepted_locally

-- a server with the performance schema that answers two statements only
abbrev probe : Probe
probe query =
    if (query == probe_performance_schema) || (query == probe_explain) then none else some "denied"

has-discover_capabilities_example : has (discover_capabilities true probe) "query.explain" ≡ (
    (answers probe probe_performance_schema
      && (("mysql.performance_schema" == "query.explain")
          || is_granted probe performance_needs "query.explain"))
    || is_granted probe plain_needs "query.explain")
has-discover_capabilities_example = has-discover_capabilities true probe "query.explain"
