-- ===== src/Mysql/Config.antt =====
-- adapters/mysql/config.go: the configuration that a URL asks for, and its refusals.
pub mod Laws
use Prim.Native.Nat.{ℕ, ◌-◌}
use Prim.Native.Char.{code}
use Prim.Native.String.{String, [], ◌∷◌, ◌++◌}
use mathlib.Core.List
use dbprobe.Base.{
  Option, none, some, Bool, true, false, not, ◌&&◌, ◌||◌, ◌==◌, leb, nat_eq, if◌then◌else◌,
}
use dbprobe.Base.Contains.{contains}
use dbprobe.Base.GoMap.{GoMap, lookup, insert}
use dbprobe.Base.GoStrings.{trim_space}
use dbprobe.Base.Outcome.{Outcome, ok, err, ◌>>=◌, ◌>>◌, fail_if}
use dbprobe.Explain.Statement.{contains_rune, upper_is}

-- `allowedConnectionOptions`
abbrev pub allowed_options : List.List String
allowed_options =
    List.◌∷◌ "tls" (List.◌∷◌ "timeout" (List.◌∷◌ "readTimeout" (List.◌∷◌ "writeTimeout" List.[])))

-- what `url.Parse` finds: the name of the database is none when it has a wrong escape
pub record Url : Type 0 where
  pub scheme : String
  pub hostname : String
  pub port : String
  pub database : Option String
  pub user : String
  pub password : String
  pub query : GoMap (List.List String)

-- the configuration of the driver; a duration is a `D`
pub record DriverConfig (D : Type 0) : Type 0 where
  pub dsn : String
  pub timeout : D
  pub read_timeout : D
  pub write_timeout : D

-- what comes from the driver and from the libraries of Go
pub record Driver (D : Type 0) : Type 0 where
  pub parse_url : String → Option Url
  pub is_loopback_ip : String → Bool
  pub parse_dsn : String → String → String → String → GoMap String → Option (DriverConfig D)
  pub format_dsn : DriverConfig D → String
  pub seconds : ℕ → D
  pub is_zero : D → Bool

pub record Config (D : Type 0) : Type 0 where
  pub host : String
  pub port : String
  pub database : String
  pub display_name : String
  pub driver_config : DriverConfig D
  pub driver_dsn : String
  pub raw_target : String
  pub password : String

-- `unicode.ToLower` by codes, as far as the small letters of ASCII are concerned: they are the lower
-- case of the capitals, of the Kelvin sign and of the capital I with a dot, and of no other letter
abbrev lower_is_on : ℕ → ℕ → Bool
lower_is_on c d =
    nat_eq c d
    || (leb 97 d && leb d 122 && nat_eq c (d - 32))
    || (nat_eq c 8490 && nat_eq d 107)
    || (nat_eq c 304 && nat_eq d 105)

-- `strings.ToLower(s) == word`, where the word has small letters of ASCII only
unfoldable pub lower_is : String → String → Bool
lower_is [] [] = true
lower_is [] (d ∷ word) = false
lower_is (c ∷ s) [] = false
lower_is (c ∷ s) (d ∷ word) = lower_is_on (code c) (code d) && lower_is s word

-- a URL that cannot be read, or has another scheme, is refused
abbrev pub accepted : Option Url → Outcome Url
accepted none = err "invalid MySQL target"
accepted (some u) = fail_if (not (u.scheme == "mysql")) "invalid MySQL target" >> ok u

-- the one value of an option
abbrev pub only_value : List.List String → Outcome String
only_value List.[] = err "MySQL connection option must be specified once"
only_value (List.◌∷◌ value List.[]) = ok value
only_value (List.◌∷◌ value (List.◌∷◌ other values)) =
    err "MySQL connection option must be specified once"

-- the loop over the options
unfoldable pub safe_query : GoMap (List.List String) → GoMap String → Outcome (GoMap String)
safe_query List.[] safe = ok safe
safe_query (List.◌∷◌ (key, values) query) safe = do
  fail_if (not (contains allowed_options key)) "unsupported MySQL connection option"
  value ← only_value values
  safe_query query (insert key value safe)

-- the value of the option `tls`, when it has one that is not blank
abbrev pub tls_value : Option (List.List String) → Outcome String
tls_value (some (List.◌∷◌ value List.[])) =
    fail_if (trim_space value == "") "MySQL target requires an explicit tls mode" >> ok value
tls_value other = err "MySQL target requires an explicit tls mode"

-- the switch of `validateTLSMode`, by whether the mode is the one, whether it is the other, and whether
-- the host is this machine
abbrev pub switch_mode : Bool → Bool → Bool → Outcome (Unit {0})
switch_mode true plain local = ok tt
switch_mode false true local = fail_if (not local) "remote MySQL target requires tls=true"
switch_mode false false local = err "MySQL tls mode must be true, or false for loopback targets"

-- `query.Get`, of the values under the key
abbrev pub first_value : Option (List.List String) → String
first_value (some (List.◌∷◌ value values)) = value
first_value other = ""

-- `strings.ToLower` of the trimmed value of `tls`, which `validateTLSMode` has found to be one of two
abbrev pub mode_of : String → String
mode_of value = if lower_is (trim_space value) "true" then "true" else "false"

-- `net.JoinHostPort`: a host with a colon is put in brackets
abbrev pub join_host_port : String → String → String
join_host_port host port =
    if contains_rune 58 host then "[" ++ host ++ "]:" ++ port else host ++ ":" ++ port

abbrev pub or_default : String → String → String
or_default value default = if value == "" then default else value

abbrev pub addr_of : Url → String
addr_of u = join_host_port u.hostname (or_default u.port "3306")

abbrev pub database_of : Option String → Outcome String
database_of none = err "MySQL target requires a database"
database_of (some name) = fail_if (name == "") "MySQL target requires a database" >> ok name

module _ {D : Type 0} (driver : Driver D) where
  -- `isLoopbackHost`: a letter that folds to one of the word has it as upper case too
  abbrev pub is_loopback_host : String → Bool
  is_loopback_host host = upper_is host "LOCALHOST" || driver.is_loopback_ip host

  unfoldable pub validate_tls_mode : String → GoMap (List.List String) → Outcome (Unit {0})
  validate_tls_mode host query = do
    value ← tls_value (lookup query "tls")
    let mode = trim_space value
    switch_mode (lower_is mode "true") (lower_is mode "false") (is_loopback_host host)

  abbrev pub url_of : String → Outcome Url
  url_of raw = accepted (driver.parse_url raw)

  abbrev pub parsed_dsn : Option (DriverConfig D) → Outcome (DriverConfig D)
  parsed_dsn none = err "invalid MySQL connection options"
  parsed_dsn (some parsed) = ok parsed

  -- `if parsed.Timeout == 0`
  abbrev pub or_seconds : D → ℕ → D
  or_seconds duration n = if driver.is_zero duration then driver.seconds n else duration

  abbrev pub with_timeouts : DriverConfig D → DriverConfig D
  with_timeouts parsed = record {
    dsn = parsed.dsn;
    timeout = or_seconds parsed.timeout 5;
    read_timeout = or_seconds parsed.read_timeout 10;
    write_timeout = or_seconds parsed.write_timeout 10;
  }

  -- the configuration that is returned
  abbrev pub config_of : String → Url → String → DriverConfig D → Config D
  config_of raw u database parsed = record {
    host = u.hostname;
    port = or_default u.port "3306";
    database = database;
    display_name = addr_of u ++ "/" ++ database;
    driver_config = with_timeouts parsed;
    driver_dsn = driver.format_dsn (with_timeouts parsed);
    raw_target = raw;
    password = u.password;
  }

  unfoldable pub parse_config : String → Outcome (Config D)
  parse_config raw = do
    u ← url_of raw
    fail_if (u.hostname == "") "MySQL target requires a host"
    database ← database_of u.database
    safe ← safe_query u.query List.[]
    validate_tls_mode u.hostname u.query
    let options = insert "tls" (mode_of (first_value (lookup u.query "tls"))) safe
    parsed ← parsed_dsn (driver.parse_dsn u.user u.password (addr_of u) database options)
    ok (config_of raw u database parsed)
