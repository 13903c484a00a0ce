-- ===== src/Mysql/Config/Laws.antt =====
-- What a configuration that is accepted promises.
use Prim.Native.Nat.{ℕ, suc}
use Prim.Native.String.{String}
use mathlib.Core.List
use mathlib.Core.List.{Mem, not-mem-nil, mem-cons}
use mathlib.Core.Logic.Or
use mathlib.Core.Bool.{Bool-set}
use dbprobe.Base.{
  Option, none, some, Bool, true, false, not, ◌==◌, ◌≡◌, ◌≢◌, ◌⊎◌, inl, inr, refl, ap, subst,
  Bool-cases, arith, eq_iff, if◌then◌else◌,
}
use dbprobe.Base.Contains.{contains}
use dbprobe.Base.GoMap.{GoMap, keys, lookup, insert, lookup-insert}
use dbprobe.Base.GoStrings.{trim_space}
use dbprobe.Base.Outcome.{ok, >>=-eq-ok, fail_if-eq-ok, ok_inj}
use dbprobe.Mysql.Config.{
  allowed_options, Url, DriverConfig, Driver, Config, lower_is, only_value, safe_query, tls_value,
  switch_mode, first_value, mode_of, join_host_port, addr_of, config_of, accepted, database_of,
  is_loopback_host, validate_tls_mode, url_of, parsed_dsn, or_seconds, with_timeouts, parse_config,
}

-- The mode that the driver is asked for: encrypted, or not, and then the host is this machine.
abbrev pub IsSafeMode : Bool → String → Type 0
IsSafeMode is_local mode = (mode ≡ "true") ⊎ ((mode ≡ "false") × (is_local ≡ true))

tls_value-first_value :
    (values : Option (List.List String)) {value : String}
    → tls_value values ≡ ok value
    → first_value values ≡ value
tls_value-first_value none h = cc
tls_value-first_value (some List.[]) h = cc
tls_value-first_value (some (List.◌∷◌ v List.[])) h =
    let (_, e) =
      fail_if-eq-ok (trim_space v == "") "MySQL target requires an explicit tls mode" (ok v) h in
    cc
tls_value-first_value (some (List.◌∷◌ v (List.◌∷◌ w vs))) h = cc

switch_mode-IsSafeMode :
    (encrypted plain is_local : Bool)
    → switch_mode encrypted plain is_local ≡ ok tt
    → IsSafeMode is_local (if encrypted then "true" else "false")
switch_mode-IsSafeMode true plain is_local h = inl refl
switch_mode-IsSafeMode false true true h = inr (refl, refl)
switch_mode-IsSafeMode false true false h = cc
switch_mode-IsSafeMode false false is_local h = cc

database_of-eq-ok : (o : Option String) {result : String} → database_of o ≡ ok result → result ≢ ""
database_of-eq-ok none h = cc
database_of-eq-ok (some name) {result} h =
    let (given, e) = fail_if-eq-ok (name == "") "MySQL target requires a database" (ok name) h in
    let same : name ≡ result = cc in rw (← same) (ground (arith, eq_iff name ""))

parsed_dsn-eq-ok :
    {D : Type 0} (driver : Driver D) (o : Option (DriverConfig D)) {parsed : DriverConfig D}
    → parsed_dsn driver o ≡ ok parsed
    → o ≡ some parsed
parsed_dsn-eq-ok driver none h = cc
parsed_dsn-eq-ok driver (some parsed) h = cc

accepted-eq-some : (o : Option Url) {u : Url} → accepted o ≡ ok u → o ≡ some u
accepted-eq-some none h = cc
accepted-eq-some (some v) h =
    let (_, e) = fail_if-eq-ok (not (v.scheme == "mysql")) "invalid MySQL target" (ok v) h in
    ap some (ok_inj e)

-- The options of the URL are all among those that are allowed.
safe_query-allowed :
    (query : GoMap (List.List String)) (safe : GoMap String) {result : GoMap String}
    → safe_query query safe ≡ ok result
    → (key : String) → Mem key (keys query)
    → contains allowed_options key ≡ true
unfolding safe_query
safe_query-allowed List.[] safe h key m = absurd (not-mem-nil m)
safe_query-allowed (List.◌∷◌ (k, values) query) safe h key m =
    let (allowed, h1) =
      fail_if-eq-ok (not (contains allowed_options k)) "unsupported MySQL connection option" _ h in
    let (value, _, h2) = >>=-eq-ok (only_value values) _ h1 in
    Or.elim (Bool-set _ _) (mem-cons.0 m) (λ e. rw e (ground arith))
      (λ t. safe_query-allowed query (insert k value safe) h2 key t)

module _ {D : Type 0} (driver : Driver D) where
  -- What a URL that is accepted says, and what the configuration of it holds.
  pub record IsSafe (raw : String) (config : Config D) : Type 0 where
    pub url : Url
    pub read : driver.parse_url raw ≡ some url
    pub host_is : config.host ≡ url.hostname
    pub host_given : config.host ≢ ""
    pub database_given : config.database ≢ ""
    pub allowed : (key : String) → Mem key (keys url.query) → contains allowed_options key ≡ true
    pub options : GoMap String
    pub parsed : DriverConfig D
    pub asked :
        driver.parse_dsn url.user url.password
          (join_host_port config.host config.port)
          config.database
          options
        ≡ some parsed
    pub mode : String
    pub mode_asked : lookup options "tls" ≡ some mode
    pub mode_safe : IsSafeMode (is_loopback_host driver config.host) mode
    pub connects_as : config.driver_config ≡ with_timeouts driver parsed
    pub timeout_set : driver.is_zero config.driver_config.timeout ≡ false
    pub read_timeout_set : driver.is_zero config.driver_config.read_timeout ≡ false
    pub write_timeout_set : driver.is_zero config.driver_config.write_timeout ≡ false

  validate_tls_mode-IsSafeMode :
      (host : String) (query : GoMap (List.List String))
      → validate_tls_mode driver host query ≡ ok tt
      → IsSafeMode (is_loopback_host driver host) (mode_of (first_value (lookup query "tls")))
  unfolding validate_tls_mode
  validate_tls_mode-IsSafeMode host query h =
      let (value, e, h1) = >>=-eq-ok (tls_value (lookup query "tls")) _ h in
      rw (tls_value-first_value (lookup query "tls") e) (
        switch_mode-IsSafeMode (lower_is (trim_space value) "true")
          (lower_is (trim_space value) "false") (is_loopback_host driver host) h1)

  or_seconds-lasting :
      ((n : ℕ) → driver.is_zero (driver.seconds (suc n)) ≡ false)
      → (duration : D) (n : ℕ) → driver.is_zero (or_seconds driver duration (suc n)) ≡ false
  or_seconds-lasting lasting duration n = elim (Bool-cases (driver.is_zero duration)) [
    | inl zero ↦ rw zero (lasting n)
    | inr more ↦ rw more more
  ]

  url_of-eq-ok : (raw : String) {u : Url} → url_of driver raw ≡ ok u → driver.parse_url raw ≡ some u
  url_of-eq-ok raw h = accepted-eq-some (driver.parse_url raw) h

  config_of-IsSafe :
      ((n : ℕ) → driver.is_zero (driver.seconds (suc n)) ≡ false)
      → (raw : String) (u : Url) (database : String) (safe : GoMap String) (parsed : DriverConfig D)
      → driver.parse_url raw ≡ some u
      → u.hostname ≢ ""
      → database ≢ ""
      → ((key : String) → Mem key (keys u.query) → contains allowed_options key ≡ true)
      → IsSafeMode
          (is_loopback_host driver u.hostname)
          (mode_of (first_value (lookup u.query "tls")))
      → driver.parse_dsn u.user u.password
          (addr_of u)
          database
          (insert "tls" (mode_of (first_value (lookup u.query "tls"))) safe)
        ≡ some parsed
      → IsSafe raw (config_of driver raw u database parsed)
  config_of-IsSafe lasting raw u database safe parsed read hosted stored allowed moded asked =
      let mode = mode_of (first_value (lookup u.query "tls")) in
      record {
        url = u;
        read = read;
        host_is = refl;
        host_given = hosted;
        database_given = stored;
        allowed = allowed;
        options = insert "tls" mode safe;
        parsed = parsed;
        asked = asked;
        mode = mode;
        mode_asked = lookup-insert "tls" "tls" mode safe;
        mode_safe = moded;
        connects_as = refl;
        timeout_set = or_seconds-lasting lasting parsed.timeout 4;
        read_timeout_set = or_seconds-lasting lasting parsed.read_timeout 9;
        write_timeout_set = or_seconds-lasting lasting parsed.write_timeout 9;
      }

  -- A URL that is accepted gives a configuration with a host, a database and times that are not zero. All
  -- options of the URL are allowed ones, and the driver is asked for encryption, unless the host is this
  -- machine and the URL says `tls=false`. It supposes that a number of seconds that is not zero is not
  -- the duration zero.
  pub parse_config-IsSafe :
      ((n : ℕ) → driver.is_zero (driver.seconds (suc n)) ≡ false)
      → (raw : String) {config : Config D} → parse_config driver raw ≡ ok config
      → IsSafe raw config
  unfolding parse_config
  parse_config-IsSafe lasting raw {config} h =
      let (u, given, h1) = >>=-eq-ok (url_of driver raw) _ h in
      let (named, h2) = fail_if-eq-ok (u.hostname == "") "MySQL target requires a host" _ h1 in
      let (database, stored, h3) = >>=-eq-ok (database_of u.database) _ h2 in
      let (safe, kept, h4) = >>=-eq-ok (safe_query u.query List.[]) _ h3 in
      let (_, checked, h5) = >>=-eq-ok (validate_tls_mode driver u.hostname u.query) _ h4 in
      let options = insert "tls" (mode_of (first_value (lookup u.query "tls"))) safe in
      let (parsed, answered, h6) =
        >>=-eq-ok
          (parsed_dsn driver (driver.parse_dsn u.user u.password (addr_of u) database options)) _
          h5 in
      subst (IsSafe raw) (ok_inj h6) (
        config_of-IsSafe lasting raw u database safe parsed (url_of-eq-ok raw given)
          (ground (arith, eq_iff u.hostname "")) (database_of-eq-ok u.database stored)
          (safe_query-allowed u.query List.[] kept)
          (validate_tls_mode-IsSafeMode u.hostname u.query checked)
          (parsed_dsn-eq-ok driver _ answered))
