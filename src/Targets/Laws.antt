-- ===== src/Targets/Laws.antt =====
-- What the services on targets answer.
use Prim.Native.String
use dbprobe.Base.{
  String, Option, some, true, not, ◌||◌, ◌==◌, ◌≡◌, ◌≢◌, ◌⊎◌, inl, inr, refl, sym, ◌∙◌, subst,
  arith, eq_iff,
}
use dbprobe.Base.GoStrings.{trim_space}
use dbprobe.Base.Outcome.{Outcome, ok, err, >>=-eq-ok, fail_if-eq-ok, wrap, Outcome-cases}
use dbprobe.Baseline.Memory.{Memory, held_for}
use dbprobe.Baseline.Memory.Laws.{IsValid}
use dbprobe.DiffReport.Laws.{Reported, memory_reader, run-Reported}
use dbprobe.Explain.Sanitizer.{Codec, Json}
use dbprobe.Explain.Sanitizer.Laws.{IsClean}
use dbprobe.Explain.Statement.{explain_with_executor}
use dbprobe.Explain.Statement.Laws.{IsScreened, explain_with_executor-IsScreened}
use dbprobe.Inspect.History.{TargetMetadata}
use dbprobe.Inspect.Service.{Outside, Runtime}
use dbprobe.Registry.{Registry}
use dbprobe.Sdk.Capability.{has}
use dbprobe.Sdk.Number.{Float64}
use dbprobe.Targets.{
  PlanReport, close_error, pair_for, open_runtime, resolve_target, diff_target, explain_target,
}
use dbprobe.Temporal.Regression.{MetricPair}
use dbprobe.Temporal.Snapshot.{Hash}

-- What is behind the report of an explanation of a MySQL target: the runtime that the target is opened
-- as, the statement that its database was sent, and the value whose JSON is shown.
pub record IsExplained {N : Type 0} (outside : Outside N) (registry : Registry)
    (raw_target : String) (codec : Codec) (executor : Runtime N → String → Outcome String)
    (report : PlanReport) : Type 0 where
  pub runtime : Runtime N
  pub opened : open_runtime outside registry raw_target ≡ ok runtime
  pub may_explain : has runtime.capabilities "query.explain" ≡ true
  pub target_is : report.target ≡ runtime.target
  pub sent : String
  pub screened : IsScreened sent
  pub plan : String
  pub answered : executor runtime (String.◌++◌ "EXPLAIN FORMAT=JSON " sent) ≡ ok plan
  pub root : Json
  pub clean : IsClean "" root
  pub shown : codec.marshal root ≡ some report.plan
  pub flags : (report.estimated ≡ true) × (report.sanitized ≡ true)

module _ {N : Type 0} (outside : Outside N) (registry : Registry) (raw_target : String) where
  -- A target that is resolved has a fingerprint.
  resolve_target-named :
      (closing : Runtime N → Option String) {target : TargetMetadata}
      → resolve_target outside closing (some registry) raw_target ≡ ok target
      → target.fingerprint ≢ ""
  unfolding resolve_target
  resolve_target-named closing {target} h =
      let (runtime, _, h1) = >>=-eq-ok (open_runtime outside registry raw_target) _ h in
      let t = runtime.target in
      let (_, _, h2) =
        >>=-eq-ok (wrap "close target runtime: " (close_error (closing runtime))) _ h1 in
      let (given, h3) =
        fail_if-eq-ok ((t.engine == "") || (t.adapter_id == "") || (t.fingerprint == ""))
          "adapter returned incomplete target metadata" _ h2 in
      let same : t ≡ target = cc in rw (← same) (ground (arith, eq_iff t.fingerprint ""))

  -- Over a store in memory that satisfies its invariant: if the target cannot be resolved, its diff
  -- fails with that error. Otherwise the diff is the report on the newest snapshot of the fingerprint of
  -- the target and the newest one from before its time, or "snapshot not found".
  pub diff_target-Reported :
      ⦃f : Float64 N⦄ (hash : Hash) (m : Memory N)
      → IsValid hash m
      → (closing : Runtime N → Option String)
        (metrics : Option (TargetMetadata → Option MetricPair))
      → ((message : String) × (resolve_target outside closing (some registry) raw_target
            ≡ err message)
          × (diff_target
                (resolve_target outside closing (some registry))
                (some (memory_reader hash m))
                metrics
                raw_target
              ≡ err message))
        ⊎ ((target : TargetMetadata) × (resolve_target outside closing (some registry) raw_target
              ≡ ok target)
            × Reported (held_for m target.fingerprint) (
                diff_target
                  (resolve_target outside closing (some registry))
                  (some (memory_reader hash m))
                  metrics
                  raw_target))
  unfolding diff_target
  diff_target-Reported hash m v closing metrics =
      elim (Outcome-cases (resolve_target outside closing (some registry) raw_target)) [
        | inr (message, e) ↦ inl (message, e, rw e refl)
        | inl (target, e) ↦ inr (
          target,
          e,
          rw e (
              run-Reported hash v target.fingerprint (resolve_target-named closing e)
                (pair_for metrics target)),
        )
      ]

  -- An explanation of a target of MySQL that is reported is by the runtime that the target is opened as,
  -- which has the capability `query.explain` and whose target the report names. The database of that
  -- runtime was sent one statement to explain, which begins with SELECT, has no semicolon, NUL or `:=`,
  -- and has nowhere, between space, the words of INTO or of a locking clause. What is shown is the JSON
  -- of a value that holds nothing but what the lists of keys allow, and is marked as estimated and
  -- sanitized.
  pub explain_target-IsExplained :
      (codec : Codec) (executor : Runtime N → String → Outcome String) (statement : String)
      (report : PlanReport)
      → explain_target outside
          (λ runtime. some (explain_with_executor codec (executor runtime)))
          (some registry)
          raw_target
          statement
        ≡ ok report
      → IsExplained outside registry raw_target codec executor report
  unfolding explain_target
  explain_target-IsExplained codec executor statement report h =
      let (runtime, opened, h1) = >>=-eq-ok (open_runtime outside registry raw_target) _ h in
      let (able, h2) =
        fail_if-eq-ok (not (has runtime.capabilities "query.explain"))
          "target does not expose query.explain capability" _ h1 in
      let (result, explained, h3) =
        >>=-eq-ok
          (explain_with_executor codec (executor runtime) (record { statement = statement })) _
          h2 in
      let (_, h4) =
        fail_if-eq-ok ((result.engine == "") || not (result.engine == runtime.target.engine))
          "adapter returned an invalid explain engine" _ h3 in
      let (safe, h5) =
        fail_if-eq-ok
          ((trim_space result.format == "")
            || (trim_space result.plan == "")
            || not result.estimated
            || not result.sanitized)
          "adapter returned an invalid safe plan-only explain result" _ h4 in
      let (sent, plan, root, reads, answered, clean, written) =
        explain_with_executor-IsScreened codec (executor runtime) (record { statement = statement })
          result explained in
      let estimated : result.estimated ≡ true = ground arith in
      let sanitized : result.sanitized ≡ true = ground arith in
      let has_it : has runtime.capabilities "query.explain" ≡ true = ground arith in
      let e : result.plan ≡ report.plan = cc in
      let es : result.estimated ≡ report.estimated = cc in
      let eq : result.sanitized ≡ report.sanitized = cc in
      let same : runtime.target ≡ report.target = cc in
      record {
        runtime = runtime;
        opened = opened;
        may_explain = has_it;
        target_is = sym same;
        sent = sent;
        screened = reads;
        plan = plan;
        answered = answered;
        root = root;
        clean = clean;
        shown = subst (λ t. codec.marshal root ≡ some t) e written;
        flags = (sym es ∙ estimated, sym eq ∙ sanitized);
      }
