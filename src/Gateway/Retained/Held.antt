-- ===== src/Gateway/Retained/Held.antt =====
-- The builder's answers behind `records_still_held` of equivalent/gateway/verification.py.
use skateboard.Prelude.{
  String, ◌≡◌, ◌≢◌, refl, true, List, [], ◌∷◌, Option, some, none, In, all, all-In, arith,
  Option-cases, inl, inr, lookup, string_eq, ap, ◌∙◌,
}
use skateboard.Errors.{ok}
use skateboard.Ledger.Artifact.{BuildArtifact, BuildTarget, BuildRecord, artifacts}
use skateboard.Gateway.Retained.{
  Builder, Report, Identity, artifact_held, matches, report_holds, records_held, records_still_held,
}

-- The builder's reply for the record's workspace holds every file of every target, reverified.
pub record IsHeld (builder : Builder) (executor : Option String) (r : BuildRecord) : Type 0 where
  pub report : Report
  pub answered : builder.artifacts r.attempt_id ≡ some report
  pub ready : report.ready ≡ true
  pub each :
      (t : BuildTarget) (a : BuildArtifact)
      → In t r.targets
      → In a (artifacts t)
      → (i : Identity) × (lookup a.path report.executables ≡ some i)
        × (i.verified ≡ true)
        × (i.sha256 ≡ some a.sha256)

matches-sha256 : (i : Identity) (a : BuildArtifact) → matches i a ≡ true → i.sha256 ≡ some a.sha256
unfolding matches
matches-sha256 i a h = elim (Option-cases i.sha256) [
  | inl e ↦ absurd (ground arith)
  | inr (d, e) ↦ e ∙ ap some ((string_eq.beq_iff d a.sha256).0 (ground arith))
]

matches-verified : (i : Identity) (a : BuildArtifact) → matches i a ≡ true → i.verified ≡ true
unfolding matches
matches-verified i a h = ground arith

artifact_held-inv :
    (report : Report) (a : BuildArtifact)
    → artifact_held report a ≡ true
    → (i : Identity) × (lookup a.path report.executables ≡ some i)
      × (i.verified ≡ true)
      × (i.sha256 ≡ some a.sha256)
unfolding artifact_held
artifact_held-inv report a h = elim (Option-cases (lookup a.path report.executables)) [
  | inl e ↦ absurd (let h' = rw (e, artifact_held) at h in ground arith)
  | inr (i, e) ↦
      let m : matches i a ≡ true = rw (e, artifact_held) at h in
      (i, e, matches-verified i a m, matches-sha256 i a m)
]

report_holds-IsHeld :
    (builder : Builder) (executor : Option String) (r : BuildRecord) (report : Report)
    → builder.artifacts r.attempt_id ≡ some report
    → report_holds executor r report ≡ true
    → IsHeld builder executor r
unfolding report_holds
report_holds-IsHeld builder executor r report e h = record {
  report = report;
  answered = e;
  ready = ground arith;
  each = λ t a i j. artifact_held-inv report a (
      all-In (artifact_held report) (artifacts t)
        (all-In (λ (t : BuildTarget). all (artifact_held report) (artifacts t)) r.targets
          (ground arith) t i)
        a j);
}

records_held-IsHeld :
    (builder : Builder) (executor : Option String) (rs : List BuildRecord)
    → records_held builder executor rs ≡ ok true
    → (r : BuildRecord) → In r rs
    → IsHeld builder executor r
unfolding records_held
records_held-IsHeld builder executor [] h r i = absurd i
records_held-IsHeld builder executor (q ∷ rest) h r i =
    elim (Option-cases (builder.artifacts q.attempt_id)) [
      | inl e ↦ absurd (ground arith)
      | inr (report, e) ↦
          let good : report_holds executor q report ≡ true = ground arith in
          elim i [
            | inl same ↦ rw same (report_holds-IsHeld builder executor q report e good)
            | inr j ↦ records_held-IsHeld builder executor rest (ground arith) r j
          ]
    ]

-- If `records_still_held` says yes, then a builder is configured, there is a record, and for every
-- record the builder answered that it is ready and that it holds, reverified and with the recorded
-- digest, every file of every target of the record.
pub records_still_held-IsHeld :
    (builder : Option Builder) (rs : List BuildRecord) (executor : Option String)
    → records_still_held builder rs executor ≡ ok true
    → (b : Builder) × (builder ≡ some b)
      × (rs ≢ [])
      × ((r : BuildRecord) → In r rs → IsHeld b executor r)
unfolding records_still_held
records_still_held-IsHeld none rs executor h = absurd (ground arith)
records_still_held-IsHeld (some b) [] executor h = absurd (ground arith)
records_still_held-IsHeld (some b) (r ∷ rest) executor h =
    (b, refl, (λ e. ground arith), records_held-IsHeld b executor (r ∷ rest) h)
