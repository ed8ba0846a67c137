-- ===== src/Cloudtrail/Messages.antt =====
-- What becomes of the messages that `analyze_log` takes from its queue
-- (cloudigrade/api/clouds/aws/tasks/cloudtrail.py).
use cloudigrade.Prelude.{
  ℕ, ◌≡◌, refl, ◌∙◌, ap, sym, Bool, true, false, ◌||◌, not, Option, none, some, List, [], ◌∷◌, ◌++◌,
  inl, inr, Bool-cases, ◌>>=◌, if◌then◌else◌,
}
use cloudigrade.Orm.{Orm}
use cloudigrade.Aws.Tables.{AwsDb}
use cloudigrade.Aws.Images.{ImageNames}
use cloudigrade.Cloudtrail.Records.{Dates}
use cloudigrade.Cloudtrail.Loading.{Describing}
use cloudigrade.Cloudtrail.Process.{
  read_error, no_content, records, LogFile, Message, parse_aws_account_id,
  process_cloudtrail_message, analyze_message, Analyzed, analyze_log,
}

-- The file is passed over or has records.
abbrev pub is_readable : AwsDb → LogFile → Bool
is_readable w f =
    not (parse_aws_account_id w f.key).1
    || (elim f.content [ read_error ↦ false | no_content ↦ false | records _ ↦ true ])

module _ (orm : Orm) (names : ImageNames) (dates : Dates) (aws : Describing) (max_allowed now : ℕ)
    (is_inspected_object : Bool) where
  -- The result of a message's processing in the tables: `none` where its body cannot be read, or an
  -- exception is raised on the way.
  abbrev pub outcome : Message → AwsDb → Option (Bool × AwsDb)
  outcome m w = m.files >>= λ (files : List LogFile).
      process_cloudtrail_message orm names dates aws max_allowed now is_inspected_object files w

  -- The message is processed, and true is returned.
  abbrev pub succeeds : Message → AwsDb → Bool
  succeeds m w = elim (outcome m w) [ none ↦ false | some result ↦ result.0 ]

  -- The tables after the message: an exception leaves them as they were.
  abbrev pub tables_after : Message → AwsDb → AwsDb
  tables_after m w = elim (outcome m w) [ none ↦ w | some result ↦ result.1 ]

  abbrev run : List Message → AwsDb → Analyzed
  run messages w = analyze_log orm names dates aws max_allowed now is_inspected_object messages w

  -- The message in front of the lists, in the one that it belongs to.
  abbrev put : Bool → Message → Analyzed → Analyzed
  put success m rest =
      if success then (m ∷ rest.0, rest.1, rest.2) else (rest.0, m ∷ rest.1, rest.2)

  analyze_message-outcome :
      (m : Message) (w : AwsDb)
      → analyze_message orm names dates aws max_allowed now is_inspected_object m w
        ≡ (succeeds m w, tables_after m w)
  unfolding analyze_message
  analyze_message-outcome m w = both (outcome m w)
    where
      both :
          (o : Option (Bool × AwsDb))
          → ◌≡◌ {A = Bool × AwsDb}
              (elim o [ none ↦ (false, w) | some result ↦ result ])
              (
                (elim o [ none ↦ false | some result ↦ result.0 ]),
                (elim o [ none ↦ w | some result ↦ result.1 ]),
              )
      both none = refl
      both (some result) = refl

  analyze_log-cons :
      (m : Message) (messages : List Message) (w : AwsDb)
      → run (m ∷ messages) w ≡ put (succeeds m w) m (run messages (tables_after m w))
  unfolding analyze_log
  analyze_log-cons m messages w = rw (analyze_message-outcome m w) refl

  -- What the queue comes to, from what came of the messages before the one that is looked at.
  abbrev joined : List Message → Message → Analyzed → Analyzed
  joined after m (successes, failures, w') =
      let (successes', failures', w_end) = run after (tables_after m w') in
      (
        successes ++ (if succeeds m w' then m ∷ [] else []) ++ successes',
        failures ++ (if succeeds m w' then [] else m ∷ []) ++ failures',
        w_end,
      )

  joined-put :
      (after : List Message) (m b : Message) (s : Bool) (l : Analyzed)
      → put s b (joined after m l) ≡ joined after m (put s b l)
  joined-put after m b true l = refl
  joined-put after m b false l = refl

  joined_first :
      (after : List Message) (m : Message) (w : AwsDb)
      → put (succeeds m w) m (run after (tables_after m w)) ≡ joined after m ([], [], w)
  joined_first after m w = elim (Bool-cases (succeeds m w)) [
    | inl e ↦ rw (e) refl
    | inr e ↦ rw (e) refl
  ]

  analyze_log-nil : (w : AwsDb) → run [] w ≡ ([], [], w)
  unfolding analyze_log
  analyze_log-nil w = refl

  -- A message of the queue is processed in the tables that the messages before it leave. Where it is
  -- processed and true is returned, it is among those to delete, at its place between those before it and
  -- those after it; where false is returned, an exception is raised or its body cannot be read, it is
  -- among those that failed, at its place likewise. The messages after it are processed in the tables
  -- that it leaves, which an exception does not change.
  pub analyze_log-succeeds :
      (before after : List Message) (m : Message) (w : AwsDb)
      → let (successes, failures, w') =
          analyze_log orm names dates aws max_allowed now is_inspected_object before w in
        let (successes', failures', w_end) =
          analyze_log orm names dates aws max_allowed now is_inspected_object after
            (tables_after m w') in
        analyze_log orm names dates aws max_allowed now is_inspected_object (before ++ m ∷ after) w
        ≡ (
          successes ++ (if succeeds m w' then m ∷ [] else []) ++ successes',
          failures ++ (if succeeds m w' then [] else m ∷ []) ++ failures',
          w_end,
        )
  analyze_log-succeeds [] after m w =
      analyze_log-cons m after w
      ∙ joined_first after m w
      ∙ ap (joined after m) (sym (analyze_log-nil w))
  analyze_log-succeeds (b ∷ before) after m w =
      let w' = tables_after b w in
      analyze_log-cons b (before ++ m ∷ after) w
      ∙ ap (put (succeeds b w) b) (analyze_log-succeeds before after m w')
      ∙ joined-put after m b (succeeds b w) (run before w')
      ∙ ap (joined after m) (sym (analyze_log-cons b before w))
