-- ===== src/Lib.antt =====
-- AILendingHub: models of the lending platform's decision core, in src/lending_hub, and what holds
-- of them.
--
-- The program's parts. The feature store (featurestore) keeps the values of features with the
-- instants at which they became true and known, and joins them to entity rows point in time; its
-- skew check compares a join with the serving path. The orchestrator (serving) decides an
-- application from policy rules, the scorer and the committee's bands. A consent (privacy) says
-- which data may be used for what, and until when. A decision is written to the decision log
-- (decisionlog), a hash chain, and re-scored from it by an audit. A model reaches production
-- through the registry's gate (mlops), and a continually learned one through the evidence gate
-- (learning), which calls the first. Fraud scores are routed by bands to a desk (fraud), whose
-- closed cases are training labels. Early-warning signals (ews) raise alerts, which are assigned
-- under a cap, disposed of, and retire the signals that they show to have decayed. Loans are staged
-- for impairment (portfolio) by the shared definition of default (definitions). The records of three
-- source systems are joined into an identity spine (identity), tables are layered (lakehouse), and
-- events are read under schemas that evolve (streaming).
--
-- Files, and the code that each is about:
--   Prelude.antt: shared names; its children hold lists, stable sorting, dicts, results and texts.
--   FeatureStore: Values (FeatureValue, FeatureSpec, FeatureSource), AsOf (as_of), Bisect
--     (bisect_right of the standard library, as as_of calls it) and Join (get_historical_features,
--     LocalFeatureStore) are src/lending_hub/featurestore/pit.py and ports.py; Skew is skew.py. Order,
--     Latest, PointInTime, NoLeak, Dataset, Known, Counts and Parity hold the lemmas and theorems.
--   DecisionLog: Record is src/lending_hub/decisionlog/record.py, Log is store.py, Replay is
--     replay.py, and Json the values that a line of the log holds. Audit, Chain and Tamper hold theorems.
--   Mlops: Artifact, Promotion and Registry are src/lending_hub/mlops/artifact.py, promotion.py and
--     the InMemoryRegistry of ports.py. Gate says what the gate asks.
--   Learning: Promotion is src/lending_hub/learning/promotion.py, Cadence is cadence.py. Standing says
--     what the gates ask, Overdue what the report of late activities says.
--   Fraud: Bands and Queue are src/lending_hub/fraud/routing.py, with alert_precision of
--     definitions/appendix_a.py. Velocity and Features are velocity.py, and Search is the binary search
--     of bisect. Actions, Cases, Labels, Buckets and Windows hold theorems.
--   Ews: Signals is src/lending_hub/ews/signals.py; Alerts, Assignment and Retirement are routing.py.
--     Manager and Decay hold theorems.
--   Serving: Bands is src/lending_hub/serving/bands.py, Decide is orchestrator.py, Parity is parity.py
--     and Ladder is shadow.py. Precedence, Backing, Agreement and Advance hold theorems.
--   Privacy: Consent is src/lending_hub/privacy/consent.py, Permission says what a consent permits.
--     Retention is retention.py, Consistent says when a configuration has no errors.
--   Definitions: Labels and Dates are src/lending_hub/definitions/appendix_a.py. Windows holds theorems.
--   Portfolio: Staging is src/lending_hub/portfolio/staging.py. Determined holds theorems.
--   Lakehouse: Layers is src/lending_hub/lakehouse/layers.py. Reads and Lineage hold theorems.
--   Streaming: Compat is src/lending_hub/streaming/compat.py. Avro and Readable hold theorems.
--   Identity: Case is what identity/keys.py and spine.py use of Python's texts, Keys is
--     src/lending_hub/identity/keys.py, Spine and Build are spine.py, Survivorship is survivorship.py.
--     Rates is the gate of audit.py. Stable, Joined, Loops, Accounts, Cases, Records, Audited and
--     Gate hold theorems.
--
-- How state and operations correspond. A class is a record of its fields and a method a function
-- from the state and its arguments to the new state; a constructor's checks are a function that
-- returns the object or the error. An exception is `err` of a data type with one constructor for
-- each text, which carries the values that the text names. A dict is an association list in order
-- of insertion. A loop is a recursion over its list whose arguments are the loop's variables.
--
-- Numbers. Instants and durations are microseconds and dates are days, as natural numbers from a
-- common start, which is datetime.min for velocity.py; cadence.py's dates are their ordinals. A
-- quotient of counts is the pair of the counts, or any division. Floats are a type of their own
-- with the comparisons that the code uses as parameters, and laws on them only where a theorem
-- names them.
--
-- Parameters for what is not in the repository: SHA-256 of the canonical JSON of a record (digest),
-- of which one theorem takes the two functions apart and asks that the text determines the link,
-- the fingerprint of the definitions, the scorer that loads a model, policy predicates, the
-- evaluators of signals, Python's equality of feature values, the two score paths that are
-- compared, and the case of characters beyond ASCII, of which one theorem asks that it brings no
-- line feed, as in Unicode. Values that wait for a decision of the bank (Pending) are options that
-- may be none.
--
-- Fuel. The searches of bisect run on the length of the list, since each round shortens the interval.
-- The search of a table's lineage runs on the number of reads in the lakehouse, since each table that
-- it finds adds its reads to the queue once.
--
-- Not modelled: the adapters to feast, MLflow and the file system, the drawing of the audit's sample
-- and clocks, since they only call code outside the repository; texts of messages and rendering to
-- dicts where nothing reads them back; the statistical code (scoring, panels and losses of the
-- portfolio, agri, uplift and others), whose content is floating-point arithmetic.
pub mod Prelude
pub mod FeatureStore
pub mod DecisionLog
pub mod Mlops
pub mod Learning
pub mod Fraud
pub mod Ews
pub mod Serving
pub mod Privacy
pub mod Definitions
pub mod Portfolio
pub mod Lakehouse
pub mod Streaming
pub mod Identity
