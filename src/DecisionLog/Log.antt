-- ===== src/DecisionLog/Log.antt =====
-- decisionlog/store.py: DecisionLog. The file is the list of the dicts on its lines, the last line
-- last. `digest` is SHA-256 of the canonical JSON text of a dict, in hexadecimal: it is `hashlib`'s
-- and `json`'s, and a parameter. `None` is JSON's null, also where no hash is known yet.
use ailending_hub.Prelude.{ℕ, ◌+◌, List, [], ◌∷◌, ◌++◌, String, length, Dict}
use ailending_hub.DecisionLog.Json.{Json, null, str, get, without, Json-discrete}
use ailending_hub.DecisionLog.Record.{DecisionRecord, to_dict}

-- The dict on one line of the file.
abbrev pub Entry : Type 0 → Type 0
Entry N = Dict (Json N)

pub record DecisionLog (N : Type 0) : Type 0 where
  pub entries : List (Entry N)
  pub last_hash : Json N

pub data Detail (N : Type 0) : Type 0 where
  -- the record points at one hash, and another was expected
  broken_link : (found expected : Json N) → Detail N
  -- the content does not match the stored hash
  edited : Detail N

-- `valid` with the number of records, or the index of the first record that does not verify.
pub data ChainStatus (N : Type 0) : Type 0 where
  valid : (records : ℕ) → ChainStatus N
  broken : (records broken_at : ℕ) → Detail N → ChainStatus N

module _ {N : Type 0} where
  unfoldable pub tail_hash : List (Entry N) → Json N
  unfolding get
  tail_hash [] = null
  tail_hash (e ∷ []) = get "_hash" e
  tail_hash (e ∷ f ∷ es) = tail_hash (f ∷ es)

  -- `DecisionLog(path)`
  unfoldable pub open_log : List (Entry N) → DecisionLog N
  open_log entries = record { entries = entries; last_hash = tail_hash entries }

  -- `entry` without its `_hash`, and its `_hash`.
  abbrev pub content : Entry N → Entry N
  content = without "_hash"

  abbrev pub stored_hash : Entry N → Json N
  stored_hash = get "_hash"

module _ {N : Type 0} (N-discrete : Discrete N) (digest : Entry N → String) where
  -- `_with_prev_hash`, where the record's own link is not the log's last hash.
  unfoldable pub relink : DecisionRecord N → Json N → DecisionRecord N
  relink r last = elim (Json-discrete N-discrete r.prev_hash last) [
    | yes _ ↦ r
    | no _ ↦ record r { prev_hash = last }
  ]

  -- `append`: the new log, and the hash that it returns.
  unfoldable pub append : DecisionRecord N → DecisionLog N → DecisionLog N × String
  unfolding relink
  append r log =
      let r' = relink r log.last_hash in
      let h = digest (to_dict r') in
      (
        record {
          entries = log.entries ++ (to_dict r' ++ ("_hash", str h) ∷ []) ∷ [];
          last_hash = str h;
        },
        h,
      )

  -- The loop of `verify`, with `prev` and the index as its variables.
  unfoldable pub verify_from : ℕ → Json N → ℕ → List (Entry N) → ChainStatus N
  verify_from records prev index [] = valid records
  verify_from records prev index (e ∷ es) =
      elim (Json-discrete N-discrete (get "prev_hash" (content e)) prev) [
        | no _ ↦ broken records index (broken_link (get "prev_hash" (content e)) prev)
        | yes _ ↦ elim (Json-discrete N-discrete (str (digest (content e))) (stored_hash e)) [
          | no _ ↦ broken records index edited
          | yes _ ↦ verify_from records (stored_hash e) (index + 1) es
        ]
      ]

  unfoldable pub verify : List (Entry N) → ChainStatus N
  verify entries = verify_from (length entries) null 0 entries
