-- ===== src/DecisionLog/Chain.antt =====
-- `verify` decides whether each record points at the one before it and hashes to what is stored,
-- and every append keeps a log that verifies.

use ailending_hub.Prelude.{
  ℕ, ◌+◌, ◌≡◌, refl, sym, ◌∙◌, ap, ◌↔◌, List, [], ◌∷◌, ◌++◌, String, length, length-append, arith,
  lookup,
}
use ailending_hub.DecisionLog.Json.{Json, null, str, get, without, Json-discrete}
use ailending_hub.DecisionLog.Record.{DecisionRecord, to_dict}
use ailending_hub.DecisionLog.Log.{
  Entry, DecisionLog, ChainStatus, valid, broken, edited, broken_link, tail_hash, open_log, content,
  stored_hash, relink, append, verify_from, verify,
}

module _ {N : Type 0} (digest : Entry N → String) where
  -- The chain from a predecessor's hash on.
  abbrev pub Linked : Json N → List (Entry N) → Type 0
  Linked prev [] = Unit
  Linked prev (e ∷ es) =
      (get "prev_hash" (content e) ≡ prev)
      × (str (digest (content e)) ≡ stored_hash e)
      × Linked (stored_hash e) es

module _ {N : Type 0} where
  -- The hash that a log after `prev` and then `es` ends with.
  abbrev pub last_from : Json N → List (Entry N) → Json N
  last_from prev [] = prev
  last_from prev (e ∷ es) = last_from (stored_hash e) es

  pub tail_hash-last_from : (es : List (Entry N)) → tail_hash es ≡ last_from null es
  unfolding tail_hash
  tail_hash-last_from [] = refl
  tail_hash-last_from (e ∷ []) = refl
  tail_hash-last_from (e ∷ f ∷ es) = tail_hash-last_from (f ∷ es)

module _ {N : Type 0} (N-discrete : Discrete N) (digest : Entry N → String) where
  verify_from→Linked :
      (n : ℕ) (prev : Json N) (i : ℕ) (es : List (Entry N)) (m : ℕ)
      → verify_from N-discrete digest n prev i es ≡ valid m
      → Linked digest prev es
  unfolding verify_from
  verify_from→Linked n prev i [] m h = tt
  verify_from→Linked n prev i (e ∷ es) m h =
      go (Json-discrete N-discrete (get "prev_hash" (content e)) prev)
        (Json-discrete N-discrete (str (digest (content e))) (stored_hash e)) h
        (verify_from→Linked n (stored_hash e) (i + 1) es m)
    where
      go :
          (d : Dec (get "prev_hash" (content e) ≡ prev))
          (d' : Dec (str (digest (content e)) ≡ stored_hash e))
          → ◌≡◌ {A = ChainStatus N}
              (elim d [
                | no _ ↦ broken n i (broken_link (get "prev_hash" (content e)) prev)
                | yes _ ↦ elim d' [
                  | no _ ↦ broken n i edited
                  | yes _ ↦ verify_from N-discrete digest n (stored_hash e) (i + 1) es
                ]
              ])
              (valid m)
          → (verify_from N-discrete digest n (stored_hash e) (i + 1) es ≡ valid m
              → Linked digest (stored_hash e) es)
          → Linked digest prev (e ∷ es)
      go (no _) _ h rest = cc
      go (yes p) (no _) h rest = cc
      go (yes p) (yes q) h rest = (p, q, rest h)

  Linked→verify_from :
      (n : ℕ) (prev : Json N) (i : ℕ) (es : List (Entry N))
      → Linked digest prev es
      → verify_from N-discrete digest n prev i es ≡ valid n
  unfolding verify_from
  Linked→verify_from n prev i [] h = refl
  Linked→verify_from n prev i (e ∷ es) (p, q, rest) =
      go (Json-discrete N-discrete (get "prev_hash" (content e)) prev)
        (Json-discrete N-discrete (str (digest (content e))) (stored_hash e))
        (Linked→verify_from n (stored_hash e) (i + 1) es rest)
    where
      go :
          (d : Dec (get "prev_hash" (content e) ≡ prev))
          (d' : Dec (str (digest (content e)) ≡ stored_hash e))
          → verify_from N-discrete digest n (stored_hash e) (i + 1) es ≡ valid n
          → ◌≡◌ {A = ChainStatus N}
              (elim d [
                | no _ ↦ broken n i (broken_link (get "prev_hash" (content e)) prev)
                | yes _ ↦ elim d' [
                  | no _ ↦ broken n i edited
                  | yes _ ↦ verify_from N-discrete digest n (stored_hash e) (i + 1) es
                ]
              ])
              (valid n)
      go (no f) _ later = absurd (f p)
      go (yes _) (no f) later = absurd (f q)
      go (yes _) (yes _) later = later

  -- `verify` reports a valid chain, of as many records as there are entries, exactly if the link of
  -- each record is the stored hash of the one before it, that of the first one None, and each stored
  -- hash is the digest of its record's content.
  pub verify_iff :
      (es : List (Entry N))
      → (verify N-discrete digest es ≡ valid (length es)) ↔ Linked digest null es
  unfolding verify
  verify_iff es = (
    verify_from→Linked (length es) null 0 es (length es),
    Linked→verify_from (length es) null 0 es,
  )

  last_from-append :
      (prev : Json N) (es : List (Entry N)) (e : Entry N)
      → last_from prev (es ++ e ∷ []) ≡ stored_hash e
  last_from-append prev [] e = refl
  last_from-append prev (f ∷ es) e = last_from-append (stored_hash f) es e

  Linked-append :
      (prev : Json N) (es : List (Entry N)) (e : Entry N)
      → Linked digest prev es
      → get "prev_hash" (content e) ≡ last_from prev es
      → str (digest (content e)) ≡ stored_hash e
      → Linked digest prev (es ++ e ∷ [])
  Linked-append prev [] e h p q = (p, q, tt)
  Linked-append prev (f ∷ es) e (a, b, rest) p q =
      (a, b, Linked-append (stored_hash f) es e rest p q)

  -- A log in memory: its chain verifies, and it knows the hash of its last line.
  pub record IsChained (log : DecisionLog N) : Type 0 where
    pub linked : Linked digest null log.entries
    pub knows_tail : log.last_hash ≡ tail_hash log.entries

  abbrev line : DecisionRecord N → Json N → Entry N
  line r h = to_dict r ++ ("_hash", h) ∷ []

  content-line : (r : DecisionRecord N) (h : Json N) → content (line r h) ≡ to_dict r
  unfolding to_dict without
  content-line r h = refl

  stored_hash-line : (r : DecisionRecord N) (h : Json N) → stored_hash (line r h) ≡ h
  unfolding to_dict get lookup
  stored_hash-line r h = refl

  prev_hash-to_dict : (r : DecisionRecord N) → get "prev_hash" (to_dict r) ≡ r.prev_hash
  unfolding to_dict get lookup
  prev_hash-to_dict r = refl

  prev_hash-relink :
      (r : DecisionRecord N) (last : Json N) → (relink N-discrete digest r last).prev_hash ≡ last
  unfolding relink
  prev_hash-relink r last = go (Json-discrete N-discrete r.prev_hash last)
    where
      go :
          (d : Dec (r.prev_hash ≡ last))
          → (let out : DecisionRecord N = elim d [
            | yes _ ↦ r
            | no _ ↦ record r { prev_hash = last }
          ] in
              out.prev_hash)
            ≡ last
      go (yes p) = p
      go (no _) = refl

  -- An append to a chained log gives a chained log that ends with the hash that it returns, whatever
  -- link the record came with: the log writes its own.
  pub append-IsChained :
      (r : DecisionRecord N) (log : DecisionLog N)
      → IsChained log
      → IsChained (append N-discrete digest r log).0
        × (tail_hash (append N-discrete digest r log).0.entries
            ≡ str (append N-discrete digest r log).1)
        × (length (append N-discrete digest r log).0.entries ≡ length log.entries + 1)
  unfolding append
  append-IsChained r log c =
      let r' = relink N-discrete digest r log.last_hash in
      let h = digest (to_dict r') in
      let e = line r' (str h) in
      let tail : tail_hash (log.entries ++ e ∷ []) ≡ str h =
        tail_hash-last_from (log.entries ++ e ∷ [])
        ∙ last_from-append null log.entries e
        ∙ stored_hash-line r' (str h) in
      (
        record {
          linked =
              Linked-append null log.entries e c.linked
                (ap (get "prev_hash") (content-line r' (str h))
                  ∙ prev_hash-to_dict r'
                  ∙ prev_hash-relink r log.last_hash
                  ∙ c.knows_tail
                  ∙ tail_hash-last_from log.entries)
                (ap (λ d. str (digest d)) (content-line r' (str h))
                  ∙ sym (stored_hash-line r' (str h)));
          knows_tail = sym tail;
        },
        tail,
        omega (arith, length-append {0} log.entries (e ∷ [])),
      )

  -- `DecisionLog(path)` followed by any appends.
  unfoldable pub append_all : List (DecisionRecord N) → DecisionLog N → DecisionLog N
  append_all [] log = log
  append_all (r ∷ rs) log = append_all rs (append N-discrete digest r log).0

  append_all-IsChained :
      (rs : List (DecisionRecord N)) (log : DecisionLog N)
      → IsChained log
      → IsChained (append_all rs log)
        × (length (append_all rs log).entries ≡ length log.entries + length rs)
  unfolding append_all
  append_all-IsChained [] log c = (c, omega arith)
  append_all-IsChained (r ∷ rs) log c =
      let (c', tail, n) = append-IsChained r log c in
      let (c'', m) = append_all-IsChained rs (append N-discrete digest r log).0 c' in
      (c'', omega arith)

  -- A file that verifies still verifies after it is opened and any records are appended, and the
  -- report counts the old records and the new.
  pub verify-append_all :
      (es : List (Entry N)) (rs : List (DecisionRecord N))
      → verify N-discrete digest es ≡ valid (length es)
      → verify N-discrete digest (append_all rs (open_log es)).entries
        ≡ valid (length es + length rs)
  unfolding open_log
  verify-append_all es rs h =
      let start : IsChained (open_log es) = record {
        linked = (verify_iff es).0 h;
        knows_tail = refl;
      } in
      let (c, n) = append_all-IsChained rs (open_log es) start in
      rw (← n) ((verify_iff (append_all rs (open_log es)).entries).1 c.linked)
