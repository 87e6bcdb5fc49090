-- ===== src/DecisionLog/Tamper.antt =====
-- Tamper evidence: the last hash of a chain that verifies fixes the text of every record, or the files
-- hold two texts with one hash. decisionlog/store.py hashes the text that `json.dumps` gives of a dict,
-- with its keys sorted; that function and SHA-256 are parameters.
use mathlib.Core.List.{
  reverse, reverse-append, reverse-cons, append-nil, reverse-reverse, map-append, append_assoc,
}
use ailending_hub.Prelude.{
  Option, none, some, IsIn, IsIn-append, Bool-cases, str_eq, eq_iff, ◌≡◌, ◌≢◌, refl, sym, ◌∙◌, ap,
  subst, ◌⊎◌, inl, inr, List, [], ◌∷◌, ◌++◌, String, length, map,
}
use ailending_hub.DecisionLog.Json.{Json, null, str, get}
use ailending_hub.DecisionLog.Log.{Entry, valid, tail_hash, content, stored_hash, verify}
use ailending_hub.DecisionLog.Chain.{Linked, verify_iff, last_from, tail_hash-last_from}

map-reverse : {A B : Type 0} (f : A → B) (l : List A) → map f (reverse l) ≡ reverse (map f l)
map-reverse f [] = refl
map-reverse f (x ∷ xs) =
    ap (map f) (reverse-cons x xs)
    ∙ map-append f (reverse xs) (x ∷ [])
    ∙ ap (λ l. l ++ f x ∷ []) (map-reverse f xs)
    ∙ sym (reverse-cons (f x) (map f xs))

IsIn-reverse : {A : Type 0} (x : A) (l : List A) → IsIn x (reverse l) → IsIn x l
IsIn-reverse x [] m = m
IsIn-reverse x (y ∷ ys) m =
    elim (IsIn-append x (reverse ys) (y ∷ []) (subst (IsIn x) (reverse-cons y ys) m)) [
      | inl earlier ↦ inr (IsIn-reverse x ys earlier)
      | inr (inl same) ↦ inl same
      | inr (inr k) ↦ absurd k
    ]

module _ {N : Type 0} (sha256 : String → String) (dumps : Entry N → String) where
  -- The text of a record's content, and its hash.
  abbrev pub text : Entry N → String
  text e = dumps (content e)

  abbrev pub digest_of : Entry N → String
  digest_of e = sha256 (dumps e)

  -- The link of a first record, and of one after a record of that text.
  abbrev pub link : Option String → Json N
  link none = null
  link (some t) = str (sha256 t)

  -- Two dicts of one text have the same link, if one of them has a link.
  abbrev pub WritesLink : Type 0
  WritesLink =
      (x y : Entry N) (previous : Option String)
      → dumps x ≡ dumps y
      → get "prev_hash" x ≡ link previous
      → get "prev_hash" y ≡ link previous

  -- A record of the one file and one of the other whose texts are different and have one hash.
  pub record Collision (es fs : List (Entry N)) : Type 0 where
    pub one : Entry N
    pub other : Entry N
    pub of_one : IsIn one es
    pub of_other : IsIn other fs
    pub distinct : text one ≢ text other
    pub same_hash : sha256 (text one) ≡ sha256 (text other)

  -- The chain read from its end: `older` is the list of earlier records, the latest first.
  abbrev end_hash : List (Entry N) → Json N
  end_hash [] = null
  end_hash (e ∷ older) = stored_hash e

  abbrev Backed : List (Entry N) → Type 0
  Backed [] = Unit
  Backed (e ∷ older) =
      (get "prev_hash" (content e) ≡ end_hash older)
      × (str (digest_of (content e)) ≡ stored_hash e)
      × Backed older

  Linked→Backed :
      (es older : List (Entry N))
      → Backed older
      → Linked digest_of (end_hash older) es
      → Backed (reverse es ++ older)
  Linked→Backed [] older b l = b
  Linked→Backed (e ∷ es) older b (p, q, rest) =
      subst Backed (reverse_cons) (Linked→Backed es (e ∷ older) (p, q, b) rest)
    where
      reverse_cons : reverse es ++ (e ∷ older) ≡ reverse (e ∷ es) ++ older
      reverse_cons = sym (
          ap (λ l. l ++ older) (reverse-append (e ∷ []) es)
          ∙ append_assoc (reverse es) (e ∷ []) older)

  end_hash-reverse :
      (es older : List (Entry N)) → end_hash (reverse es ++ older) ≡ last_from (end_hash older) es
  end_hash-reverse [] older = refl
  end_hash-reverse (e ∷ es) older =
      ap end_hash (
        ap (λ l. l ++ older) (reverse-append (e ∷ []) es)
        ∙ append_assoc (reverse es) (e ∷ []) older)
      ∙ end_hash-reverse es (e ∷ older)

  str-injective : {a b : String} → ◌≡◌ {A = Json N} (str a) (str b) → a ≡ b
  str-injective h = cc

  -- The last hash of a backed chain is a link.
  end_link :
      (xs : List (Entry N)) → Backed xs → (previous : Option String) × (end_hash xs ≡ link previous)
  end_link [] b = (none, refl)
  end_link (x ∷ xs) (p, q, rest) = (some (text x), sym q)

  later : (x y : Entry N) (xs ys : List (Entry N)) → Collision xs ys → Collision (x ∷ xs) (y ∷ ys)
  later x y xs ys c = record {
    one = c.one;
    other = c.other;
    of_one = inr c.of_one;
    of_other = inr c.of_other;
    distinct = c.distinct;
    same_hash = c.same_hash;
  }

  module _ (writes : WritesLink) where
    same_tail :
        (xs ys : List (Entry N))
        → Backed xs
        → Backed ys
        → end_hash xs ≡ end_hash ys
        → (map text xs ≡ map text ys) ⊎ Collision xs ys
    same_tail [] [] bx by h = inl refl
    same_tail [] (y ∷ ys) bx (p, q, rest) h = cc
    same_tail (x ∷ xs) [] (p, q, rest) by h = cc
    same_tail (x ∷ xs) (y ∷ ys) (px, qx, bx) (py, qy, by) h =
        elim (Bool-cases (str_eq (text x) (text y))) [
          | inl t ↦
              let e = (eq_iff (text x) (text y)).0 t in
              let (previous, before) = end_link xs bx in
              let there = writes (content x) (content y) previous e (px ∙ before) in
              elim (same_tail xs ys bx by (before ∙ sym there ∙ py)) [
                | inl rest ↦ inl (cc)
                | inr c ↦ inr (later x y xs ys c)
              ]
          | inr f ↦ inr (record {
            one = x;
            other = y;
            of_one = inl refl;
            of_other = inl refl;
            distinct = λ e. let t = (eq_iff (text x) (text y)).1 e in cc;
            same_hash = str-injective (qx ∙ h ∙ sym qy);
          })
        ]

    -- Two files that verify and end with the same hash hold contents of the same texts, line for line;
    -- or a line of the one and a line of the other have contents of different texts with the same
    -- hash. The function that gives the text is one from which the link can be read back. So an edit,
    -- a removal, an insertion or a change of order that leaves the last hash alone is a collision of
    -- the hash function, between lines of the two files.
    pub same_tail_hash :
        (N-discrete : Discrete N) (es fs : List (Entry N))
        → verify N-discrete digest_of es ≡ valid (length es)
        → verify N-discrete digest_of fs ≡ valid (length fs)
        → tail_hash es ≡ tail_hash fs
        → (map text es ≡ map text fs) ⊎ Collision es fs
    same_tail_hash N-discrete es fs ve vf h =
        elim (same_tail (reverse es) (reverse fs)
          (subst Backed (append-nil (reverse es))
            (Linked→Backed es [] tt ((verify_iff N-discrete digest_of es).0 ve)))
          (subst Backed (append-nil (reverse fs))
            (Linked→Backed fs [] tt ((verify_iff N-discrete digest_of fs).0 vf)))
          (last_hash es ∙ h ∙ sym (last_hash fs))) [
            | inl e ↦ inl (unreverse e)
            | inr c ↦ inr (record {
              one = c.one;
              other = c.other;
              of_one = IsIn-reverse c.one es c.of_one;
              of_other = IsIn-reverse c.other fs c.of_other;
              distinct = c.distinct;
              same_hash = c.same_hash;
            })
          ]
      where
        last_hash : (l : List (Entry N)) → end_hash (reverse l) ≡ tail_hash l
        last_hash l =
            ap end_hash (sym (append-nil (reverse l)))
            ∙ end_hash-reverse l []
            ∙ sym (tail_hash-last_from l)

        unreverse : map text (reverse es) ≡ map text (reverse fs) → map text es ≡ map text fs
        unreverse e =
            sym (reverse-reverse (map text es))
            ∙ ap reverse (sym (map-reverse text es) ∙ e ∙ map-reverse text fs)
            ∙ reverse-reverse (map text fs)
