-- ===== src/Lakehouse/Lineage.antt =====
-- The lineage of a table: the search ends, and finds exactly the tables upstream.
use ailending_hub.Prelude.{
  ℕ, zero, suc, ◌+◌, ◌≤◌, ◌≡◌, refl, sym, ap, subst, ◌⊎◌, inl, inr, true, false, some, List, [],
  ◌∷◌, ◌++◌, String, arith, str_eq, eq_iff, Bool-cases, lookup, IsIn, IsIn-append, IsIn-append_left,
  IsIn-append_right, length, length-append, member, member_iff, if◌then◌else◌,
}
use ailending_hub.Lakehouse.Layers.{TableSpec, Lakehouse, done, search, total_reads, lineage}
use ailending_hub.Lakehouse.Reads.{IsLayered}

-- A table that `name` reads, or that such a table reads, and so on.
pub data Upstream (tables : Lakehouse) (name : String) : String → Type 0 where
  direct :
      {u : String} (t : TableSpec)
      → lookup name tables ≡ some t
      → IsIn u t.reads_from
      → Upstream tables name u
  further :
      {u v : String} (t : TableSpec)
      → Upstream tables name u
      → lookup u tables ≡ some t
      → IsIn v t.reads_from
      → Upstream tables name v

abbrev pub HasNoTwins : List String → Type 0
HasNoTwins [] = Unit
HasNoTwins (x ∷ xs) = (¬ IsIn x xs) × HasNoTwins xs

HasNoTwins-append :
    (xs : List String) (x : String) → HasNoTwins xs → ¬ IsIn x xs → HasNoTwins (xs ++ x ∷ [])
HasNoTwins-append [] x h n = ((λ m. m), tt)
HasNoTwins-append (y ∷ xs) x (fresh, rest) n = (
  (λ m. elim (IsIn-append y xs (x ∷ []) m) [
    | inl k ↦ fresh k
    | inr k ↦ elim k [ inl e ↦ n (inl (sym e)) | inr k ↦ k ]
  ]),
  HasNoTwins-append xs x rest (λ m. n (inr m)),
)

-- The reads of the tables that have not been seen.
abbrev unread : List String → Lakehouse → ℕ
unread seen [] = 0
unread seen ((k, t) ∷ tables) =
    (if member k seen then 0 else length t.reads_from) + unread seen tables

unread-none : (tables : Lakehouse) → unread [] tables ≡ total_reads tables
unfolding total_reads
unread-none [] = refl
unread-none ((k, t) ∷ tables) = ap (λ n. length t.reads_from + n) (unread-none tables)

member-append :
    (k : String) (seen : List String) (c : String)
    → member k (seen ++ c ∷ []) ≡ (if member k seen then true else str_eq c k)
member-append k [] c = ground arith
member-append k (x ∷ seen) c = ground (arith, member-append k seen c)

unread_mono :
    (seen : List String) (c : String) (tables : Lakehouse)
    → unread (seen ++ c ∷ []) tables ≤ unread seen tables
unread_mono seen c [] = omega arith
unread_mono seen c ((k, t) ∷ tables) =
    ground (arith, unread_mono seen c tables, member-append k seen c)

unread-falls :
    (seen : List String) (c : String) (tables : Lakehouse) (t : TableSpec)
    → lookup c tables ≡ some t
    → member c seen ≡ false
    → unread (seen ++ c ∷ []) tables + length t.reads_from ≤ unread seen tables
unfolding lookup
unread-falls seen c [] t e f = absurd (ground arith)
unread-falls seen c ((k, s) ∷ tables) t e f = elim (Bool-cases (str_eq k c)) [
  | inl same ↦
      let k≡c = (eq_iff k c).0 same in
      let s≡t : s ≡ t = ground arith in
      let n = ap (λ x. length x.reads_from) s≡t in
      let f' : member k seen ≡ false = subst (λ x. member x seen ≡ false) (sym k≡c) f in
      let g : member k (seen ++ c ∷ []) ≡ true =
        ground (arith, member-append k seen c, eq_iff c k, sym k≡c) in
      rw (f', g) (omega (arith, unread_mono seen c tables))
  | inr other ↦
      let more = unread-falls seen c tables t (ground arith) f in
      let g = member-append k seen c in ground (arith, g, more)
]

module _ (tables : Lakehouse) (layered : IsLayered tables) (name : String) where
  -- What a table reads is registered, and so is all that is upstream.
  Upstream-registered :
      {v : String} → Upstream tables name v → (t : TableSpec) × (lookup v tables ≡ some t)
  Upstream-registered (direct {u} t e m) =
      let (s, there, _) = (layered name t e).2 u m in (s, there)
  Upstream-registered (further {u} {v} t up e m) =
      let (s, there, _) = (layered u t e).2 v m in (s, there)

  record Inv (seen queue : List String) : Type 0 where
    sound : (v : String) → IsIn v seen ⊎ IsIn v queue → Upstream tables name v
    start :
        (t : TableSpec)
        → lookup name tables ≡ some t
        → (v : String) → IsIn v t.reads_from
        → IsIn v seen ⊎ IsIn v queue
    closed :
        (u : String) (t : TableSpec) (v : String)
        → IsIn u seen
        → lookup u tables ≡ some t
        → IsIn v t.reads_from
        → IsIn v seen ⊎ IsIn v queue
    no_twins : HasNoTwins seen

  -- A name that was seen leaves the queue.
  Inv-skip :
      (seen queue : List String) (c : String) → IsIn c seen → Inv seen (c ∷ queue) → Inv seen queue
  Inv-skip seen queue c there inv = record {
    sound = λ v m. inv.sound v (elim m [ inl k ↦ inl k | inr k ↦ inr (inr k) ]);
    start = λ t e v m. without_c v (inv.start t e v m);
    closed = λ u t v k e m. without_c v (inv.closed u t v k e m);
    no_twins = inv.no_twins;
  }
    where
      without_c : (v : String) → IsIn v seen ⊎ IsIn v (c ∷ queue) → IsIn v seen ⊎ IsIn v queue
      without_c v (inl k) = inl k
      without_c v (inr (inl e)) = inl (subst (λ x. IsIn x seen) e there)
      without_c v (inr (inr k)) = inr k

  -- A new name is seen, and what it reads is queued.
  Inv-visit :
      (seen queue : List String) (c : String) (t : TableSpec)
      → ¬ IsIn c seen
      → lookup c tables ≡ some t
      → Inv seen (c ∷ queue)
      → Inv (seen ++ c ∷ []) (queue ++ t.reads_from)
  Inv-visit seen queue c t fresh there inv = record {
    sound = λ v m. elim m [
      | inl k ↦ elim (IsIn-append v seen (c ∷ []) k) [
        | inl k ↦ inv.sound v (inl k)
        | inr k ↦ elim k [ inl e ↦ inv.sound v (inr (inl e)) | inr k ↦ absurd k ]
      ]
      | inr k ↦ elim (IsIn-append v queue t.reads_from k) [
        | inl k ↦ inv.sound v (inr (inr k))
        | inr k ↦ further t (inv.sound c (inr (inl refl))) there k
      ]
    ];
    start = λ s e v m. moved v (inv.start s e v m);
    closed = λ u s v k e m. elim (IsIn-append u seen (c ∷ []) k) [
      | inl k ↦ moved v (inv.closed u s v k e m)
      | inr k ↦ elim k [
        | inl same ↦
            let t≡s : t ≡ s = cc in
            inr (
              IsIn-append_right v queue t.reads_from (subst (λ x. IsIn v x.reads_from) (sym t≡s) m))
        | inr k ↦ absurd k
      ]
    ];
    no_twins = HasNoTwins-append seen c inv.no_twins fresh;
  }
    where
      moved :
          (v : String)
          → IsIn v seen ⊎ IsIn v (c ∷ queue)
          → IsIn v (seen ++ c ∷ []) ⊎ IsIn v (queue ++ t.reads_from)
      moved v (inl k) = inl (IsIn-append_left v seen (c ∷ []) k)
      moved v (inr (inl e)) = inl (IsIn-append_right v seen (c ∷ []) (inl e))
      moved v (inr (inr k)) = inr (IsIn-append_left v queue t.reads_from k)

  search_ends :
      (fuel : ℕ) (seen queue : List String)
      → Inv seen queue
      → length queue + unread seen tables ≤ fuel
      → (found : List String) × (search fuel tables seen queue ≡ done found) × Inv found []
  unfolding search
  search_ends zero seen [] inv h = (seen, refl, inv)
  search_ends (suc fuel) seen [] inv h = (seen, refl, inv)
  search_ends zero seen (c ∷ queue) inv h = absurd (omega arith)
  search_ends (suc fuel) seen (c ∷ queue) inv h = elim (Bool-cases (member c seen)) [
    | inl t ↦
        rw (t, search)
          (search_ends fuel seen queue (Inv-skip seen queue c ((member_iff c seen).0 t) inv)
            (omega arith))
    | inr f ↦
        let (t, there) = Upstream-registered (inv.sound c (inr (inl refl))) in
        rw (f, there, search)
          (search_ends fuel (seen ++ c ∷ []) (queue ++ t.reads_from)
            (Inv-visit seen queue c t (λ m. let y = (member_iff c seen).1 m in cc) there inv)
            (omega (arith, unread-falls seen c tables t there f, length-append queue t.reads_from)))
  ]

  -- At the end, everything upstream was seen.
  all_seen :
      (found : List String) → Inv found [] → {v : String} → Upstream tables name v → IsIn v found
  all_seen found inv (direct {u} t e m) = elim (inv.start t e u m) [ inl k ↦ k | inr k ↦ absurd k ]
  all_seen found inv (further {u} {v} t up e m) =
      elim (inv.closed u t v (all_seen found inv up) e m) [ inl k ↦ k | inr k ↦ absurd k ]

  -- In a layered lakehouse the search for the lineage of a table ends, without a KeyError, within as
  -- many rounds as there are reads, and returns exactly the tables upstream, none of them twice.
  pub lineage_iff :
      (t : TableSpec)
      → lookup name tables ≡ some t
      → (found : List String) × (lineage tables name ≡ done found)
        × HasNoTwins found
        × ((v : String)
            → (IsIn v found → Upstream tables name v) × (Upstream tables name v → IsIn v found))
  unfolding lineage
  lineage_iff t there =
      let begin : Inv [] t.reads_from = record {
        sound = λ v m. elim m [ inl k ↦ absurd k | inr k ↦ direct t there k ];
        start =
            λ s e v m. let t≡s : t ≡ s = cc in inr (subst (λ x. IsIn v x.reads_from) (sym t≡s) m);
        closed = λ u s v k e m. absurd k;
        no_twins = tt;
      } in
      let (found, ends, inv) =
        search_ends (length t.reads_from + total_reads tables) [] t.reads_from begin
          (omega (arith, unread-none tables)) in
      (
        found,
        rw (there, lineage) ends,
        inv.no_twins,
        λ v. ((λ m. inv.sound v (inl m)), λ up. all_seen found inv up),
      )
