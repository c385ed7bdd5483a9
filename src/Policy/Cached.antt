-- ===== src/Policy/Cached.antt =====
-- What the cache of compiled policies keeps, and that its answers are those of the compiler.
use rebuno.Prelude.{
  All, All-filter, All-weaken, Bool, Bool-cases, List, Option, Option-cases, String, [], ap, arith,
  false, filter, filter-All, find, find-passes, inl, inr, length, ltb, none, not, refl, some,
  string_eq, subst, suc, sym, ℕ_eq, ◌<◌, ◌==◌, ◌∙◌, ◌∷◌, ◌≡◌, ◌≤◌,
}
use rebuno.Policy.Cache.{
  BundleCache, CacheEntry, entry_of, evicted, get_or_compile, is_of, others, to_front,
  without_oldest,
}

-- What getOrCompile relies on: each entry holds what its bundle compiles to, no agent has two, and
-- there are no more than the capacity.
module _ {Compiled : Type 0} (compile : String → Option Compiled) where
  abbrev IsCompiled : CacheEntry Compiled → Type 0
  IsCompiled entry = compile entry.bundle ≡ some entry.engine

  abbrev OncePerAgent : List (CacheEntry Compiled) → Type 0
  OncePerAgent [] = Unit
  OncePerAgent (e ∷ es) = All (λ f. is_of e.agent_id f ≡ false) es × OncePerAgent es

  pub record CacheInv (c : BundleCache Compiled) : Type 0 where
    pub compiled : All IsCompiled c.entries
    pub once : OncePerAgent c.entries
    pub bounded : length c.entries ≤ c.capacity
    pub positive : 0 < c.capacity

  find-All :
      (P : CacheEntry Compiled → Type 0) (p : CacheEntry Compiled → Bool)
      (es : List (CacheEntry Compiled)) (e : CacheEntry Compiled)
      → All P es
      → find p es ≡ some e
      → P e
  unfolding find
  find-All P p [] e h found = cc
  find-All P p (x ∷ xs) e h found = elim (Bool-cases (p x)) [
    | inl so ↦ let q : x ≡ e = ground arith in subst P q h.0
    | inr not_so ↦ find-All P p xs e h.1 (ground arith)
  ]

  OncePerAgent-filter :
      (p : CacheEntry Compiled → Bool) (es : List (CacheEntry Compiled))
      → OncePerAgent es
      → OncePerAgent (filter p es)
  unfolding filter
  OncePerAgent-filter p [] h = tt
  OncePerAgent-filter p (e ∷ es) h = elim (Bool-cases (p e)) [
    | inl so ↦ rw so (All-filter _ p es h.0, OncePerAgent-filter p es h.1)
    | inr not_so ↦ rw not_so (OncePerAgent-filter p es h.1)
  ]

  -- The entry of an agent that is there makes room when it is taken out.
  length-filter :
      (p : CacheEntry Compiled → Bool) (es : List (CacheEntry Compiled))
      → length (filter p es) ≤ length es
  unfolding filter
  length-filter p [] = ground arith
  length-filter p (e ∷ es) = ground (arith, length-filter p es)

  length-others :
      (agent : String) (es : List (CacheEntry Compiled)) (e : CacheEntry Compiled)
      → find (is_of agent) es ≡ some e
      → length (others agent es) < length es
  unfolding filter find
  length-others agent [] e found = cc
  length-others agent (x ∷ xs) e found =
      ground (arith, length-others agent xs e, length-filter (λ y. not (is_of agent y)) xs)

  length-without_oldest :
      (e : CacheEntry Compiled) (es : List (CacheEntry Compiled))
      → length (without_oldest (e ∷ es)) ≡ length es
  unfolding without_oldest
  length-without_oldest e [] = refl
  length-without_oldest e (f ∷ fs) = ap suc (length-without_oldest f fs)

  All-without_oldest :
      (P : CacheEntry Compiled → Type 0) (es : List (CacheEntry Compiled))
      → All P es
      → All P (without_oldest es)
  unfolding without_oldest
  All-without_oldest P [] h = tt
  All-without_oldest P (e ∷ []) h = tt
  All-without_oldest P (e ∷ f ∷ es) h = (h.0, All-without_oldest P (f ∷ es) h.1)

  OncePerAgent-without_oldest :
      (es : List (CacheEntry Compiled)) → OncePerAgent es → OncePerAgent (without_oldest es)
  unfolding without_oldest
  OncePerAgent-without_oldest [] h = tt
  OncePerAgent-without_oldest (e ∷ []) h = tt
  OncePerAgent-without_oldest (e ∷ f ∷ es) h =
      (All-without_oldest _ (f ∷ es) h.0, OncePerAgent-without_oldest (f ∷ es) h.1)

  -- The search for an agent whose entry was taken out finds nothing.
  others-free :
      (agent : String) (es : List (CacheEntry Compiled))
      → All (λ f. is_of agent f ≡ false) (others agent es)
  others-free agent es =
      All-weaken _ _ (others agent es) (λ f h. ground arith)
        (filter-All (λ f. not (is_of agent f)) es)

  find-none-All :
      (p : CacheEntry Compiled → Bool) (es : List (CacheEntry Compiled))
      → find p es ≡ none
      → All (λ e. p e ≡ false) es
  unfolding find
  find-none-All p [] h = tt
  find-none-All p (e ∷ es) h = elim (Bool-cases (p e)) [
    | inl so ↦ ground arith
    | inr not_so ↦ (not_so, find-none-All p es (ground arith))
  ]

  to_front-CacheInv :
      (c : BundleCache Compiled) (old entry : CacheEntry Compiled)
      → find (is_of entry.agent_id) c.entries ≡ some old
      → IsCompiled entry
      → CacheInv c
      → CacheInv (to_front entry c)
  to_front-CacheInv c old entry found own inv = record {
    compiled = (own, All-filter IsCompiled _ c.entries inv.compiled);
    once = (others-free entry.agent_id c.entries, OncePerAgent-filter _ c.entries inv.once);
    bounded = ground (arith, length-others entry.agent_id c.entries old found, inv.bounded);
    positive = inv.positive;
  }

  stored-CacheInv :
      (c : BundleCache Compiled) (entry : CacheEntry Compiled)
      → find (is_of entry.agent_id) c.entries ≡ none
      → IsCompiled entry
      → CacheInv c
      → CacheInv (evicted (record c { entries = entry ∷ c.entries }))
  stored-CacheInv c entry missing own inv =
      let free = find-none-All (is_of entry.agent_id) c.entries missing in
      elim (Bool-cases (ltb c.capacity (length (entry ∷ c.entries)))) [
        | inl full ↦ rw full (record {
          compiled = All-without_oldest IsCompiled (entry ∷ c.entries) (own, inv.compiled);
          once = OncePerAgent-without_oldest (entry ∷ c.entries) (free, inv.once);
          bounded = ground (arith, length-without_oldest entry c.entries, inv.bounded);
          positive = inv.positive;
        })
        | inr room ↦ rw room (record {
          compiled = (own, inv.compiled);
          once = (free, inv.once);
          bounded = ground arith;
          positive = inv.positive;
        })
      ]

  -- What getOrCompile answers is what the agent's bundle compiles to, whatever the cache held before, and the cache it leaves keeps its invariant: every entry holds what its bundle compiles to, no agent has two entries, and there are no more entries than the capacity.
  pub get_or_compile-CacheInv :
      (agent bundle : String) (c : BundleCache Compiled)
      → CacheInv c
      → ((get_or_compile compile agent bundle c).0 ≡ compile bundle)
        × CacheInv (get_or_compile compile agent bundle c).1
  unfolding get_or_compile
  get_or_compile-CacheInv agent bundle c inv = elim (Option-cases (find (is_of agent) c.entries)) [
    | inl missing ↦ elim (Option-cases (compile bundle)) [
      | inl broken ↦ rw (get_or_compile, missing) (rw broken (refl, inv))
      | inr (engine, compiled) ↦
          rw (get_or_compile, missing)
            (rw compiled
              (refl, stored-CacheInv c (entry_of agent bundle engine) missing compiled inv))
    ]
    | inr (entry, found) ↦
        let own : IsCompiled entry =
          find-All IsCompiled (is_of agent) c.entries entry inv.compiled found in
        let named : entry.agent_id ≡ agent =
          (string_eq.beq_iff entry.agent_id agent).0
            (find-passes (is_of agent) c.entries entry found) in
        elim (Bool-cases (entry.bundle == bundle)) [
          | inl same ↦
              let again : some entry.engine ≡ compile bundle =
                sym own ∙ ap compile ((string_eq.beq_iff entry.bundle bundle).0 same) in
              let mine = subst (λ a. find (is_of a) c.entries ≡ some entry) (sym named) found in
              rw (get_or_compile, found)
                (rw same (again, to_front-CacheInv c entry entry mine own inv))
          | inr changed ↦ elim (Option-cases (compile bundle)) [
            | inl broken ↦ rw (get_or_compile, found) (rw changed (rw broken (refl, inv)))
            | inr (engine, compiled) ↦
                rw (get_or_compile, found)
                  (rw changed (
                    rw compiled (
                      refl,
                      to_front-CacheInv c entry (entry_of agent bundle engine) found compiled inv,
                    )))
          ]
        ]
  ]
