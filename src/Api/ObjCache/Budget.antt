-- ===== src/Api/ObjCache/Budget.antt =====
-- internal/api/objcache.go: the bytes that the cache holds, and its budget.
use gostore.Base.{
  ℕ, zero, suc, ◌+◌, ◌-◌, ◌≤◌, Text, List, [], ◌∷◌, Bool, true, not, Option, none, some, ltb, ◌||◌,
  text_eq, text_eq_iff, length, ◌≡◌, refl, ap, sym, subst, arith, All, Bool-cases, Option-cases,
  inl, inr, if_keeps, option_keeps,
}
use gostore.Api.ObjCache.{
  CacheEntry, ObjCache, enabled, find, without, size_of, remove_locked, get, back, init, trim,
  push_front, put, sweep, swept,
}

module _ {Info : Type 0} where
  abbrev pub total : List (CacheEntry Info) → ℕ
  total [] = 0
  total (e ∷ es) = size_of e + total es

  total-without :
      (k : Text) (ll : List (CacheEntry Info)) (e : CacheEntry Info)
      → find k ll ≡ some e
      → total (without k ll) + size_of e ≡ total ll
  unfolding find without
  total-without k [] e h = absurd (grind arith)
  total-without k (x ∷ xs) e h = elim (Bool-cases (text_eq x.key k)) [
    | inl f ↦ grind (arith, f, h)
    | inr f ↦ ground (arith, f, total-without k xs e (ground (arith, f, h)))
  ]

  find-key :
      (k : Text) (ll : List (CacheEntry Info)) (e : CacheEntry Info)
      → find k ll ≡ some e
      → text_eq e.key k ≡ true
  unfolding find
  find-key k [] e h = absurd (grind arith)
  find-key k (x ∷ xs) e h = elim (Bool-cases (text_eq x.key k)) [
    | inl f ↦ grind (arith, f, h)
    | inr f ↦ find-key k xs e (ground (arith, f, h))
  ]

  pub total-init :
      (ll : List (CacheEntry Info)) (e : CacheEntry Info)
      → back ll ≡ some e
      → total (init ll) + size_of e ≡ total ll
  unfolding back init
  total-init [] e h = absurd (grind arith)
  total-init (x ∷ []) e h = grind arith
  total-init (x ∷ y ∷ ys) e h = omega (arith, total-init (y ∷ ys) e h)

  pub back-none : (ll : List (CacheEntry Info)) → back ll ≡ none → total ll ≡ 0
  unfolding back
  back-none [] h = refl
  back-none (x ∷ []) h = absurd (grind arith)
  back-none (x ∷ y ∷ ys) h = absurd (back_some y ys h)
    where
      back_some : (y : CacheEntry Info) (ys : List (CacheEntry Info)) → back (y ∷ ys) ≡ none → ⊥
      back_some y [] q = absurd (grind arith)
      back_some y (z ∷ zs) q = back_some z zs q

  total-nil : (ll : List (CacheEntry Info)) → length ll ≤ 0 → total ll ≡ 0
  total-nil [] h = refl
  total-nil (x ∷ xs) h = absurd (omega (arith, h))

  length-init :
      (ll : List (CacheEntry Info)) (e : CacheEntry Info)
      → back ll ≡ some e
      → suc (length (init ll)) ≡ length ll
  unfolding back init
  length-init [] e h = absurd (grind arith)
  length-init (x ∷ []) e h = refl
  length-init (x ∷ y ∷ ys) e h = ap suc (length-init (y ∷ ys) e h)

  module _ (P : CacheEntry Info → Type 0) where
    All-without : (k : Text) (ll : List (CacheEntry Info)) → All P ll → All P (without k ll)
    unfolding without
    All-without k [] h = tt
    All-without k (x ∷ xs) h =
        if_keeps (All P) (text_eq x.key k) _ _ (λ _. h.1) (λ _. (h.0, All-without k xs h.1))

    All-init : (ll : List (CacheEntry Info)) → All P ll → All P (init ll)
    unfolding init
    All-init [] h = tt
    All-init (x ∷ []) h = tt
    All-init (x ∷ y ∷ ys) h = (h.0, All-init (y ∷ ys) h.1)

    All-find :
        (k : Text) (ll : List (CacheEntry Info)) (e : CacheEntry Info)
        → All P ll
        → find k ll ≡ some e
        → P e
    unfolding find
    All-find k [] e h q = absurd (grind arith)
    All-find k (x ∷ xs) e h q = elim (Bool-cases (text_eq x.key k)) [
      | inl f ↦ subst P (grind (arith, f, q)) h.0
      | inr f ↦ All-find k xs e h.1 (ground (arith, f, q))
    ]

  -- The bytes held are counted, and no entry is larger than an object may be.
  pub record IsTallied (c : ObjCache Info) : Type 0 where
    pub tally : c.cur ≡ total c.ll
    pub each : All (λ e. size_of e ≤ c.obj) c.ll

  pub record IsWithin (c : ObjCache Info) : Type 0 where
    pub tallied : IsTallied c
    pub budget : c.cur ≤ c.max

  trim-IsWithin : (n : ℕ) (c : ObjCache Info) → IsTallied c → length c.ll ≤ n → IsWithin (trim n c)
  unfolding trim
  trim-IsWithin zero c t short = record {
    tallied = t;
    budget = omega (arith, t.tally, total-nil c.ll short);
  }
  trim-IsWithin (suc n) c t short = elim (Option-cases (back c.ll)) [
    | inl q ↦ rw (q, trim) record { tallied = t; budget = omega (arith, t.tally, back-none c.ll q) }
    | inr (e, q) ↦
        rw (q, trim)
          (if_keeps IsWithin (ltb c.max c.cur) _ _
            (λ over.
              trim-IsWithin n (record c { cur = c.cur - size_of e; ll = init c.ll })
                record {
                  tally = omega (arith, t.tally, total-init c.ll e q);
                  each = All-init _ c.ll t.each;
                }
                (omega (arith, length-init c.ll e q, short)))
            (λ fits. record { tallied = t; budget = ground arith }))
  ]

  pub push_front-IsTallied :
      (c : ObjCache Info) (e : CacheEntry Info)
      → size_of e ≤ c.obj
      → IsTallied c
      → IsTallied (push_front c e)
  unfolding push_front
  push_front-IsTallied c e small t =
      option_keeps IsTallied (find e.key c.ll) _ _
        record { tally = omega (arith, t.tally); each = (small, t.each) }
        λ old q. record {
          tally = omega (arith, t.tally, total-without e.key c.ll old q);
          each = (small, All-without _ e.key c.ll t.each);
        }

  sweep-total :
      (p : Text → Bool) (ll : List (CacheEntry Info)) (cur : ℕ)
      → total ll ≤ cur
      → (sweep p ll cur).1 + total ll ≡ cur + total (sweep p ll cur).0
  unfolding sweep
  sweep-total p [] cur h = refl
  sweep-total p (e ∷ es) cur h = elim (Bool-cases (p e.key)) [
    | inl f ↦
        rw (f, sweep) (omega (arith, h, sweep-total p es (cur - size_of e) (omega (arith, h))))
    | inr f ↦ rw (f, sweep) (omega (arith, h, sweep-total p es cur (omega (arith, h))))
  ]

  sweep-le : (p : Text → Bool) (ll : List (CacheEntry Info)) (cur : ℕ) → (sweep p ll cur).1 ≤ cur
  unfolding sweep
  sweep-le p [] cur = omega arith
  sweep-le p (e ∷ es) cur = elim (Bool-cases (p e.key)) [
    | inl f ↦ rw (f, sweep) (omega (arith, sweep-le p es (cur - size_of e)))
    | inr f ↦ rw (f, sweep) (sweep-le p es cur)
  ]

  sweep-All :
      (P : CacheEntry Info → Type 0) (p : Text → Bool) (ll : List (CacheEntry Info)) (cur : ℕ)
      → All P ll
      → All P (sweep p ll cur).0
  unfolding sweep
  sweep-All P p [] cur h = tt
  sweep-All P p (e ∷ es) cur h = elim (Bool-cases (p e.key)) [
    | inl f ↦ rw (f, sweep) (sweep-All P p es (cur - size_of e) h.1)
    | inr f ↦ rw (f, sweep) (h.0, sweep-All P p es cur h.1)
  ]

  pub swept-IsWithin : (c : ObjCache Info) (p : Text → Bool) → IsWithin c → IsWithin (swept c p)
  swept-IsWithin c p w =
      let sum = sweep-total p c.ll c.cur (omega (arith, w.tallied.tally)) in
      record {
        tallied = record {
          tally = omega (arith, sum, w.tallied.tally);
          each = sweep-All _ p c.ll c.cur w.tallied.each;
        };
        budget = omega (arith, w.budget, sweep-le p c.ll c.cur);
      }

  abbrev Holds : ObjCache Info × Option (CacheEntry Info) → Type 0
  Holds x = IsWithin x.0

  pub get-IsWithin :
      (c : ObjCache Info) (now : ℕ) (k : Text) → IsWithin c → IsWithin (get c now k).0
  unfolding get remove_locked
  get-IsWithin c now k w =
      if_keeps Holds (not (enabled c)) _ _ (λ _. w)
        λ _.
          option_keeps Holds (find k c.ll) _ _
            record {
              tallied = record { tally = w.tallied.tally; each = w.tallied.each };
              budget = w.budget;
            }
            λ e q.
              let same = (text_eq_iff e.key k).0 (find-key k c.ll e q) in
              let found : find e.key c.ll ≡ some e =
                subst (λ j. find j c.ll ≡ some e) (sym same) q in
              let sum = total-without e.key c.ll e found in
              let each = All-without _ e.key c.ll w.tallied.each in
              if_keeps Holds (ltb c.ttl (now - e.stored)) _ _
                (λ _. record {
                  tallied = record { tally = omega (arith, sum, w.tallied.tally); each = each };
                  budget = omega (arith, w.budget);
                })
                (λ _. record {
                  tallied = record {
                    tally = omega (arith, sum, w.tallied.tally);
                    each = (All-find _ k c.ll e w.tallied.each q, each);
                  };
                  budget = w.budget;
                })

  pub put-IsWithin :
      (c : ObjCache Info) (now : ℕ) (k bytes : Text) (info : Info)
      → IsWithin c
      → IsWithin (put c now k bytes info)
  unfolding put
  put-IsWithin c now k bytes info w =
      if_keeps IsWithin (not (enabled c) || ltb c.obj (length bytes)) _ _ (λ _. w)
        λ small.
          let e : CacheEntry Info = record { key = k; bytes = bytes; info = info; stored = now } in
          trim-IsWithin (length (push_front c e).ll) (push_front c e)
            (push_front-IsTallied c e (ground (arith, small)) w.tallied) (omega arith)
