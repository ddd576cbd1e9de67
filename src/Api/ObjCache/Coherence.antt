-- ===== src/Api/ObjCache/Coherence.antt =====
-- What the object cache of internal/api answers.
use mathlib.Core.List.{append_assoc}
use gostore.Base.{
  ℕ, zero, suc, ◌-◌, ◌≤◌, Text, List, [], ◌∷◌, ◌++◌, Bool, true, false, not, none, some, ltb, ◌||◌,
  if◌then◌else◌, text_eq, text_eq_iff, text_eq_refl, has_prefix, has_prefix-append, length, ◌≡◌,
  refl, ap, subst, ◌∙◌, arith, Bool-cases, ◌⊎◌, inl, inr, if_keeps, option_keeps,
}
use gostore.Api.ObjCache.{
  cache_key, CacheEntry, ObjCache, enabled, find, without, size_of, get, back, init, trim,
  push_front, put, sweep, swept, evict, evict_bucket,
}
use gostore.Api.ObjCache.Budget.{total, IsWithin, push_front-IsTallied, total-init}

or_true : (a : Bool) {b : Bool} → b ≡ true → (a || b) ≡ true
or_true a h = ground (arith, h)

bucket_prefix :
    (bucket key version_id : Text)
    → has_prefix (cache_key bucket key version_id) (bucket ++ (0 ∷ [])) ≡ true
unfolding cache_key
bucket_prefix bucket key version_id =
    subst (λ t. has_prefix t (bucket ++ (0 ∷ [])) ≡ true)
      (append_assoc bucket (0 ∷ []) (key ++ (0 ∷ version_id)))
      (has_prefix-append (bucket ++ (0 ∷ [])) (key ++ (0 ∷ version_id)))

key_prefix :
    (bucket key version_id : Text)
    → has_prefix (cache_key bucket key version_id) (bucket ++ (0 ∷ key ++ (0 ∷ []))) ≡ true
unfolding cache_key
key_prefix bucket key version_id =
    subst (λ t. has_prefix t (bucket ++ (0 ∷ key ++ (0 ∷ []))) ≡ true)
      (append_assoc bucket (0 ∷ key ++ (0 ∷ [])) version_id
        ∙ ap (λ t. bucket ++ (0 ∷ t)) (append_assoc key (0 ∷ []) version_id))
      (has_prefix-append (bucket ++ (0 ∷ key ++ (0 ∷ []))) version_id)

module _ {Info : Type 0} where
  find-sweep :
      (p : Text → Bool) (k : Text) (ll : List (CacheEntry Info)) (cur : ℕ)
      → p k ≡ true
      → find k (sweep p ll cur).0 ≡ none
  unfolding find sweep
  find-sweep p k [] cur h = refl
  find-sweep p k (e ∷ es) cur h = elim (Bool-cases (p e.key)) [
    | inl f ↦ rw (f, sweep) (find-sweep p k es (cur - size_of e) h)
    | inr f ↦ rw (f, sweep) grind (arith, f, h, text_eq_iff e.key k, find-sweep p k es cur h)
  ]

  abbrev HasEntry : CacheEntry Info → ObjCache Info → Type 0
  HasEntry e c = find e.key c.ll ≡ some e

  -- The entry in front stays while the back is trimmed, if it fits alone.
  trim-front :
      (n : ℕ) (c : ObjCache Info) (e : CacheEntry Info) (es : List (CacheEntry Info))
      → c.ll ≡ e ∷ es
      → c.cur ≡ total c.ll
      → size_of e ≤ c.max
      → find e.key (trim n c).ll ≡ some e
  unfolding find trim init
  trim-front zero c e es front sum fits = rw (front, text_eq_refl e.key) refl
  trim-front (suc n) c e [] front sum fits =
      option_keeps (HasEntry e) (back c.ll) _ _ (rw (front, text_eq_refl e.key) refl) λ x q.
        if_keeps (HasEntry e) (ltb c.max c.cur) _ _
          (λ over. absurd (ground (arith, over, sum, fits, ap total front)))
          (λ _. rw (front, text_eq_refl e.key) refl)
  trim-front (suc n) c e (y ∷ ys) front sum fits =
      option_keeps (HasEntry e) (back c.ll) _ _ (rw (front, text_eq_refl e.key) refl) λ x q.
        if_keeps (HasEntry e) (ltb c.max c.cur) _ _
          (λ over.
            trim-front n (record c { cur = c.cur - size_of x; ll = init c.ll }) e (init (y ∷ ys))
              (rw (front, init) refl) (omega (arith, sum, total-init c.ll x q)) fits)
          (λ _. rw (front, text_eq_refl e.key) refl)

  abbrev HasFront : CacheEntry Info → ObjCache Info → Type 0
  HasFront e c = (rest : List (CacheEntry Info)) × (c.ll ≡ e ∷ rest)

  push_front-HasFront : (c : ObjCache Info) (e : CacheEntry Info) → HasFront e (push_front c e)
  unfolding push_front
  push_front-HasFront c e =
      option_keeps (HasFront e) (find e.key c.ll) _ _ (c.ll, refl)
        λ old q. (without e.key c.ll, refl)

  -- The limits are not changed.
  abbrev HasLimits : ℕ → ℕ → ObjCache Info → Type 0
  HasLimits max ttl c = (c.max ≡ max) × (c.ttl ≡ ttl)

  push_front-HasLimits :
      (c : ObjCache Info) (e : CacheEntry Info) → HasLimits c.max c.ttl (push_front c e)
  unfolding push_front
  push_front-HasLimits c e =
      option_keeps (HasLimits c.max c.ttl) (find e.key c.ll) _ _ (refl, refl) λ old q. (refl, refl)

  trim-HasLimits : (n : ℕ) (c : ObjCache Info) → HasLimits c.max c.ttl (trim n c)
  unfolding trim
  trim-HasLimits zero c = (refl, refl)
  trim-HasLimits (suc n) c =
      option_keeps (HasLimits c.max c.ttl) (back c.ll) _ _ (refl, refl)
        λ e q.
          if_keeps (HasLimits c.max c.ttl) (ltb c.max c.cur) _ _
            (λ _. trim-HasLimits n (record c { cur = c.cur - size_of e; ll = init c.ll }))
            (λ _. (refl, refl))

  pub record Serves (max ttl : ℕ) (e : CacheEntry Info) (c : ObjCache Info) : Type 0 where
    pub limits : HasLimits max ttl c
    pub entry : HasEntry e c

  put-Serves :
      (c : ObjCache Info) (now : ℕ) (k bytes : Text) (info : Info)
      → IsWithin c
      → enabled c ≡ true
      → length bytes ≤ c.obj
      → length bytes ≤ c.max
      → Serves c.max c.ttl
          (record { key = k; bytes = bytes; info = info; stored = now })
          (put c now k bytes info)
  unfolding put
  put-Serves c now k bytes info w on small fits =
      let e : CacheEntry Info = record { key = k; bytes = bytes; info = info; stored = now } in
      let pushed = push_front c e in
      let front = push_front-HasFront c e in
      let limits = push_front-HasLimits c e in
      let trimmed = trim-HasLimits (length pushed.ll) pushed in
      if_keeps (Serves c.max c.ttl e) (not (enabled c) || ltb c.obj (length bytes)) _ _
        (λ bad. absurd (ground (arith, bad, on, small)))
        λ _. record {
          limits = (trimmed.0 ∙ limits.0, trimmed.1 ∙ limits.1);
          entry =
              trim-front (length pushed.ll) pushed e front.0 front.1
                (push_front-IsTallied c e small w.tallied).tally (omega (arith, fits, limits.0));
        }

  get-fresh :
      (c : ObjCache Info) (now : ℕ) (k : Text) (e : CacheEntry Info)
      → enabled c ≡ true
      → find k c.ll ≡ some e
      → now - e.stored ≤ c.ttl
      → (get c now k).1 ≡ some e
  unfolding get
  get-fresh c now k e on found fresh = ground (arith, on, found, fresh)

  -- What was put into a cache within its budget, and is no larger than an object and the budget
  -- allow, is what the next get of its key answers, until it is older than the time to live.
  pub get-put :
      (c : ObjCache Info) (now later : ℕ) (k bytes : Text) (info : Info)
      → IsWithin c
      → enabled c ≡ true
      → length bytes ≤ c.obj
      → length bytes ≤ c.max
      → later - now ≤ c.ttl
      → (get (put c now k bytes info) later k).1
        ≡ some (record { key = k; bytes = bytes; info = info; stored = now })
  get-put c now later k bytes info w on small fits fresh =
      let s = put-Serves c now k bytes info w on small fits in
      get-fresh (put c now k bytes info) later k _ (ground (arith, s.limits.0, on)) s.entry
        (omega (arith, fresh, s.limits.1))

  get-none :
      (c : ObjCache Info) (now : ℕ) (k : Text)
      → (enabled c ≡ false) ⊎ (find k c.ll ≡ none)
      → (get c now k).1 ≡ none
  unfolding get
  get-none c now k (inl off) = ground (arith, off)
  get-none c now k (inr absent) = ground (arith, absent)

  abbrev Misses : ℕ → Text → ObjCache Info → Type 0
  Misses now k c = (get c now k).1 ≡ none

  swept-Misses :
      (c : ObjCache Info) (p : Text → Bool) (now : ℕ) (k : Text)
      → p k ≡ true
      → Misses now k (if not (enabled c) then c else swept c p)
  swept-Misses c p now k h =
      if_keeps (Misses now k) (not (enabled c)) c (swept c p)
        (λ off. get-none c now k (inl (ground (arith, off))))
        (λ _. get-none (swept c p) now k (inr (find-sweep p k c.ll c.cur h)))

  -- After `evict` of a key no version of it is answered, whatever the version that was named, and
  -- after `evictBucket` no key of the bucket is.
  pub get-evict :
      (c : ObjCache Info) (now : ℕ) (bucket key named version_id : Text)
      → ((get (evict c bucket key named) now (cache_key bucket key version_id)).1 ≡ none)
        × ((get (evict_bucket c bucket) now (cache_key bucket key version_id)).1 ≡ none)
  unfolding evict evict_bucket
  get-evict c now bucket key named version_id =
      let k = cache_key bucket key version_id in
      (
        swept-Misses c
            (λ j.
              text_eq j (cache_key bucket key named)
              || has_prefix j (bucket ++ (0 ∷ key ++ (0 ∷ []))))
            now k
            (or_true (text_eq k (cache_key bucket key named)) (key_prefix bucket key version_id)),
        swept-Misses c (λ j. has_prefix j (bucket ++ (0 ∷ []))) now k
            (bucket_prefix bucket key version_id),
      )
