-- ===== src/Api/ObjCache.antt =====
-- internal/api/objcache.go: a cache of small objects, the one used last in front. The linked list and
-- the map from keys to its elements hold the same entries, and are one list here.
pub mod Budget
pub mod Calls
pub mod Coherence
use gostore.Base.{
  ℕ, zero, suc, ◌+◌, ◌-◌, ◌%◌, ◌^◌, Text, List, [], ◌∷◌, ◌++◌, Bool, true, false, not, Option, none,
  some, ltb, leb, ◌==◌, ◌&&◌, ◌||◌, if◌then◌else◌, text_eq, has_prefix, length,
}

-- `cacheKey`
unfoldable pub cache_key : Text → Text → Text → Text
cache_key bucket key version_id = bucket ++ (0 ∷ key ++ (0 ∷ version_id))

module _ (Info : Type 0) where
  pub record CacheEntry : Type 0 where
    pub key : Text
    pub bytes : Text
    pub info : Info
    pub stored : ℕ

  -- Times are in nanoseconds; the counters have 64 bits.
  pub record ObjCache : Type 0 where
    pub max : ℕ
    pub obj : ℕ
    pub ttl : ℕ
    pub cur : ℕ
    pub ll : List CacheEntry
    pub hits : ℕ
    pub miss : ℕ

module _ {Info : Type 0} where
  abbrev pub new_obj_cache : ℕ → ℕ → ℕ → ObjCache Info
  new_obj_cache max obj ttl = record {
    max = max;
    obj = obj;
    ttl = ttl;
    cur = 0;
    ll = [];
    hits = 0;
    miss = 0;
  }

  abbrev pub enabled : ObjCache Info → Bool
  enabled c = ltb 0 c.max

  -- `c.m[k]`
  unfoldable pub find : Text → List (CacheEntry Info) → Option (CacheEntry Info)
  find k [] = none
  find k (e ∷ es) = if text_eq e.key k then some e else find k es

  unfoldable pub without : Text → List (CacheEntry Info) → List (CacheEntry Info)
  without k [] = []
  without k (e ∷ es) = let rest = without k es in if text_eq e.key k then es else e ∷ rest

  abbrev pub size_of : CacheEntry Info → ℕ
  size_of e = length e.bytes

  -- `removeLocked` of the entry that the map has for its key.
  unfoldable pub remove_locked : ObjCache Info → CacheEntry Info → ObjCache Info
  unfolding without
  remove_locked c e = record c { cur = c.cur - size_of e; ll = without e.key c.ll }

  unfoldable pub get : ObjCache Info → ℕ → Text → ObjCache Info × Option (CacheEntry Info)
  unfolding find remove_locked without
  get c now k = if not (enabled c) then (c, none) else elim (find k c.ll) [
    | none ↦ (record c { miss = (c.miss + 1) % 2 ^ 64 }, none)
    | some e ↦
        if ltb c.ttl (now - e.stored)
        then (record (remove_locked c e) { miss = (c.miss + 1) % 2 ^ 64 }, none)
        else (record c { ll = e ∷ without e.key c.ll; hits = (c.hits + 1) % 2 ^ 64 }, some e)
  ]

  -- `c.ll.Back()`, and the list without it.
  unfoldable pub back : List (CacheEntry Info) → Option (CacheEntry Info)
  back [] = none
  back (e ∷ []) = some e
  back (e ∷ x ∷ xs) = back (x ∷ xs)

  unfoldable pub init : List (CacheEntry Info) → List (CacheEntry Info)
  init [] = []
  init (e ∷ []) = []
  init (e ∷ x ∷ xs) = e ∷ init (x ∷ xs)

  -- `for c.cur > c.max`, with the length of the list for the number of rounds: each takes one entry.
  unfoldable pub trim : ℕ → ObjCache Info → ObjCache Info
  trim zero c = c
  trim (suc n) c = elim (back c.ll) [
    | none ↦ c
    | some e ↦
        let rest = trim n (record c { cur = c.cur - size_of e; ll = init c.ll }) in
        if ltb c.max c.cur then rest else c
  ]

  -- The cache with the entry in front, in place of one with its key, before the loop.
  unfoldable pub push_front : ObjCache Info → CacheEntry Info → ObjCache Info
  unfolding find without
  push_front c e = elim (find e.key c.ll) [
    | some old ↦ record c { cur = c.cur - size_of old + size_of e; ll = e ∷ without e.key c.ll }
    | none ↦ record c { cur = c.cur + size_of e; ll = e ∷ c.ll }
  ]

  unfoldable pub put : ObjCache Info → ℕ → Text → Text → Info → ObjCache Info
  unfolding trim push_front
  put c now k bytes info =
      if not (enabled c) || ltb c.obj (length bytes)
      then c
      else (let pushed =
            push_front c (record { key = k; bytes = bytes; info = info; stored = now }) in
          trim (length pushed.ll) pushed)

  -- The loops of `evict` and `evictBucket`: every entry whose key passes is removed.
  unfoldable pub sweep : (Text → Bool) → List (CacheEntry Info) → ℕ → List (CacheEntry Info) × ℕ
  sweep p [] cur = ([], cur)
  sweep p (e ∷ es) cur = elim (p e.key) [
    | true ↦ sweep p es (cur - size_of e)
    | false ↦ let rest = sweep p es cur in (e ∷ rest.0, rest.1)
  ]

  abbrev pub swept : ObjCache Info → (Text → Bool) → ObjCache Info
  swept c p = let (ll, cur) = sweep p c.ll c.cur in record c { ll = ll; cur = cur }

  unfoldable pub evict : ObjCache Info → Text → Text → Text → ObjCache Info
  unfolding sweep
  evict c bucket key version_id =
      let prefix = bucket ++ (0 ∷ key ++ (0 ∷ [])) in
      if not (enabled c)
      then c
      else swept c (λ k. text_eq k (cache_key bucket key version_id) || has_prefix k prefix)

  unfoldable pub evict_bucket : ObjCache Info → Text → ObjCache Info
  unfolding sweep
  evict_bucket c bucket =
      let prefix = bucket ++ (0 ∷ []) in
      if not (enabled c) then c else swept c (λ k. has_prefix k prefix)
