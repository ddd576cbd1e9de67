-- ===== src/Api/ObjCache/Calls.antt =====
-- Calls on the object cache of internal/api, in any order.
use gostore.Base.{ℕ, Text, List, [], ◌∷◌, not, refl, arith, if_keeps}
use gostore.Api.ObjCache.{ObjCache, new_obj_cache, enabled, get, put, evict, evict_bucket}
use gostore.Api.ObjCache.Budget.{IsWithin, get-IsWithin, put-IsWithin, swept-IsWithin}

-- A call on the cache, with its time.
pub data Call (Info : Type 0) : Type 0 where
  get_call : ℕ → Text → Call Info
  put_call : ℕ → Text → Text → Info → Call Info
  evict_call : Text → Text → Text → Call Info
  evict_bucket_call : Text → Call Info

module _ {Info : Type 0} where
  unfoldable pub step : ObjCache Info → Call Info → ObjCache Info
  step c (get_call now k) = (get c now k).0
  step c (put_call now k bytes info) = put c now k bytes info
  step c (evict_call bucket key version_id) = evict c bucket key version_id
  step c (evict_bucket_call bucket) = evict_bucket c bucket

  unfoldable pub run : ObjCache Info → List (Call Info) → ObjCache Info
  unfolding step
  run c [] = c
  run c (x ∷ xs) = run (step c x) xs

  step-IsWithin : (c : ObjCache Info) (x : Call Info) → IsWithin c → IsWithin (step c x)
  unfolding step evict evict_bucket
  step-IsWithin c (get_call now k) w = get-IsWithin c now k w
  step-IsWithin c (put_call now k bytes info) w = put-IsWithin c now k bytes info w
  step-IsWithin c (evict_call bucket key version_id) w =
      if_keeps IsWithin (not (enabled c)) _ _ (λ _. w) (λ _. swept-IsWithin c _ w)
  step-IsWithin c (evict_bucket_call bucket) w =
      if_keeps IsWithin (not (enabled c)) _ _ (λ _. w) (λ _. swept-IsWithin c _ w)

  run-keeps : (c : ObjCache Info) (xs : List (Call Info)) → IsWithin c → IsWithin (run c xs)
  unfolding run
  run-keeps c [] w = w
  run-keeps c (x ∷ xs) w = run-keeps (step c x) xs (step-IsWithin c x w)

  -- After any calls on a new cache, whatever their times, the count of bytes is that of the entries
  -- held, it does not exceed the budget, and no entry is larger than an object may be.
  pub run-IsWithin :
      (max obj ttl : ℕ) (xs : List (Call Info)) → IsWithin (run (new_obj_cache max obj ttl) xs)
  run-IsWithin max obj ttl xs =
      run-keeps _ xs record { tallied = record { tally = refl; each = tt }; budget = omega arith }
