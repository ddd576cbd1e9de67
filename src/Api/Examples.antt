-- ===== src/Api/Examples.antt =====
-- A small cache on which the theorems about internal/api are run.
use gostore.Base.{ℕ, List, [], ◌∷◌, some, codes, ◌≡◌, refl, arith}
use gostore.Api.ObjCache.{ObjCache, new_obj_cache, get, put}
use gostore.Api.ObjCache.Budget.{IsWithin}
use gostore.Api.ObjCache.Calls.{Call, get_call, put_call, evict_call, run, run-IsWithin}
use gostore.Api.ObjCache.Coherence.{get-put}

-- Three puts into a cache of eight bytes, the second of which is too large for an object.
abbrev calls : List (Call ℕ)
calls =
    put_call 1 (codes "a") (codes "12345") 0
    ∷ put_call 2 (codes "b") (codes "1234567") 0
    ∷ get_call 3 (codes "a")
    ∷ put_call 4 (codes "c") (codes "1234") 0
    ∷ evict_call (codes "x") (codes "y") []
    ∷ []

run-IsWithin_example : IsWithin (run (new_obj_cache 8 6 100) calls)
run-IsWithin_example = run-IsWithin 8 6 100 calls

abbrev small : ObjCache ℕ
small = new_obj_cache 8 6 100

get-put_example :
    (get (put small 5 (codes "a") (codes "12345") 7) 9 (codes "a")).1
    ≡ some (record { key = codes "a"; bytes = codes "12345"; info = 7; stored = 5 })
unfolding run
get-put_example =
    get-put small 5 9 (codes "a") (codes "12345") 7 (run-IsWithin 8 6 100 []) refl (omega arith)
      (omega arith) (omega arith)
