-- ===== src/Iam/Cache.antt =====
-- internal/iam/iam.go, compileInline: the cache of parsed inline policies.
use gostore.Base.{
  ◌⊎◌, subst, sym, ℕ, Text, [], Option, none, some, Assoc, lookup, lookup-insert, text_eq,
  text_eq_iff, ◌≡◌, arith, if◌then◌else◌, Bool-cases, Option-cases, inl, inr,
}
use gostore.Policy.{Policy}
use gostore.Iam.{InlineCompiled, Manager, compile_inline, identity}

module _ (parse : Text → Option Policy) where
  -- Every entry holds what its text parses to.
  pub record IsCoherent (cache : Assoc InlineCompiled) : Type 0 where
    pub parsed : (key : Text) (e : InlineCompiled) → lookup key cache ≡ some e → e.pol ≡ parse e.raw

  -- `compileInline` without the cache.
  abbrev pub compiled : Text → Option Policy
  compiled doc = if text_eq doc [] then none else parse doc

  pub compile_inline-compiled :
      (cache : Assoc InlineCompiled) (key doc : Text)
      → IsCoherent cache
      → (compile_inline parse cache key doc).0 ≡ compiled doc
  unfolding compile_inline
  compile_inline-compiled cache key doc c = elim (Option-cases (lookup key cache)) [
    | inl e ↦ rw e (ground arith)
    | inr (x, e) ↦ rw e (ground (arith, c.parsed key x e, text_eq_iff x.raw doc))
  ]

  pub compile_inline-IsCoherent :
      (cache : Assoc InlineCompiled) (key doc : Text)
      → IsCoherent cache
      → IsCoherent (compile_inline parse cache key doc).1
  unfolding compile_inline
  compile_inline-IsCoherent cache key doc c = record {
    parsed = λ j e p.
        ground
          (arith, c.parsed j e, lookup-insert key j (record { raw = doc; pol = parse doc }) cache);
  }

  -- The cache after `Identity` is that before, or that after one call of `compileInline`.
  identity_cache_cases :
      (m : Manager) (now : ℕ) (key : Text)
      → let after = (identity parse m now key).1.inline_cache in
        (after ≡ m.inline_cache)
        ⊎ ((doc : Text) × (after ≡ (compile_inline parse m.inline_cache key doc).1))
  unfolding identity
  identity_cache_cases m now key = elim (Option-cases (lookup key m.svc_accts)) [
    | inl e ↦ inl (ground arith)
    | inr (s, e) ↦ elim (Option-cases (lookup key m.users)) [
      | inl f ↦ elim (Bool-cases (text_eq key m.root_access)) [
        | inl g ↦ inl (ground arith)
        | inr g ↦ inr (s.inline_policy, ground arith)
      ]
      | inr (u, f) ↦ inl (ground arith)
    ]
  ]

  -- `Identity` keeps the cache coherent.
  pub identity-IsCoherent :
      (m : Manager) (now : ℕ) (key : Text)
      → IsCoherent m.inline_cache
      → IsCoherent (identity parse m now key).1.inline_cache
  identity-IsCoherent m now key c = elim (identity_cache_cases m now key) [
    | inl e ↦ subst IsCoherent (sym e) c
    | inr (doc, e) ↦ subst IsCoherent (sym e) (compile_inline-IsCoherent m.inline_cache key doc c)
  ]

  -- What an access key resolves to does not depend on the cache of parsed inline policies, as long as
  -- every entry of it holds what its text parses to.
  pub identity-cache :
      (m : Manager) (cache : Assoc InlineCompiled) (now : ℕ) (key : Text)
      → IsCoherent m.inline_cache
      → IsCoherent cache
      → (identity parse m now key).0
        ≡ (identity parse (record m { inline_cache = cache }) now key).0
  unfolding identity
  identity-cache m cache now key c d = elim (Option-cases (lookup key m.svc_accts)) [
    | inl e ↦ ground arith
    | inr (s, e) ↦ ground (
      arith,
      compile_inline-compiled m.inline_cache key s.inline_policy c,
      compile_inline-compiled cache key s.inline_policy d,
    )
  ]
