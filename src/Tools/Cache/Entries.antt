-- ===== src/Tools/Cache/Entries.antt =====
-- tools/cache.py: the dictionaries and sets of keys on which the cache stands.
use ecommerce_after_sales_ag.Common.{
  String, true, none, some, [], ◌∷◌, ◌≡◌, refl, ◌↔◌, arith, All, str_eq, eq_iff, Bool-cases,
  and-eq-true, and_of_true, true-ne-false, inl, inr, sym, ap, ◌∙◌, if◌then◌else◌, subst,
}
use ecommerce_after_sales_ag.Tools.Cache.{
  ToolCacheKey, same_key, Entries, lookup, put, without_case,
}

pub same_key_iff : (a b : ToolCacheKey) → (same_key a b ≡ true) ↔ (a ≡ b)
unfolding same_key
same_key_iff a b = (
  (λ h.
      let (h₁, revision) = and-eq-true _ _ h in
      let (h₂, args) = and-eq-true _ _ h₁ in
      let (case, tool) = and-eq-true _ _ h₂ in
      λ i. record {
        case_id = (eq_iff a.case_id b.case_id).0 case i;
        tool_name = (eq_iff a.tool_name b.tool_name).0 tool i;
        normalized_args = (eq_iff a.normalized_args b.normalized_args).0 args i;
        source_revision = (eq_iff a.source_revision b.source_revision).0 revision i;
      }),
  (λ e.
      and_of_true _ _
        (and_of_true _ _
          (and_of_true _ _ ((eq_iff a.case_id b.case_id).1 (ap (λ (k : ToolCacheKey). k.case_id) e))
            ((eq_iff a.tool_name b.tool_name).1 (ap (λ (k : ToolCacheKey). k.tool_name) e)))
          ((eq_iff a.normalized_args b.normalized_args).1
            (ap (λ (k : ToolCacheKey). k.normalized_args) e)))
        ((eq_iff a.source_revision b.source_revision).1
          (ap (λ (k : ToolCacheKey). k.source_revision) e))),
)

module _ {B : Type 0} where
  -- A key reads what was last put under it, and other keys read what they read before.
  pub lookup-put :
      (j k : ToolCacheKey) (v : B) (d : Entries B)
      → lookup k (put j v d) ≡ (if same_key j k then some v else lookup k d)
  unfolding lookup put
  lookup-put j k v [] = refl
  lookup-put j k v (e ∷ d) = elim (Bool-cases (same_key e.0 j)) [
    | inl here ↦
        let moved : same_key e.0 k ≡ same_key j k =
          ap (λ a. same_key a k) ((same_key_iff e.0 j).0 here) in
        elim (Bool-cases (same_key j k)) [
          | inl hit ↦ rw (here, hit)
          | inr miss ↦ rw (here, miss, moved, miss)
        ]
    | inr there ↦ elim (Bool-cases (same_key e.0 k)) [
      | inl hit ↦ elim (Bool-cases (same_key j k)) [
        | inl same ↦ absurd (
            true-ne-false (
              sym (
                (same_key_iff e.0 j).1
                  ((same_key_iff e.0 k).0 hit ∙ sym ((same_key_iff j k).0 same)))
              ∙ there))
        | inr other ↦ rw (there, hit, other)
      ]
      | inr miss ↦ rw (there, miss) (lookup-put j k v d)
    ]
  ]

  -- Without a case, its keys read nothing and the others read what they read before.
  pub lookup-without_case :
      (case_id : String) (k : ToolCacheKey) (d : Entries B)
      → lookup k (without_case case_id d) ≡ (if str_eq k.case_id case_id then none else lookup k d)
  unfolding lookup without_case
  lookup-without_case case_id k [] = elim (Bool-cases (str_eq k.case_id case_id)) [
    | inl gone ↦ rw gone
    | inr kept ↦ rw kept
  ]
  lookup-without_case case_id k (e ∷ d) = elim (Bool-cases (same_key e.0 k)) [
    | inl here ↦
        let same : str_eq e.0.case_id case_id ≡ str_eq k.case_id case_id =
          ap (λ (a : ToolCacheKey). str_eq a.case_id case_id) ((same_key_iff e.0 k).0 here) in
        elim (Bool-cases (str_eq k.case_id case_id)) [
          | inl gone ↦ rw (same, gone) (rw (lookup-without_case case_id k d, gone))
          | inr kept ↦ rw (same, kept, here)
        ]
    | inr there ↦ elim (Bool-cases (str_eq e.0.case_id case_id)) [
      | inl gone ↦ rw (gone, there) (lookup-without_case case_id k d)
      | inr kept ↦ rw (kept, there) (lookup-without_case case_id k d)
    ]
  ]

  pub put-All :
      (P : B → Type 0) (k : ToolCacheKey) (v : B) (d : Entries B)
      → P v
      → All (λ e. P e.1) d
      → All (λ e. P e.1) (put k v d)
  unfolding put
  put-All P k v [] p h = (p, tt)
  put-All P k v (e ∷ d) p h = elim (Bool-cases (same_key e.0 k)) [
    | inl here ↦ rw here (p, h.1)
    | inr there ↦ rw there (h.0, put-All P k v d p h.1)
  ]

  pub without_case-All :
      (P : B → Type 0) (case_id : String) (d : Entries B)
      → All (λ e. P e.1) d
      → All (λ e. P e.1) (without_case case_id d)
  unfolding without_case
  without_case-All P case_id [] h = tt
  without_case-All P case_id (e ∷ d) h = elim (Bool-cases (str_eq e.0.case_id case_id)) [
    | inl gone ↦ rw gone (without_case-All P case_id d h.1)
    | inr kept ↦ rw kept (h.0, without_case-All P case_id d h.1)
  ]

  pub lookup-All :
      (P : B → Type 0) (k : ToolCacheKey) (d : Entries B) (v : B)
      → All (λ e. P e.1) d
      → lookup k d ≡ some v
      → P v
  unfolding lookup
  lookup-All P k [] v h e = cc
  lookup-All P k (x ∷ d) v h e = elim (Bool-cases (same_key x.0 k)) [
    | inl here ↦ subst P (ground (arith, here)) h.0
    | inr there ↦ lookup-All P k d v h.1 (ground (arith, there))
  ]
