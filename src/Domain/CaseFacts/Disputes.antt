-- ===== src/Domain/CaseFacts/Disputes.antt =====
-- domain/case_facts.py: which supersessions are in dispute, told from the assertions alone.
use mathlib.Core.Path.{fun_ext}
use ecommerce_after_sales_ag.Common.{
  String, Bool, true, false, not, ◌&&◌, ◌||◌, Option, none, some, List, [], ◌∷◌, ◌≡◌, refl, sym, ap,
  ◌∙◌, subst, inl, inr, any, find, select, contains, str_eq, opt_eq, eq_iff, is_some, All,
  Bool-cases, Option-cases, or_left, or_right,
}
use ecommerce_after_sales_ag.Common.Enum.{◌is◌, is_iff, some-injective}
use ecommerce_after_sales_ag.Domain.CaseFacts.Codes.{FactCode, fact_code_enum}
use ecommerce_after_sales_ag.Domain.CaseFacts.Records.{CaseFactAssertion}
use ecommerce_after_sales_ag.Domain.CaseFacts.Entries.{superseded_ids, active_among}
use ecommerce_after_sales_ag.Domain.CaseFacts.Rebuild.{Ledger, link, competes}

-- the assertions of a list in reverse, before those of another
abbrev pub onto : List CaseFactAssertion → List CaseFactAssertion → List CaseFactAssertion
onto seen [] = seen
onto seen (x ∷ xs) = onto (x ∷ seen) xs

-- whether what was found is nothing, or an assertion on another fact
abbrev pub elsewhere : FactCode → Option CaseFactAssertion → Bool
elsewhere code none = true
elsewhere code (some t) = not (t.fact_code is code)

-- whether an assertion on the fact that supersedes this id finds nothing earlier on the fact
abbrev pub dangles : FactCode → Option String → List CaseFactAssertion → Bool
dangles code none earlier = false
dangles code (some id) earlier = elsewhere code (find (λ t. str_eq t.assertion_id id) earlier)

-- Among assertions, the newest first: one on the fact supersedes no earlier assertion on the fact.
abbrev pub broken : FactCode → List CaseFactAssertion → Bool
broken code [] = false
broken code (a ∷ earlier) =
    let rest = broken code earlier in
    (dangles code a.supersedes_assertion_id earlier && a.fact_code is code) || rest

abbrev pub on_target : FactCode → Option String → CaseFactAssertion → Bool
on_target code id b = opt_eq b.supersedes_assertion_id id && b.fact_code is code

-- Among assertions, the newest first: two on the fact supersede the same assertion.
abbrev pub contested : FactCode → List CaseFactAssertion → Bool
contested code [] = false
contested code (a ∷ earlier) =
    let rest = contested code earlier in
    (is_some a.supersedes_assertion_id
      && a.fact_code is code
      && any (on_target code a.supersedes_assertion_id) earlier)
    || rest

-- Of assertions on a fact, those that no other of them supersedes.
abbrev pub unsuperseded : List CaseFactAssertion → List CaseFactAssertion
unsuperseded own =
    select (λ a. not (any (λ b. opt_eq (some a.assertion_id) b.supersedes_assertion_id) own)) own

contains-superseded_ids :
    (id : String) (xs : List CaseFactAssertion)
    → contains id (superseded_ids xs) ≡ any (λ b. opt_eq (some id) b.supersedes_assertion_id) xs
unfolding superseded_ids
contains-superseded_ids id [] = refl
contains-superseded_ids id (a ∷ xs) = elim (Option-cases a.supersedes_assertion_id) [
  | inl e ↦ rw e (contains-superseded_ids id xs)
  | inr (s, e) ↦ rw e (ap (◌||◌ (str_eq id s)) (contains-superseded_ids id xs))
]

pub active_among-eq-unsuperseded :
    (own : List CaseFactAssertion) → active_among own ≡ unsuperseded own
unfolding active_among
active_among-eq-unsuperseded own =
    ap (λ (p : CaseFactAssertion → Bool). select p own)
      (fun_ext λ a. ap not (contains-superseded_ids a.assertion_id own))

pub find-holds :
    (p : CaseFactAssertion → Bool) (xs : List CaseFactAssertion) (t : CaseFactAssertion)
    → find p xs ≡ some t
    → (p t ≡ true) × (any p xs ≡ true)
find-holds p [] t h = cc
find-holds p (x ∷ xs) t h = elim (Bool-cases (p x)) [
  | inl e ↦
      let same : x ≡ t = some-injective (rw e at h) in
      (subst (λ y. p y ≡ true) same e, or_left (p x) (any p xs) e)
  | inr e ↦
      let (holds, there) = find-holds p xs t (rw e at h) in (holds, or_right (p x) (any p xs) there)
]

pub and-false : (b : Bool) → (b && false) ≡ false
and-false true = refl
and-false false = refl

abbrev pub target_at : String → List CaseFactAssertion → Option CaseFactAssertion
target_at id ids = find (λ t. str_eq t.assertion_id id) ids

-- the targets on the fact that have this id
abbrev pub targets_at : FactCode → String → CaseFactAssertion → Bool
targets_at code id u = str_eq u.assertion_id id && u.fact_code is code

module _ (code : FactCode) (a : CaseFactAssertion) where
  -- an assertion on the fact whose supersession is not broken has a target on the fact
  on_fact :
      (t : CaseFactAssertion)
      → (not (t.fact_code is code) && a.fact_code is code) ≡ false
      → (t.fact_code is a.fact_code) ≡ false
      → (a.fact_code is code) ≡ false
  on_fact t h other = elim (Bool-cases (a.fact_code is code)) [
    | inr e ↦ e
    | inl e ↦
        let there : not (t.fact_code is code) ≡ true =
          ap (λ c. not (t.fact_code is c)) (sym ((is_iff a.fact_code code).0 e)) ∙ ap not other in
        absurd (let k = rw (there, e) at h in cc)
  ]

  pub link-flagged :
      (o : Option CaseFactAssertion) (l : Ledger)
      → any (λ c. c is code) (link a o l).invalid_supersession
        ≡ ((elsewhere code o && a.fact_code is code) || any (λ c. c is code) l.invalid_supersession)
  unfolding link
  link-flagged none l = refl
  link-flagged (some t) l = elim (Bool-cases (t.fact_code is a.fact_code)) [
    | inl same ↦ elim (Bool-cases (a.fact_code is code)) [
      | inl e ↦
          let there : (t.fact_code is code) ≡ true =
            ap (λ c. t.fact_code is c) (sym ((is_iff a.fact_code code).0 e)) ∙ same in
          rw (same, there) refl
      | inr e ↦ rw (same, e, and-false) refl
    ]
    | inr other ↦ elim (Bool-cases (a.fact_code is code)) [
      | inl e ↦
          let there : (t.fact_code is code) ≡ false =
            ap (λ c. t.fact_code is c) (sym ((is_iff a.fact_code code).0 e)) ∙ other in
          rw (other, there, e) refl
      | inr e ↦ rw (other, e, and-false) refl
    ]
  ]

  pub link-matched :
      (o : Option CaseFactAssertion) (id id' : String) (l : Ledger)
      → ((t : CaseFactAssertion) → o ≡ some t → str_eq t.assertion_id id ≡ true)
      → (elsewhere code o && a.fact_code is code) ≡ false
      → any (targets_at code id') (link a o l).superseded_targets
        ≡ ((str_eq id id' && a.fact_code is code) || any (targets_at code id') l.superseded_targets)
  unfolding link
  link-matched none id id' l named h = rw (h, and-false) refl
  link-matched (some t) id id' l named h = elim (Bool-cases (t.fact_code is a.fact_code)) [
    | inl same ↦
        let code_of = (is_iff t.fact_code a.fact_code).0 same in
        let id_of = (eq_iff t.assertion_id id).0 (named t refl) in
        rw same (
          ap (λ b. b || any (targets_at code id') l.superseded_targets)
            (ap (λ i. str_eq i id' && t.fact_code is code) id_of
              ∙ ap (λ c. str_eq id id' && c is code) code_of))
    | inr other ↦ rw (other, on_fact t h other, and-false) refl
  ]

  -- targets are found by their ids, so another target with the id of t is t
  same_targets :
      (ids us : List CaseFactAssertion) (t : CaseFactAssertion) (id : String)
      → All (λ u. target_at u.assertion_id ids ≡ some u) us
      → target_at id ids ≡ some t
      → (t.fact_code is code) ≡ true
      → any (λ u. str_eq u.assertion_id id) us ≡ any (targets_at code id) us
  same_targets ids [] t id w h e = refl
  same_targets ids (u ∷ us) t id w h e = elim (Bool-cases (str_eq u.assertion_id id)) [
    | inr k ↦ rw k (same_targets ids us t id w.1 h e)
    | inl k ↦
        let found : target_at id ids ≡ some u =
          ap (λ i. target_at i ids) (sym ((eq_iff u.assertion_id id).0 k)) ∙ w.0 in
        let is_t = some-injective (sym h ∙ found) in
        let there : (u.fact_code is code) ≡ true =
          subst (λ v. (v.fact_code is code) ≡ true) is_t e in
        rw (k, there) refl
  ]

  pub link-competes :
      (o : Option CaseFactAssertion) (id : String) (l : Ledger)
      → o ≡ target_at id l.ids
      → All (λ u. target_at u.assertion_id l.ids ≡ some u) l.superseded_targets
      → (elsewhere code o && a.fact_code is code) ≡ false
      → competes code (link a o l).superseded_targets ≡ (
          (a.fact_code is code && any (targets_at code id) l.superseded_targets)
          || competes code l.superseded_targets)
  unfolding link competes
  link-competes none id l f w h = rw h refl
  link-competes (some t) id l f w h = elim (Bool-cases (t.fact_code is a.fact_code)) [
    | inl same ↦
        let code_of = (is_iff t.fact_code a.fact_code).0 same in
        let id_of =
          (eq_iff t.assertion_id id).0
            (find-holds (λ u. str_eq u.assertion_id id) l.ids t (sym f)).0 in
        let here : (t.fact_code is code
              && any (λ u. str_eq u.assertion_id t.assertion_id) l.superseded_targets)
            ≡ (a.fact_code is code && any (targets_at code id) l.superseded_targets) =
          elim (Bool-cases (a.fact_code is code)) [
            | inl e ↦
                let there = ap (λ c. c is code) code_of ∙ e in
                ap (λ b. b && any (λ u. str_eq u.assertion_id t.assertion_id) l.superseded_targets)
                  (there ∙ sym e)
                ∙ ap
                    (λ i.
                      a.fact_code is code
                      && any (λ u. str_eq u.assertion_id i) l.superseded_targets)
                    id_of
                ∙ ap (◌&&◌ (a.fact_code is code))
                    (same_targets l.ids l.superseded_targets t id w (sym f) there)
            | inr e ↦ let there = ap (λ c. c is code) code_of ∙ e in rw (there, e) refl
          ] in
        rw same (ap (λ b. b || competes code l.superseded_targets) here)
    | inr other ↦ rw (other, on_fact t h other) refl
  ]
