-- ===== src/Domain/CaseFacts/Tracking.antt =====
-- domain/case_facts.py: what the pass over the assertions has collected at its end.
use ecommerce_after_sales_ag.Common.{
  String, false, not, ◌&&◌, ◌||◌, Option, none, some, List, [], ◌∷◌, ◌≡◌, refl, sym, ap, ◌∙◌, subst,
  inl, inr, any, str_eq, opt_eq, eq_iff, is_some, All, Bool-cases, or-eq-false, true-ne-false,
}
use ecommerce_after_sales_ag.Common.Enum.{◌is◌}
use ecommerce_after_sales_ag.Common.Selections.{All-map}
use ecommerce_after_sales_ag.Common.Result.{
  integrity, ok, raise_if, >>-eq-ok, raise_if-eq-ok, ok-injective,
}
use ecommerce_after_sales_ag.Domain.CaseFacts.Codes.{FactCode, fact_code_enum}
use ecommerce_after_sales_ag.Domain.CaseFacts.Records.{CaseFactAssertion}
use ecommerce_after_sales_ag.Domain.CaseFacts.Rebuild.{Ledger, link, supersede, collect, competes}
use ecommerce_after_sales_ag.Domain.CaseFacts.Disputes.{
  onto, elsewhere, dangles, broken, on_target, contested, find-holds, target_at, targets_at,
  link-flagged, link-matched, link-competes,
}

abbrev AllFound : List CaseFactAssertion → List CaseFactAssertion → Type 0
AllFound ids us = All (λ u. target_at u.assertion_id ids ≡ some u) us

-- What a ledger says of one fact agrees with the assertions seen so far, the newest first.
pub record Tracks (code : FactCode) (seen : List CaseFactAssertion) (l : Ledger) : Type 0 where
  pub ids : l.ids ≡ seen
  pub flagged : any (λ c. c is code) l.invalid_supersession ≡ broken code seen
  pub found : AllFound l.ids l.superseded_targets
  pub matched :
      broken code seen ≡ false
      → (id : String)
      → any (targets_at code id) l.superseded_targets ≡ any (on_target code (some id)) seen
  pub competing :
      broken code seen ≡ false → competes code l.superseded_targets ≡ contested code seen

-- a new assertion, whose id none has, changes no target
found_later :
    (a : CaseFactAssertion) (ids us : List CaseFactAssertion)
    → any (λ b. str_eq b.assertion_id a.assertion_id) ids ≡ false
    → AllFound ids us
    → AllFound (a ∷ ids) us
found_later a ids us fresh w =
    All-map
      (λ u h. elim (Bool-cases (str_eq a.assertion_id u.assertion_id)) [
        | inr e ↦ rw e h
        | inl e ↦ absurd (
            true-ne-false (
              sym (find-holds (λ t. str_eq t.assertion_id u.assertion_id) ids u h).1
              ∙ ap (λ i. any (λ b. str_eq b.assertion_id i) ids)
                  (sym ((eq_iff a.assertion_id u.assertion_id).0 e))
              ∙ fresh))
      ])
      us w

abbrev with_new : CaseFactAssertion → Ledger → Ledger
with_new a l = record l { ids = a ∷ l.ids }

module _ (code : FactCode) (a : CaseFactAssertion) (seen : List CaseFactAssertion)
    (l : Ledger) where
  found-link :
      (o : Option CaseFactAssertion)
      → ((t : CaseFactAssertion) → o ≡ some t → target_at t.assertion_id l.ids ≡ some t)
      → AllFound l.ids l.superseded_targets
      → AllFound l.ids (link a o l).superseded_targets
  unfolding link
  found-link none h w = w
  found-link (some t) h w = elim (Bool-cases (t.fact_code is a.fact_code)) [
    | inl e ↦ rw e (h t refl, w)
    | inr e ↦ rw e w
  ]

  ids-link : (o : Option CaseFactAssertion) → (link a o l).ids ≡ l.ids
  unfolding link
  ids-link none = refl
  ids-link (some t) = elim (Bool-cases (t.fact_code is a.fact_code)) [
    | inl e ↦ rw e refl
    | inr e ↦ rw e refl
  ]

  -- the ledger after an assertion that supersedes something
  Tracks-link :
      (id : String)
      → a.supersedes_assertion_id ≡ some id
      → any (λ b. str_eq b.assertion_id a.assertion_id) l.ids ≡ false
      → Tracks code seen l
      → Tracks code (a ∷ seen) (with_new a (link a (target_at id l.ids) l))
  Tracks-link id e fresh w =
      let o = target_at id l.ids in
      let named = λ (t : CaseFactAssertion) (h : o ≡ some t).
        (find-holds (λ u. str_eq u.assertion_id id) l.ids t h).0 in
      let at_seen : o ≡ target_at id seen = ap (target_at id) w.ids in
      let dangling : dangles code a.supersedes_assertion_id seen ≡ elsewhere code o =
        ap (λ s. dangles code s seen) e ∙ ap (elsewhere code) (sym at_seen) in
      let known =
        found-link o
          (λ t h. ap (λ i. target_at i l.ids) ((eq_iff t.assertion_id id).0 (named t h)) ∙ h)
          w.found in
      let same_ids = ids-link o in
      let unbroken = λ (h : broken code (a ∷ seen) ≡ false).
        or-eq-false (dangles code a.supersedes_assertion_id seen && a.fact_code is code)
          (broken code seen) h in
      let one = λ (h : broken code (a ∷ seen) ≡ false).
        ap (λ b. b && a.fact_code is code) (sym dangling) ∙ (unbroken h).0 in
      record {
        ids = ap (◌∷◌ a) (same_ids ∙ w.ids);
        flagged =
            link-flagged code a o l
            ∙ ap (λ b. (elsewhere code o && a.fact_code is code) || b) w.flagged
            ∙ ap (λ b. (b && a.fact_code is code) || broken code seen) (sym dangling);
        found =
            found_later a (link a o l).ids (link a o l).superseded_targets
              (ap (any (λ b. str_eq b.assertion_id a.assertion_id)) same_ids ∙ fresh)
              (subst (λ ids. AllFound ids (link a o l).superseded_targets) (sym same_ids) known);
        matched = λ h id'.
            link-matched code a o id id' l named (one h)
            ∙ ap (λ b. (str_eq id id' && a.fact_code is code) || b) (w.matched (unbroken h).1 id')
            ∙ ap
                (λ s.
                  (opt_eq s (some id') && a.fact_code is code)
                  || any (on_target code (some id')) seen)
                (sym e);
        competing = λ h.
            link-competes code a o id l refl w.found (one h)
            ∙ ap (λ b. (a.fact_code is code && b) || competes code l.superseded_targets)
                (w.matched (unbroken h).1 id)
            ∙ ap (λ b. (a.fact_code is code && any (on_target code (some id)) seen) || b)
                (w.competing (unbroken h).1)
            ∙ ap
                (λ s.
                  (is_some s && a.fact_code is code && any (on_target code s) seen)
                  || contested code seen)
                (sym e);
      }

  -- and after one that supersedes nothing
  Tracks-new :
      a.supersedes_assertion_id ≡ none
      → any (λ b. str_eq b.assertion_id a.assertion_id) l.ids ≡ false
      → Tracks code seen l
      → Tracks code (a ∷ seen) (with_new a l)
  Tracks-new e fresh w =
      let unbroken = λ (h : broken code (a ∷ seen) ≡ false).
        (or-eq-false (dangles code a.supersedes_assertion_id seen && a.fact_code is code)
          (broken code seen) h).1 in
      record {
        ids = ap (◌∷◌ a) w.ids;
        flagged =
            w.flagged
            ∙ ap (λ s. (dangles code s seen && a.fact_code is code) || broken code seen) (sym e);
        found = found_later a l.ids l.superseded_targets fresh w.found;
        matched = λ h id'.
            w.matched (unbroken h) id'
            ∙ ap
                (λ s.
                  (opt_eq s (some id') && a.fact_code is code)
                  || any (on_target code (some id')) seen)
                (sym e);
        competing = λ h.
            w.competing (unbroken h)
            ∙ ap
                (λ s.
                  (is_some s && a.fact_code is code && any (on_target code s) seen)
                  || contested code seen)
                (sym e);
      }

  Tracks-supersede :
      (s : Option String)
      → a.supersedes_assertion_id ≡ s
      → any (λ b. str_eq b.assertion_id a.assertion_id) l.ids ≡ false
      → Tracks code seen l
      → Tracks code (a ∷ seen) (with_new a (supersede a s l))
  unfolding supersede
  Tracks-supersede none e fresh w = Tracks-new e fresh w
  Tracks-supersede (some id) e fresh w = Tracks-link id e fresh w

-- The pass keeps the ledger in agreement with what it has seen.
pub collect-Tracks :
    (code : FactCode) (case_id : String) (xs seen : List CaseFactAssertion) (l l' : Ledger)
    → Tracks code seen l
    → collect case_id xs l ≡ ok l'
    → Tracks code (onto seen xs) l'
unfolding collect
collect-Tracks code case_id [] seen l l' w h = subst (Tracks code seen) (ok-injective h) w
collect-Tracks code case_id (a ∷ xs) seen l l' w h =
    let refused =
      not (str_eq a.case_id case_id) || any (λ b. str_eq b.assertion_id a.assertion_id) l.ids in
    let (passed, rest) =
      >>-eq-ok (raise_if refused (integrity "assertion Case/id integrity failed")) _ h in
    let (_, fresh) =
      or-eq-false (not (str_eq a.case_id case_id)) _ (raise_if-eq-ok refused _ passed) in
    collect-Tracks code case_id xs (a ∷ seen) (with_new a (supersede a a.supersedes_assertion_id l))
      l' (Tracks-supersede code a seen l a.supersedes_assertion_id refl fresh w) rest
