-- ===== src/Events/Pages.antt =====
-- events/store.py: a replay query returns a slice of the log.
use ecommerce_after_sales_ag.Common.{
  ℕ, zero, suc, ◌+◌, ◌≤◌, ◌<◌, String, false, Option, none, some, List, [], ◌∷◌, ◌≡◌, refl, sym, ap,
  subst, ◌∙◌, arith, map, select, str_eq, ltb, All, le→leb, lt→ltb,
}
use ecommerce_after_sales_ag.Common.Enum.{value_of, of_value}
use ecommerce_after_sales_ag.Common.Integer.{pos}
use ecommerce_after_sales_ag.Common.Result.{ok}
use ecommerce_after_sales_ag.Common.Selections.{select-all, All-select, All-map, select-and}
use ecommerce_after_sales_ag.Common.Sorting.{sort_by, IsAscending, sort_by_of_IsAscending}
use ecommerce_after_sales_ag.Common.Time.{Timestamp}
use ecommerce_after_sales_ag.Events.Models.{
  EventDraft, EventRow, EventEnvelope, EventVisibility, event_visibility_enum,
}
use ecommerce_after_sales_ag.Events.Store.{Database, to_envelope}
use ecommerce_after_sales_ag.Events.Replay.{first_rows, to_envelopes, rows_after, list_after}
use ecommerce_after_sales_ag.Events.Log.{
  log_of, IsNumbered, IsLogged, envelope_of, row_of, to_envelope_lem,
}

-- the list without its first n elements
abbrev pub skip {ℓ} : {A : Type ℓ} → ℕ → List A → List A
skip zero xs = xs
skip (suc n) [] = []
skip (suc n) (x ∷ xs) = skip n xs

abbrev visibility_or : Option EventVisibility → EventVisibility
visibility_or none = EventVisibility.developer
visibility_or (some v) = v

-- what a row reads as; every stored text is a visibility
abbrev pub view : EventRow → EventEnvelope
view r = envelope_of r (visibility_or (of_value ⦃e = event_visibility_enum⦄ r.visibility))

abbrev pub IsReadable : EventRow → Type 0
IsReadable r = (v : EventVisibility) × (r.visibility ≡ value_of v)

-- the events of a conversation as a reader sees them, oldest first
abbrev pub events_of : String → Database → List EventEnvelope
events_of c db = map view (log_of c db.events)

found_again :
    (v : EventVisibility) → visibility_or (of_value ⦃e = event_visibility_enum⦄ (value_of v)) ≡ v
found_again EventVisibility.customer = refl
found_again EventVisibility.developer = refl
found_again EventVisibility.both = refl

to_envelope-view : (r : EventRow) → IsReadable r → to_envelope r ≡ ok (view r)
to_envelope-view r (v, h) =
    let known =
      ap (λ t. visibility_or (of_value ⦃e = event_visibility_enum⦄ t)) h ∙ found_again v in
    to_envelope_lem r v h ∙ ap (λ w. ok (envelope_of r w)) (sym known)

pub to_envelopes-view :
    (rs : List EventRow) → All IsReadable rs → to_envelopes rs ≡ ok (map view rs)
unfolding to_envelopes
to_envelopes-view [] h = refl
to_envelopes-view (r ∷ rs) h = rw (to_envelope-view r h.0) (rw (to_envelopes-view rs h.1) refl)

-- the numbers of a log are above its start
pub IsNumbered-above :
    (k a : ℕ) (rs : List EventRow) → IsNumbered k rs → a ≤ k → All (λ r. a < r.sequence) rs
IsNumbered-above k a [] h l = tt
IsNumbered-above k a (r ∷ rs) h l =
    (omega (arith, h.0, l), IsNumbered-above (suc k) a rs h.1 (omega (arith, l)))

IsNumbered-IsAscending :
    (k : ℕ) (rs : List EventRow) → IsNumbered k rs → IsAscending (λ r. r.sequence) rs
IsNumbered-IsAscending k [] h = tt
IsNumbered-IsAscending k (r ∷ rs) h = (
  IsNumbered-above (suc k) r.sequence rs h.1 (omega (arith, h.0)),
  IsNumbered-IsAscending (suc k) rs h.1,
)

-- the events past a number are what is left after so many
select-skip :
    (k j : ℕ) (rs : List EventRow)
    → IsNumbered k rs
    → select (λ r. ltb (k + j) r.sequence) rs ≡ skip j rs
select-skip k zero rs h =
    select-all (λ r. ltb (k + zero) r.sequence) rs
      (All-map (λ r l. lt→ltb (k + zero) r.sequence (omega (arith, l))) rs
        (IsNumbered-above k k rs h (omega arith)))
select-skip k (suc j) [] h = refl
select-skip k (suc j) (r ∷ rs) h =
    let below : ltb (k + suc j) r.sequence ≡ false = ground (arith, h.0) in
    let moved : k + suc j ≡ suc k + j = omega arith in
    rw below (ap (λ n. select (λ r. ltb n r.sequence) rs) moved ∙ select-skip (suc k) j rs h.1)

skip-IsNumbered : (k j : ℕ) (rs : List EventRow) → IsNumbered k rs → IsNumbered (k + j) (skip j rs)
skip-IsNumbered k zero rs h = subst (λ n. IsNumbered n rs) (omega arith) h
skip-IsNumbered k (suc j) [] h = tt
skip-IsNumbered k (suc j) (r ∷ rs) h =
    subst (λ n. IsNumbered n (skip j rs)) (omega arith) (skip-IsNumbered (suc k) j rs h.1)

module _ {A : Type 0} where
  first_rows-All : (P : A → Type 0) (n : ℕ) (xs : List A) → All P xs → All P (first_rows n xs)
  unfolding first_rows
  first_rows-All P zero xs h = tt
  first_rows-All P (suc n) [] h = tt
  first_rows-All P (suc n) (x ∷ xs) h = (h.0, first_rows-All P n xs h.1)

  skip-All : (P : A → Type 0) (n : ℕ) (xs : List A) → All P xs → All P (skip n xs)
  skip-All P zero xs h = h
  skip-All P (suc n) [] h = tt
  skip-All P (suc n) (x ∷ xs) h = skip-All P n xs h.1

module _ {A B : Type 0} (f : A → B) where
  map-first_rows : (n : ℕ) (xs : List A) → map f (first_rows n xs) ≡ first_rows n (map f xs)
  unfolding first_rows
  map-first_rows zero xs = refl
  map-first_rows (suc n) [] = refl
  map-first_rows (suc n) (x ∷ xs) = ap (◌∷◌ (f x)) (map-first_rows n xs)

  map-skip : (n : ℕ) (xs : List A) → map f (skip n xs) ≡ skip n (map f xs)
  map-skip zero xs = refl
  map-skip (suc n) [] = refl
  map-skip (suc n) (x ∷ xs) = map-skip n xs

rows_after-slice :
    (c : String) (after limit : ℕ) (db : Database)
    → IsLogged db
    → rows_after c after limit db ≡ first_rows limit (skip after (log_of c db.events))
unfolding rows_after
rows_after-slice c after limit db w =
    let log = log_of c db.events in
    let picked =
      select-and (λ r. str_eq r.conversation_id c) (λ r. ltb after r.sequence) db.events
      ∙ ap (λ n. select (λ r. ltb n r.sequence) log) (omega arith)
      ∙ select-skip 0 after log (w.numbered c) in
    let sorted =
      sort_by_of_IsAscending (λ r. r.sequence) (skip after log)
        (IsNumbered-IsAscending (0 + after) (skip after log)
          (skip-IsNumbered 0 after log (w.numbered c))) in
    ap (first_rows limit) (ap (sort_by (λ r. r.sequence)) picked ∙ sorted)

-- On a well-numbered store a replay query with a limit in its bounds returns exactly the first `limit`
-- of the conversation's events that come after the first `after` ones, in the order in which they
-- were committed, and never fails.
pub list_after_slice :
    (c : String) (after limit : ℕ) (db : Database)
    → IsLogged db
    → 1 ≤ limit
    → limit ≤ 5000
    → list_after c (pos after) (pos limit) db ≡ ok (first_rows limit (skip after (events_of c db)))
unfolding list_after
list_after_slice c after limit db w low high =
    let log = log_of c db.events in
    let slice = first_rows limit (skip after log) in
    let readable =
      first_rows-All IsReadable limit (skip after log)
        (skip-All IsReadable after log (All-select IsReadable _ db.events w.readable)) in
    let shown : map view slice ≡ first_rows limit (skip after (events_of c db)) =
      map-first_rows view limit (skip after log)
      ∙ ap (first_rows limit) (map-skip view after log) in
    rw (le→leb 1 limit low, le→leb limit 5000 high)
      (ap to_envelopes (rows_after-slice c after limit db w)
        ∙ to_envelopes-view slice readable
        ∙ ap ok shown)

-- a row that `append` adds reads as the envelope that it answers
pub view-row_of :
    (d : EventDraft) (v : EventVisibility) (now : Timestamp) (n : ℕ)
    → view (row_of d v now n) ≡ envelope_of (row_of d v now n) v
view-row_of d v now n = ap (envelope_of (row_of d v now n)) (found_again v)
