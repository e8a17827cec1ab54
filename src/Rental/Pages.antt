-- ===== src/Rental/Pages.antt =====
-- contracts/leaseflow_contracts/src/lib.rs: a caller that follows the cursors of
-- `get_historical_leases_paginated` reads the archive.
use lease_flow_protocol_cont.Base.{
  ℕ, zero, suc, ◌+◌, ◌-◌, ◌≤◌, ◌<◌, ◌≡◌, refl, sym, ap, ◌∙◌, arith, true, false, Option, none, some,
  List, [], ◌∷◌, ◌++◌, Map, leb, ltb, min, mem, length, Res, ok, err, panic, pure, u32_max, inl,
  inr, Bool-cases, run-gets, run-checked, run-then, run-else,
}
use mathlib.Core.List.{append-nil}
use lease_flow_protocol_cont.Rental.Types.{LeaseError, HistoricalLease, HistoricalLeasePage}
use lease_flow_protocol_cont.Rental.Store.{RentalStore}
use lease_flow_protocol_cont.Rental.History.{
  position_after, start_of, drop, take, get_elem?, records, get_historical_leases_paginated,
}

abbrev pub IsDistinct : List ℕ → Type 0
IsDistinct [] = Unit
IsDistinct (x ∷ xs) = (mem x xs ≡ false) × IsDistinct xs

abbrev pub before :
    List HistoricalLease → Option (List HistoricalLease) → Option (List HistoricalLease)
before leases none = none
before leases (some rest) = some (leases ++ rest)

-- A page's leases, and before those of the pages from its cursor on.
abbrev pub follow :
    (ℕ → Option (List HistoricalLease))
    → Res LeaseError HistoricalLeasePage
    → Option (List HistoricalLease)
follow next (err e) = none
follow next panic = none
follow next (ok page) = elim page.next_cursor [
  | none ↦ some page.leases
  | some c ↦ before page.leases (next c)
]

-- The leases of the pages from a cursor on, for a caller that gives up after as many pages as it has
-- fuel.
unfoldable pub read_all :
    {W : Type 0} → ℕ → Option ℕ → ℕ → RentalStore W → Option (List HistoricalLease)
read_all zero cursor limit s = none
read_all (suc fuel) cursor limit s =
    follow (λ c. read_all fuel (some c) limit s) (get_historical_leases_paginated cursor limit s).0

records-split :
    (m : Map HistoricalLease) (a : ℕ) (xs : List ℕ)
    → records m (take a xs) ++ records m (drop a xs) ≡ records m xs
records-split m zero xs = refl
records-split m (suc a) [] = refl
records-split m (suc a) (x ∷ xs) = ground (arith, records-split m a xs)

drop-none : {A : Type 0} (n : ℕ) → drop {A = A} n [] ≡ []
drop-none zero = refl
drop-none (suc n) = refl

drop-drop : {A : Type 0} (a b c : ℕ) (xs : List A) → c ≡ a + b → drop b (drop a xs) ≡ drop c xs
drop-drop zero b c xs e = ap (λ n. drop n xs) (omega arith)
drop-drop (suc a) b c [] e = drop-none b ∙ sym (drop-none c)
drop-drop (suc a) b zero (x ∷ xs) e = absurd (omega arith)
drop-drop (suc a) b (suc c) (x ∷ xs) e = drop-drop a b c xs (omega arith)

drop-all : {A : Type 0} (a : ℕ) (xs : List A) → length xs ≤ a → drop a xs ≡ []
drop-all zero [] h = refl
drop-all zero (x ∷ xs) h = absurd (omega arith)
drop-all (suc a) [] h = refl
drop-all (suc a) (x ∷ xs) h = drop-all a xs (omega arith)

get_elem-some : (xs : List ℕ) (k : ℕ) → k < length xs → (v : ℕ) × (get_elem? xs k ≡ some v)
get_elem-some [] k h = absurd (omega arith)
get_elem-some (x ∷ xs) zero h = (x, refl)
get_elem-some (x ∷ xs) (suc k) h = get_elem-some xs k (omega arith)

mem-get_elem : (xs : List ℕ) (k v : ℕ) → get_elem? xs k ≡ some v → mem v xs ≡ true
mem-get_elem [] k v e = cc
mem-get_elem (x ∷ xs) zero v e = ground arith
mem-get_elem (x ∷ xs) (suc k) v e = ground (arith, mem-get_elem xs k v)

-- In a list without repetition the position after the entry at `k` is `k + 1`.
position_after-get_elem :
    (xs : List ℕ) (k v : ℕ) → IsDistinct xs → get_elem? xs k ≡ some v → position_after v xs ≡ suc k
position_after-get_elem [] k v d e = cc
position_after-get_elem (x ∷ xs) zero v d e = ground arith
position_after-get_elem (x ∷ xs) (suc k) v d e =
    ground (arith, position_after-get_elem xs k v d.1, mem-get_elem xs k v)

length-drop : {A : Type 0} (n : ℕ) (xs : List A) → length (drop n xs) ≡ length xs - n
length-drop zero xs = omega arith
length-drop (suc n) [] = omega arith
length-drop (suc n) (x ∷ xs) = omega (arith, length-drop n xs)

module _ {W : Type 0} (s : RentalStore W) (limit : ℕ) (least : 0 < limit) where
  index : List ℕ
  index = s.historical_leases_index

  page : ℕ → List HistoricalLease
  page start =
      records s.historical_leases
        (take (min (start + limit) (length index) - start) (drop start index))

  -- Past the end a page is empty.
  empty-page :
      (cursor : Option ℕ)
      → leb (length index) (start_of cursor index) ≡ true
      → get_historical_leases_paginated cursor limit s
        ≡ (ok (record { leases = []; next_cursor = none }), s)
  unfolding get_historical_leases_paginated pure index
  empty-page cursor past = run-gets _ _ s ∙ (run-gets _ _ s ∙ run-then _ _ _ s past)

  last-page :
      (cursor : Option ℕ)
      → leb (length index) (start_of cursor index) ≡ false
      → start_of cursor index + limit ≤ u32_max
      → ltb (min (start_of cursor index + limit) (length index)) (length index) ≡ false
      → get_historical_leases_paginated cursor limit s
        ≡ (ok (record { leases = page (start_of cursor index); next_cursor = none }), s)
  unfolding get_historical_leases_paginated pure index page
  last-page cursor within small last =
      run-gets _ _ s
      ∙ (run-gets _ _ s
          ∙ (run-else _ _ _ s within
              ∙ (run-checked _ _ _ s (ground arith) ∙ run-else _ _ _ s last)))

  middle-page :
      (cursor : Option ℕ)
      → leb (length index) (start_of cursor index) ≡ false
      → start_of cursor index + limit ≤ u32_max
      → ltb (min (start_of cursor index + limit) (length index)) (length index) ≡ true
      → get_historical_leases_paginated cursor limit s ≡ (
        ok (record {
          leases = page (start_of cursor index);
          next_cursor = get_elem? index (min (start_of cursor index + limit) (length index) - 1);
        }),
        s,
      )
  unfolding get_historical_leases_paginated pure index page
  middle-page cursor within small more =
      run-gets _ _ s
      ∙ (run-gets _ _ s
          ∙ (run-else _ _ _ s within
              ∙ (run-checked _ _ _ s (ground arith)
                  ∙ (run-then _ _ _ s more ∙ run-checked _ _ _ s (ground arith)))))

  -- The archive from a position on.
  from : ℕ → List HistoricalLease
  from start = records s.historical_leases (drop start index)

  step : ℕ → ℕ
  step start = min (start + limit) (length index)

  page-from : (start : ℕ) → start ≤ length index → page start ++ from (step start) ≡ from start
  unfolding page from step
  page-from start h =
      let here : drop (step start - start) (drop start index) ≡ drop (step start) index =
        drop-drop start (step start - start) (step start) index (omega arith) in
      ap (λ ids. page start ++ records s.historical_leases ids) (sym here)
      ∙ records-split s.historical_leases (step start - start) (drop start index)

  from-end : (start : ℕ) → length index ≤ start → from start ≡ []
  unfolding from
  from-end start h = ap (records s.historical_leases) (drop-all start index h)

  page-last :
      (start : ℕ)
      → start ≤ length index
      → ltb (step start) (length index) ≡ false
      → page start ≡ from start
  unfolding step
  page-last start h e =
      sym (append-nil (page start))
      ∙ (ap (λ leases. page start ++ leases) (sym (from-end (step start) (ground arith)))
          ∙ page-from start h)

  -- The cursor of a page is the position after the page.
  cursor-step :
      (start c : ℕ)
      → IsDistinct index
      → start < length index
      → get_elem? index (step start - 1) ≡ some c
      → start_of (some c) index ≡ step start
  unfolding step
  cursor-step start c distinct within e =
      position_after-get_elem index (step start - 1) c distinct e ∙ omega arith

  module _ (distinct : IsDistinct index) (small : length index + limit ≤ u32_max) where
    -- A page and what follows it.
    follow-page :
        (next : ℕ → Option (List HistoricalLease)) (cursor : Option ℕ)
        → ((c : ℕ)
            → start_of (some c) index ≡ step (start_of cursor index)
            → start_of cursor index < length index
            → step (start_of cursor index) < length index
            → next c ≡ some (from (step (start_of cursor index))))
        → follow next (get_historical_leases_paginated cursor limit s).0
          ≡ some (from (start_of cursor index))
    unfolding step
    follow-page next cursor rest =
        let start = start_of cursor index in
        elim (Bool-cases (leb (length index) start)) [
          | inl past ↦
              ap (λ r. follow next r.0) (empty-page cursor past)
              ∙ ap some (sym (from-end start (ground arith)))
          | inr within ↦
              elim (Bool-cases (ltb (min (start + limit) (length index)) (length index))) [
                | inr last ↦
                    ap (λ r. follow next r.0) (last-page cursor within (ground arith) last)
                    ∙ ap some (page-last start (ground arith) last)
                | inl more ↦
                    let (c, found) =
                      get_elem-some index (min (start + limit) (length index) - 1) (ground arith) in
                    let after = cursor-step start c distinct (ground arith) found in
                    ap (λ r. follow next r.0) (middle-page cursor within (ground arith) more)
                    ∙ ap
                        (λ (o : Option ℕ).
                          let pages : Option (List HistoricalLease) = elim o [
                            | none ↦ some (page start)
                            | some c ↦ before (page start) (next c)
                          ] in
                          pages)
                        found
                    ∙ (ap (before (page start)) (rest c after (ground arith) (ground arith))
                        ∙ ap some (page-from start (ground arith)))
              ]
        ]

    read_all-from :
        (fuel : ℕ) (cursor : Option ℕ)
        → length index ≤ start_of cursor index + fuel
        → read_all (suc fuel) cursor limit s ≡ some (from (start_of cursor index))
    unfolding read_all step
    read_all-from zero cursor enough =
        follow-page (λ c. none) cursor (λ c after within more. absurd (omega arith))
    read_all-from (suc fuel) cursor enough = follow-page _ cursor λ c after within more.
        read_all-from fuel (some c) (omega (arith, after, least)) ∙ ap (λ n. some (from n)) after

-- If no lease is twice in the index and the numbers of entries and of the limit fit u32 together:
-- with a limit above 0, a caller that starts without a cursor and follows the cursor of each page
-- comes to the end within one page more than the index has entries, and the pages together are the
-- records of the index in its order, each once.
pub read_all-records :
    {W : Type 0} (s : RentalStore W) (limit : ℕ)
    → 0 < limit
    → IsDistinct s.historical_leases_index
    → length s.historical_leases_index + limit ≤ u32_max
    → read_all (suc (length s.historical_leases_index)) none limit s
      ≡ some (records s.historical_leases s.historical_leases_index)
unfolding index from
read_all-records s limit least distinct small =
    read_all-from s limit least distinct small (length s.historical_leases_index) none (omega arith)
