-- ===== src/Jobs/Reading.antt =====
-- hostagent/journalread.py: a client that reads page after page by the cursors of read.
use mlops_lite.Base.{
  ℕ, every, ◌∙◌, Bool, refl, some, [], ◌==◌, ◌≡◌, List, zero, ◌<◌, not, length, select, true, none,
  ◌∷◌, ◌&&◌, map, suc, arith, every-select, ◌++◌, Option, Option-cases, inl, every-append, ◌-◌,
  take, inr,
}
use mlops_lite.Jobs.Journal.{Journal}
use mlops_lite.Jobs.Pages.{
  Falling, follow, below, every-below, next_of, select_all, follow-after, every-take,
  every-selected, follow_from, follow-all,
}
use mlops_lite.Jobs.Paging.{
  read, sort_by, as_entries, list_jobs, passes, clamped, as_entry, Entry, insert_by, Filters,
  comes_after,
}

-- The entries that the filters leave, newest first.
abbrev pub filtered : Filters → Journal → List Entry
filtered f j = select (passes f) (as_entries (list_jobs none j))

unfoldable pub read_pages : (fuel : ℕ) → (cursor limit : Option ℕ) → Filters → Journal → List Entry
read_pages zero cursor limit f j = []
read_pages (suc fuel) cursor limit f j =
    let page = read cursor limit f j in
    let later : List Entry = elim page.next_cursor [
      | none ↦ []
      | some c ↦ read_pages fuel (some c) limit f j
    ] in
    page.shown ++ later

read_pages-follow :
    (fuel : ℕ) (cursor limit : Option ℕ) (f : Filters) (j : Journal)
    → read_pages fuel cursor limit f j ≡ follow fuel (clamped limit) cursor (filtered f j)
unfolding read_pages follow read
read_pages-follow zero cursor limit f j = refl
read_pages-follow (suc fuel) cursor limit f j = λ i.
    (read cursor limit f j).shown
    ++ (elim (read cursor limit f j).next_cursor as (λ _. List Entry) [
      | none ↦ []
      | some c ↦ read_pages-follow fuel (some c) limit f j i
    ])

-- No two entries have one sequence number.
abbrev differs : Entry → Entry → Bool
differs e d = not (d.sequence == e.sequence)

abbrev pub Apart : List Entry → Type 0
Apart [] = Unit
Apart (e ∷ es) = (every (differs e) es ≡ true) × Apart es

every-insert_by :
    (test : Entry → Bool) (e : Entry) (es : List Entry)
    → every test (insert_by (λ (d : Entry). d.sequence) e es) ≡ (test e && every test es)
unfolding insert_by
every-insert_by test e [] = ground arith
every-insert_by test e (d ∷ es) = ground (arith, every-insert_by test e es)

every-sort_by :
    (test : Entry → Bool) (es : List Entry)
    → every test (sort_by (λ (d : Entry). d.sequence) es) ≡ every test es
unfolding sort_by
every-sort_by test [] = refl
every-sort_by test (e ∷ es) =
    every-insert_by test e (sort_by (λ (d : Entry). d.sequence) es)
    ∙ ground (arith, every-sort_by test es)

insert_by-Falling :
    (e : Entry) (es : List Entry)
    → every (differs e) es ≡ true
    → Falling es
    → Falling (insert_by (λ (d : Entry). d.sequence) e es)
unfolding insert_by
insert_by-Falling e [] a f = (refl, f)
insert_by-Falling e (d ∷ es) a (b, f) = ground (
  arith,
  every-insert_by (below d.sequence) e es,
  every-below d.sequence e.sequence es,
  insert_by-Falling e es,
)

sort_by-Falling : (es : List Entry) → Apart es → Falling (sort_by (λ (d : Entry). d.sequence) es)
unfolding sort_by
sort_by-Falling [] a = a
sort_by-Falling (e ∷ es) (d, a) =
    insert_by-Falling e (sort_by (λ (d : Entry). d.sequence) es) (every-sort_by (differs e) es ∙ d)
      (sort_by-Falling es a)

select-Falling : (keep : Entry → Bool) (es : List Entry) → Falling es → Falling (select keep es)
select-Falling keep [] f = f
select-Falling keep (e ∷ es) (b, f) =
    ground (arith, every-select (below e.sequence) keep es b, select-Falling keep es f)

clamped-suc : (limit : Option ℕ) → clamped limit ≡ suc (clamped limit - 1)
clamped-suc none = omega arith
clamped-suc (some n) = omega arith

follow-below :
    (fuel limit c : ℕ) (es : List Entry)
    → every (below c) es ≡ true
    → every (below c) (follow fuel limit none es) ≡ true
follow-below zero limit c es h = unfold follow in refl
follow-below (suc fuel) limit c es h =
    rw (follow_from fuel limit none es es (select_all es)) (elim (Option-cases (next_of limit es)) [
      | inl e ↦
          rw (e, every-append (below c) (take limit es) [])
            (ground (arith, every-take (below c) limit es h))
      | inr (d, e) ↦
          rw (e, follow-after fuel limit d es)
            (every-append (below c) (take limit es) _
              ∙ ground (
                arith,
                every-take (below c) limit es h,
                follow-below fuel limit c (select (comes_after (some d)) es)
                    (every-select (below c) (comes_after (some d)) es h),
              ))
    ])

-- Paging loses nothing of a journal that does not change between the pages: where no two entries have
-- one sequence number, a client that follows the cursors, whatever its limit and its filters, gets every
-- entry that passes the filters, once and newest first, after at most one page more than there are
-- entries.
pub read_pages-all :
    (fuel : ℕ) (limit : Option ℕ) (f : Filters) (j : Journal)
    → Apart (map as_entry (list_jobs none j))
    → length (filtered f j) < fuel
    → read_pages fuel none limit f j ≡ filtered f j
unfolding as_entries
read_pages-all fuel limit f j a h =
    read_pages-follow fuel none limit f j
    ∙ rw (clamped-suc limit) (
        follow-all fuel (clamped limit - 1) (filtered f j)
          (select-Falling (passes f) _ (sort_by-Falling (map as_entry (list_jobs none j)) a)) h)

-- Later pages have smaller sequence numbers only: an entry with that of the last entry of a page is on
-- no page after it.
pub read_pages-tied :
    (fuel c : ℕ) (limit : Option ℕ) (f : Filters) (j : Journal)
    → every (below c) (read_pages fuel (some c) limit f j) ≡ true
read_pages-tied fuel c limit f j =
    rw
      (
        read_pages-follow fuel (some c) limit f j,
        follow-after fuel (clamped limit) c (filtered f j),
      )
      (follow-below fuel (clamped limit) c _ (every-selected c (filtered f j)))
