-- ===== src/Jobs/Pages.antt =====
-- hostagent/journalread.py: the pages of one read after another.
use mathlib.Core.List.{append-nil}
use native.Mathlib.Decide.{dec_lt}
use mlops_lite.Base.{
  ℕ, List, true, ◌≤◌, suc, ◌++◌, zero, take, refl, some, select, Bool, ◌≡◌, every, ltb, ◌<◌, ◌∷◌,
  Option, arith, drop, none, [], sym, Option-cases, inl, ◌∙◌, length, inr, if◌then◌else◌, ◌≢◌, ap,
  length-drop, take-append_drop, take_all,
}
use mlops_lite.Jobs.Paging.{last_sequence, comes_after, Entry, page_of}

-- A client that follows the cursors, for as many pages as `fuel`.
unfoldable pub follow : (fuel limit : ℕ) → Option ℕ → List Entry → List Entry
follow zero limit cursor es = []
follow (suc fuel) limit cursor es =
    let page = page_of limit cursor es in
    let later : List Entry = elim page.next_cursor [
      | none ↦ []
      | some c ↦ follow fuel limit (some c) es
    ] in
    page.shown ++ later

-- Entries with falling sequence numbers.
abbrev pub below : ℕ → Entry → Bool
below s e = ltb e.sequence s

abbrev pub Falling : List Entry → Type 0
Falling [] = Unit
Falling (e ∷ es) = (every (below e.sequence) es ≡ true) × Falling es

pub select_all : (es : List Entry) → select (comes_after none) es ≡ es
select_all [] = refl
select_all (e ∷ es) = cc (select_all es)

pub every-below :
    (s t : ℕ) (es : List Entry) → s ≤ t → every (below s) es ≡ true → every (below t) es ≡ true
every-below s t [] h b = refl
every-below s t (e ∷ es) h b = ground (arith, every-below s t es h)

select-below :
    (c : ℕ) (es : List Entry) → every (below c) es ≡ true → select (comes_after (some c)) es ≡ es
select-below c [] b = refl
select-below c (e ∷ es) b = ground (arith, select-below c es)

-- The last of a page is one of its entries, so below what bounds them.
pub last-below :
    (s c : ℕ) (es : List Entry) → every (below s) es ≡ true → last_sequence es ≡ some c → c < s
last-below s c [] b h = cc
last-below s c (e ∷ []) b h = ground arith
last-below s c (e ∷ d ∷ es) b h = last-below s c (d ∷ es) (ground arith) h

pub every-take :
    (test : Entry → Bool) (n : ℕ) (es : List Entry)
    → every test es ≡ true
    → every test (take n es) ≡ true
every-take test zero es h = refl
every-take test (suc n) [] h = refl
every-take test (suc n) (e ∷ es) h = ground (arith, every-take test n es)

-- What the cursor of a page leaves is what the page did not show.
select-drop :
    (n c : ℕ) (es : List Entry)
    → Falling es
    → last_sequence (take n es) ≡ some c
    → select (comes_after (some c)) es ≡ drop n es
select-drop zero c es f h = cc
select-drop (suc n) c [] f h = cc
select-drop (suc zero) c (e ∷ es) (b, f) h = ground (arith, select-below c es)
select-drop (suc (suc n)) c (e ∷ []) (b, f) h = ground arith
select-drop (suc (suc n)) c (e ∷ d ∷ es) (b, f) h = ground (
  arith,
  last-below e.sequence c (take (suc n) (d ∷ es)) (every-take (below e.sequence) (suc n) (d ∷ es) b)
      h,
  select-drop (suc n) c (d ∷ es) f h,
)

-- A page after a cursor is a page of what comes after it.
select-select :
    (c d : ℕ) (es : List Entry)
    → c ≤ d
    → select (comes_after (some c)) (select (comes_after (some d)) es)
      ≡ select (comes_after (some c)) es
select-select c d [] h = refl
select-select c d (e ∷ es) h = ground (arith, select-select c d es h)

pub every-selected :
    (c : ℕ) (es : List Entry) → every (below c) (select (comes_after (some c)) es) ≡ true
every-selected c [] = refl
every-selected c (e ∷ es) = ground (arith, every-selected c es)

-- The cursor of a page, and the page from its list.
pub next_of : (limit : ℕ) → List Entry → Option ℕ
next_of limit rest = if ltb limit (length rest) then last_sequence (take limit rest) else none

pub follow_from :
    (fuel limit : ℕ) (cursor : Option ℕ) (es rest : List Entry)
    → select (comes_after cursor) es ≡ rest
    → follow (suc fuel) limit cursor es
      ≡ take limit rest ++ (elim (next_of limit rest) as (λ _. List Entry) [
        | none ↦ []
        | some c ↦ follow fuel limit (some c) es
      ])
unfolding follow page_of next_of
follow_from fuel limit cursor es rest h = rw h

pub next_of-last :
    (limit d : ℕ) (rest : List Entry)
    → next_of limit rest ≡ some d
    → last_sequence (take limit rest) ≡ some d
unfolding next_of
next_of-last limit d rest h = ground arith

pub follow-after :
    (fuel limit c : ℕ) (es : List Entry)
    → follow fuel limit (some c) es ≡ follow fuel limit none (select (comes_after (some c)) es)
follow-after zero limit c es = unfold follow in refl
follow-after (suc fuel) limit c es =
    let rest = select (comes_after (some c)) es in
    follow_from fuel limit (some c) es rest refl
    ∙ (elim (Option-cases (next_of limit rest)) [
      | inl e ↦ rw e refl
      | inr (d, e) ↦
          let lower : d < c =
            last-below c d (take limit rest) (every-take (below c) limit rest (every-selected c es))
              (next_of-last limit d rest e) in
          rw e (
            ap (λ (t : List Entry). take limit rest ++ t)
              (follow-after fuel limit d es
                ∙ ap (follow fuel limit none) (sym (select-select d c es (omega arith)))
                ∙ sym (follow-after fuel limit d rest)))
    ])
    ∙ sym (follow_from fuel limit none rest rest (select_all rest))

Falling-drop : (n : ℕ) (es : List Entry) → Falling es → Falling (drop n es)
Falling-drop zero es f = f
Falling-drop (suc n) [] f = f
Falling-drop (suc n) (e ∷ es) (b, f) = Falling-drop n es f

last-some : (e : Entry) (es : List Entry) → last_sequence (e ∷ es) ≢ none
last-some e [] h = cc
last-some e (d ∷ es) h = last-some d es h

next_of_short : (limit : ℕ) (rest : List Entry) → length rest ≤ limit → next_of limit rest ≡ none
unfolding next_of
next_of_short limit rest h = ground arith

next_of_long : (n : ℕ) (rest : List Entry) → suc n < length rest → next_of (suc n) rest ≢ none
unfolding next_of
next_of_long n [] h e = absurd (omega arith)
next_of_long n (x ∷ rest) h e = ground (arith, last-some x (take n rest))

-- Enough pages show every entry, once and in order.
pub follow-all :
    (fuel n : ℕ) (es : List Entry)
    → Falling es
    → length es < fuel
    → follow fuel (suc n) none es ≡ es
follow-all zero n es f h = absurd (omega arith)
follow-all (suc fuel) n es f h =
    follow_from fuel (suc n) none es es (select_all es) ∙ (elim (dec_lt (suc n) (length es)) [
      | no short ↦
          rw (next_of_short (suc n) es (omega arith), take_all (suc n) es (omega arith))
            (append-nil es)
      | yes long ↦ elim (Option-cases (next_of (suc n) es)) [
        | inl e ↦ absurd (next_of_long n es long e)
        | inr (c, e) ↦
            rw
              (
                e,
                follow-after fuel (suc n) c es,
                select-drop (suc n) c es f (next_of-last (suc n) c es e),
                follow-all fuel n (drop (suc n) es) (Falling-drop (suc n) es f)
                    (omega (arith, length-drop (suc n) es)),
              )
              (take-append_drop (suc n) es)
      ]
    ])
