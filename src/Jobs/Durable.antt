-- ===== src/Jobs/Durable.antt =====
-- hostagent/journal.py: the cache and the table agree, so that a restart reads the records back.
use mlops_lite.Base.{
  ℕ, none, some, Dict, arith, [], ◌∷◌, refl, Option, ◌≡◌, lookup, lookup-insert, is_answered,
  commits, Reply, true, returns, raises_after, raises_before, Distinct, insert-Distinct, ◌≢◌,
  some_injective, if◌then◌else◌, inr, inl, Bool-cases, fun_ext, subst, Option-cases, contains,
  modify_all-Distinct, modify, false, List, ◌∙◌, lookup-modify, insert_cases, sym, modify_all,
  contains-keys_where, keys_where, lookup-modify_all, Bool, meets,
}
use mlops_lite.Jobs.Journal.{
  hydrate, updated, interrupt, Journal, write, mark_interrupted, modify_each,
}
use mlops_lite.Jobs.Rows.{
  IsWhole, JobRecord, job_row_to_record, Row, job_split, is_active, job_row_to_record-job_split,
  is_reserved, interrupt_row, Value, val, null, mark_jobs_interrupted,
}

abbrev pub recorded : (id : ℕ) → Option Row → Option JobRecord
recorded id none = none
recorded id (some row) = some (job_row_to_record id row)

pub lookup-hydrate :
    (id : ℕ) (rows : Dict Row) → lookup id (hydrate rows) ≡ recorded id (lookup id rows)
unfolding hydrate lookup
lookup-hydrate id [] = refl
lookup-hydrate id ((k, row) ∷ rows) = ground (arith, lookup-hydrate id rows)

abbrev pub IsClean : Row → Type 0
IsClean row = (field : ℕ) → is_reserved field ≡ true → row.result_column field ≡ null

-- The cache is what the table gives back; its records are whole, and the jsonb has no column's field.
pub record IsDurable (j : Journal) : Type 0 where
  pub distinct : Distinct j.rows
  pub same : (id : ℕ) → lookup id j.jobs ≡ recorded id (lookup id j.rows)
  pub whole : (id : ℕ) (r : JobRecord) → lookup id j.jobs ≡ some r → IsWhole id r
  pub clean : (id : ℕ) (row : Row) → lookup id j.rows ≡ some row → IsClean row

split_twice : (id : ℕ) (r : JobRecord) → IsWhole id r → job_row_to_record id (job_split r) ≡ r
split_twice id r w = fun_ext (job_row_to_record-job_split id r w)

split-IsClean : (r : JobRecord) → IsClean (job_split r)
unfolding job_split
split-IsClean r field h = ground arith

pub write-IsDurable :
    (id : ℕ) (r : JobRecord) (reply : Reply) (j : Journal)
    → commits reply ≡ is_answered reply
    → IsWhole id r
    → IsDurable j
    → IsDurable (write id r reply j).1
unfolding write
write-IsDurable id r raises_before j a w d = d
write-IsDurable id r raises_after j a w d = ground arith
write-IsDurable id r returns j a w d = record {
  distinct = insert-Distinct id (job_split r) j.rows d.distinct;
  same = λ k.
      rw (lookup-insert id k r j.jobs, lookup-insert id k (job_split r) j.rows)
        (ground (arith, d.same k, split_twice id r w));
  whole = λ k q. insert_cases IsWhole id k r q j.jobs w (d.whole k q);
  clean = λ k row.
      insert_cases (λ _ x. IsClean x) id k (job_split r) row j.rows (split-IsClean r)
        (d.clean k row);
}

pub updated-IsWhole :
    (id to : ℕ) (extra : Dict Value) (r : JobRecord)
    → to ≢ 0
    → IsWhole id r
    → IsWhole id (updated to extra r)
unfolding updated
updated-IsWhole id to extra r t w = ground arith

interrupt-IsWhole :
    (id why now : ℕ) (r : JobRecord) → IsWhole id r → IsWhole id (interrupt why now r)
interrupt-IsWhole id why now r w = ground arith

interrupt_row-record :
    (id why now : ℕ) (row : Row)
    → IsClean row
    → is_active (val row.state_column) ≡ true
    → job_row_to_record id (interrupt_row why now row)
      ≡ interrupt why now (job_row_to_record id row)
unfolding job_row_to_record interrupt_row
interrupt_row-record id why now row c a = fun_ext (λ field. ground (arith, c field))

interrupt_row-same :
    (why now : ℕ) (row : Row)
    → is_active (val row.state_column) ≡ false
    → interrupt_row why now row ≡ row
unfolding interrupt_row
interrupt_row-same why now row a = ground arith

interrupt_row-IsClean :
    (why now : ℕ) (row : Row) → IsClean row → IsClean (interrupt_row why now row)
unfolding interrupt_row
interrupt_row-IsClean why now row c field h = ground (arith, c field h)

interrupt_twice :
    (why now : ℕ) (r : JobRecord) → interrupt why now (interrupt why now r) ≡ interrupt why now r
interrupt_twice why now r = fun_ext (λ field. ground arith)

abbrev pub mapped : (JobRecord → JobRecord) → Option JobRecord → Option JobRecord
mapped g none = none
mapped g (some r) = some (g r)

lookup-modify_each :
    (ids : List ℕ) (g : JobRecord → JobRecord) (id : ℕ) (jobs : Dict JobRecord)
    → ((r : JobRecord) → g (g r) ≡ g r)
    → lookup id (modify_each ids g jobs)
      ≡ (if contains id ids then mapped g (lookup id jobs) else lookup id jobs)
unfolding modify_each
lookup-modify_each [] g id jobs h = refl
lookup-modify_each (x ∷ ids) g id jobs h =
    lookup-modify_each ids g id (modify x g jobs) h ∙ (elim (Option-cases (lookup id jobs)) [
      | inl e ↦ ground (arith, e, lookup-modify x id g jobs)
      | inr (r, e) ↦ ground (arith, e, lookup-modify x id g jobs, h r)
    ])

abbrev pub is_active_row : Row → Bool
is_active_row row = is_active (val row.state_column)

-- What the cache has under an id afterwards.
pub marked-lookup :
    (why now k : ℕ) (j : Journal)
    → Distinct j.rows
    → lookup k (modify_each (keys_where is_active_row j.rows) (interrupt why now) j.jobs) ≡ (
        if meets is_active_row (lookup k j.rows)
        then mapped (interrupt why now) (lookup k j.jobs)
        else lookup k j.jobs)
marked-lookup why now k j d =
    lookup-modify_each (keys_where is_active_row j.rows) (interrupt why now) k j.jobs
      (interrupt_twice why now)
    ∙ ground (arith, contains-keys_where is_active_row k j.rows d)

marked-same :
    (why now k : ℕ) (j : Journal)
    → IsDurable j
    → lookup k (modify_each (keys_where is_active_row j.rows) (interrupt why now) j.jobs)
      ≡ recorded k (lookup k (modify_all (interrupt_row why now) j.rows))
marked-same why now k j d =
    marked-lookup why now k j d.distinct ∙ (elim (Option-cases (lookup k j.rows)) [
      | inl e ↦ ground (arith, e, d.same k, lookup-modify_all k (interrupt_row why now) j.rows)
      | inr (row, e) ↦ elim (Bool-cases (is_active_row row)) [
        | inl a ↦ ground (
          arith,
          e,
          a,
          d.same k,
          lookup-modify_all k (interrupt_row why now) j.rows,
          interrupt_row-record k why now row (d.clean k row e) a,
        )
        | inr a ↦ ground (
          arith,
          e,
          a,
          d.same k,
          lookup-modify_all k (interrupt_row why now) j.rows,
          interrupt_row-same why now row a,
        )
      ]
    ])

mapped-IsWhole :
    (k why now : ℕ) (active : Bool) (o : Option JobRecord) (q : JobRecord)
    → ((r : JobRecord) → o ≡ some r → IsWhole k r)
    → (if active then mapped (interrupt why now) o else o) ≡ some q
    → IsWhole k q
mapped-IsWhole k why now true none q w e = cc
mapped-IsWhole k why now true (some r) q w e =
    subst (λ x. IsWhole k x) (some_injective e) (interrupt-IsWhole k why now r (w r refl))
mapped-IsWhole k why now false o q w e = w q e

mapped-IsClean :
    (why now : ℕ) (o : Option Row) (q : Row)
    → ((row : Row) → o ≡ some row → IsClean row)
    → elim o [ none ↦ none | some v ↦ some (interrupt_row why now v) ] ≡ some q
    → IsClean q
mapped-IsClean why now none q c e = cc
mapped-IsClean why now (some row) q c e =
    subst (λ x. IsClean x) (some_injective e) (interrupt_row-IsClean why now row (c row refl))

pub mark_interrupted-IsDurable :
    (why now : ℕ) (reply : Reply) (j : Journal)
    → commits reply ≡ is_answered reply
    → IsDurable j
    → IsDurable (mark_interrupted why now reply j).1
unfolding mark_interrupted mark_jobs_interrupted
mark_interrupted-IsDurable why now raises_before j a d = d
mark_interrupted-IsDurable why now raises_after j a d = ground arith
mark_interrupted-IsDurable why now returns j a d = record {
  distinct = modify_all-Distinct (interrupt_row why now) j.rows d.distinct;
  same = λ k. marked-same why now k j d;
  whole = λ k q e.
      mapped-IsWhole k why now (meets is_active_row (lookup k j.rows)) (lookup k j.jobs) q
        (d.whole k) (sym (marked-lookup why now k j d.distinct) ∙ e);
  clean = λ k row e.
      mapped-IsClean why now (lookup k j.rows) row (d.clean k)
        (sym (lookup-modify_all k (interrupt_row why now) j.rows) ∙ e);
}
