-- ===== src/Store/Events/Pages.antt =====
-- The pages of the event log. (`events_after` of src/state.rs)
use coterie.Prelude.{
  ℕ, zero, suc, ◌+◌, ◌-◌, ◌≤◌, ◌<◌, ◌≡◌, refl, sym, ap, ◌∙◌, subst, Bool, true, false, ◌&&◌, List,
  [], ◌∷◌, ltb, leb, ◌==◌, length, length-drop, take, drop, arith, Bool-cases, inl, inr,
}
use coterie.Sql.{select_all, order_by}
use coterie.Sql.Order.{ascending, order_by-ascending, select_all-and}
use coterie.Store.Event.{EventRecord}
use coterie.Store.Tx.{Env, Db}
use coterie.Store.Events.{maximum_event_page_length, page_of, events_after}
use coterie.Store.Events.Sequence.{log_of, consecutive, IsNumbered}

drop_nil : {A : Type 0} (n : ℕ) → drop {A = A} n [] ≡ []
drop_nil zero = refl
drop_nil (suc n) = refl

-- Of numbered events, those after a number are the log without its front.
select_all-consecutive :
    (after n : ℕ) (es : List EventRecord)
    → consecutive n es ≡ true
    → select_all (λ r. ltb after r.sequence) es ≡ drop (after - n) es
unfolding select_all consecutive
select_all-consecutive after n [] h = sym (drop_nil (after - n))
select_all-consecutive after n (e ∷ es) h =
    let s : e.sequence ≡ suc n = ground arith in
    let rest = select_all-consecutive after (suc n) es (ground arith) in
    elim (Bool-cases (leb after n)) [
      | inl early ↦
          let here : ltb after e.sequence ≡ true = ground (arith, s, early) in
          let p : after - suc n ≡ 0 = ground (arith, early) in
          let q : after - n ≡ 0 = ground (arith, early) in rw (here, rest, p, q) refl
      | inr late ↦
          let here : ltb after e.sequence ≡ false = ground (arith, s, late) in
          let q : after - n ≡ suc (after - suc n) = ground (arith, late) in rw (here, rest, q) refl
    ]

consecutive-drop :
    (k n : ℕ) (es : List EventRecord)
    → consecutive n es ≡ true
    → consecutive (n + k) (drop k es) ≡ true
unfolding consecutive
consecutive-drop zero n es h = subst (λ m. consecutive m es ≡ true) (omega arith) h
consecutive-drop (suc k) n [] h = refl
consecutive-drop (suc k) n (e ∷ es) h =
    subst (λ m. consecutive m (drop k es) ≡ true) (omega arith)
      (consecutive-drop k (suc n) es (ground arith))

consecutive-ascending :
    (n low : ℕ) (es : List EventRecord)
    → low ≤ suc n
    → consecutive n es ≡ true
    → ascending (λ r. r.sequence) low es ≡ true
unfolding consecutive ascending
consecutive-ascending n low [] l h = refl
consecutive-ascending n low (e ∷ es) l h =
    let s : e.sequence ≡ suc n = ground arith in
    ground (arith, s, consecutive-ascending (suc n) e.sequence es (omega (arith, s)) (ground arith))

-- A page is a front of the rows, and not empty if there are rows.
page_of_front :
    (env : Env) (size : ℕ) (started : Bool) (es : List EventRecord)
    → (m : ℕ) × (m ≤ length es)
      × (page_of env size started es ≡ take m es)
      × (started ≡ false → 0 < length es → 0 < m)
unfolding page_of
page_of_front env size started [] = (0, omega arith, refl, λ s l. l)
page_of_front env size started (e ∷ es) =
    let (m, l, p, q) = page_of_front env (size + env.event_size e) true es in
    elim (Bool-cases (started && ltb maximum_event_page_length (size + env.event_size e))) [
      | inl full ↦ (0, omega arith, rw full refl, λ s k. absurd (ground (arith, full, s)))
      | inr fits ↦ (suc m, omega (arith, l), rw (fits, p) refl, λ s k. omega arith)
    ]

take_bounds :
    (m n : ℕ) (es : List EventRecord)
    → m ≤ length (take n es)
    → (m ≤ n) × (take m (take n es) ≡ take m es)
take_bounds zero n es l = (omega arith, refl)
take_bounds (suc m) zero es l = absurd (omega arith)
take_bounds (suc m) (suc n) [] l = absurd (omega arith)
take_bounds (suc m) (suc n) (e ∷ es) l =
    let (p, q) = take_bounds m n es (omega arith) in (omega (arith, p), ap (λ t. e ∷ t) q)

take_started : (n : ℕ) (es : List EventRecord) → 0 < n → 0 < length es → 0 < length (take n es)
take_started zero es l k = absurd (omega arith)
take_started (suc n) [] l k = absurd (omega arith)
take_started (suc n) (e ∷ es) l k = omega arith

minus_zero : (n : ℕ) → n - 0 ≡ n
minus_zero n = omega arith

-- The rows that the query of `events_after` returns, before its limit.
selected :
    (run after : ℕ) (events : List EventRecord)
    → IsNumbered events
    → order_by (λ r. r.sequence) (select_all (λ r. r.run_id == run && ltb after r.sequence) events)
      ≡ drop after (log_of run events)
unfolding IsNumbered
selected run after events v =
    ap (order_by (λ r. r.sequence)) (
      select_all-and (λ r. r.run_id == run) (λ r. ltb after r.sequence) events
      ∙ select_all-consecutive after 0 (log_of run events) (v run)
      ∙ ap (λ n. drop n (log_of run events)) (minus_zero after))
    ∙ order_by-ascending (λ r. r.sequence) 0 (drop after (log_of run events))
        (consecutive-ascending (0 + after) 0 (drop after (log_of run events)) (omega arith)
          (consecutive-drop after 0 (log_of run events) (v run)))

-- If the events of every run are numbered from 1 without gaps, a page after the number `after` is
-- the start of the run's log without its first `after` events: at most `limit` of them, and at
-- least one if there is one and the limit is not zero, however large the events are.
pub events_after_page :
    (env : Env) (run after limit : ℕ) (db : Db)
    → IsNumbered db.events
    → (m : ℕ) × (m ≤ limit)
      × (events_after env run after limit db ≡ take m (drop after (log_of run db.events)))
      × (0 < limit → after < length (log_of run db.events) → 0 < m)
unfolding events_after
events_after_page env run after limit db v =
    let rows = drop after (log_of run db.events) in
    let (m, l, p, q) = page_of_front env 0 false (take limit rows) in
    let (k, t) = take_bounds m limit rows l in
    (
      m,
      k,
      ap (λ d. page_of env 0 false (take limit d)) (selected run after db.events v) ∙ p ∙ t,
      λ some_limit more. q refl (
          take_started limit rows some_limit
            (omega (arith, length-drop after (log_of run db.events), more))),
    )
