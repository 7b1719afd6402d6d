-- ===== src/Calendar/Compile/Merged.antt =====
-- What `_validate_intervals` of sto/core/calendar/compile.py accepts, and what it makes of it.
use sto_scheduler_tracker_re.Prelude.{
  ℕ, ◌≤◌, ◌<◌, max, ◌≡◌, sym, ◌∙◌, ap, subst, List, [], ◌∷◌, arith, All, Bool-cases, inl, inr, ltb,
  ◌==◌, ℤ, pos, negsuc, ltb→le,
}
use sto_scheduler_tracker_re.Calendar.Intervals.{Interval, Intervals, IsOrdered}
use sto_scheduler_tracker_re.Calendar.Reference.{contains_coordinate}
use sto_scheduler_tracker_re.Calendar.Compiled.{
  insert_sorted, sorted, merge_into, merge_sorted, normalise, tuple_le,
}
use sto_scheduler_tracker_re.Calendar.Normalise.{normalise-IsOrdered, contains-normalise}
use sto_scheduler_tracker_re.Engine.Outcome.{ok, ◌>>=◌, >>=-eq-ok, ok-inj}
use sto_scheduler_tracker_re.Calendar.Compile.{
  seconds_per_day, TimeInterval, window, windows, merge_touching, merge_windows, validate_intervals,
}

-- A window that is not empty and lies within the day.
abbrev pub InDay : Interval → Type 0
InDay (s, f) = (s < f) × (f ≤ seconds_per_day)

window-InDay :
    (uid : ℕ) (start finish : ℤ) (w : Interval) → window uid start finish ≡ ok w → InDay w
unfolding window
window-InDay uid (pos s) (pos f) (s', f') e = ground arith
window-InDay uid (pos s) (negsuc f) w e = cc
window-InDay uid (negsuc s) finish w e = cc

windows-InDay :
    (uid : ℕ) (raw : List TimeInterval) (ws : Intervals) → windows uid raw ≡ ok ws → All InDay ws
unfolding windows
windows-InDay uid [] ws e = subst (All InDay) (ok-inj e) tt
windows-InDay uid (t ∷ rest) ws e =
    let (w, here, later) =
      >>=-eq-ok (window uid t.start_second t.finish_second)
        (λ w. windows uid rest >>= λ others. ok (w ∷ others)) e in
    let (others, there, same) = >>=-eq-ok (windows uid rest) (λ others. ok (w ∷ others)) later in
    subst (All InDay) (ok-inj same)
      (window-InDay uid t.start_second t.finish_second w here, windows-InDay uid rest others there)

insert-InDay :
    (w : Interval) (ws : Intervals) → InDay w → All InDay ws → All InDay (insert_sorted w ws)
unfolding insert_sorted
insert-InDay w [] h hs = (h, tt)
insert-InDay w (x ∷ xs) h (k, ks) = elim (Bool-cases (tuple_le w x)) [
  | inl before ↦ rw before (h, (k, ks))
  | inr after ↦ rw after (k, insert-InDay w xs h ks)
]

sorted-InDay : (ws : Intervals) → All InDay ws → All InDay (sorted ws)
unfolding sorted
sorted-InDay [] h = tt
sorted-InDay (w ∷ ws) (h, hs) = insert-InDay w (sorted ws) h (sorted-InDay ws hs)

-- Where no window begins before the last one ends, the two merges agree.
touching-merge_into :
    (uid ms mf : ℕ) (ws out : Intervals)
    → All InDay ws
    → merge_touching uid ms mf ws ≡ ok out
    → merge_into ms mf ws ≡ out
unfolding merge_touching merge_into
touching-merge_into uid ms mf [] out h e = ok-inj e
touching-merge_into uid ms mf ((s, f) ∷ ws) out ((lt, day), hs) e = elim (Bool-cases (ltb s mf)) [
  | inl overlap ↦ ground arith
  | inr behind ↦ elim (Bool-cases (s == mf)) [
    | inl meets ↦
        let joined : merge_touching uid ms f ws ≡ ok out = ground arith in
        let last : max mf f ≡ f = ground arith in
        let rest = touching-merge_into uid ms f ws out hs joined in
        let same = ap (λ k. merge_into ms k ws) last in ground (arith, rest, same)
    | inr gap ↦
        let apart : (merge_touching uid s f ws >>= λ more. ok ((ms, mf) ∷ more)) ≡ ok out =
          ground arith in
        let (more, merged, same) =
          >>=-eq-ok (merge_touching uid s f ws) (λ more. ok ((ms, mf) ∷ more)) apart in
        let rest = touching-merge_into uid s f ws more hs merged in
        let whole = ap (λ k. (ms, mf) ∷ k) rest ∙ ok-inj same in
        ground (arith, whole, ltb→le s mf behind)
  ]
]

windows-merge_sorted :
    (uid : ℕ) (ws out : Intervals)
    → All InDay ws
    → merge_windows uid ws ≡ ok out
    → merge_sorted ws ≡ out
unfolding merge_sorted
windows-merge_sorted uid [] out h e = ok-inj e
windows-merge_sorted uid ((s, f) ∷ ws) out ((lt, day), hs) e =
    let rest = touching-merge_into uid s f ws out hs e in ground (arith, rest)

-- The windows that were read, checked each on its own.
pub record IsDayOf (calendar_uid : ℕ) (raw : List TimeInterval) (out : Intervals) : Type 0 where
  pub read : Intervals
  pub checked : windows calendar_uid raw ≡ ok read
  pub within : All InDay read
  pub merged : normalise read ≡ out
  pub ordered : IsOrdered 0 out
  pub same : (c : ℕ) → contains_coordinate c out ≡ contains_coordinate c read

-- What `_validate_intervals` accepts are windows that are not empty and lie within the day, and its
-- answer is what `normalise` makes of them: ordered intervals that hold the same seconds.
pub validate_intervals-IsDayOf :
    (raw : List TimeInterval) (calendar_uid : ℕ) {out : Intervals}
    → validate_intervals raw calendar_uid ≡ ok out
    → IsDayOf calendar_uid raw out
unfolding validate_intervals normalise
validate_intervals-IsDayOf raw uid {out} e =
    let (read, checked, later) =
      >>=-eq-ok (windows uid raw) (λ ws. merge_windows uid (sorted ws)) e in
    let within = windows-InDay uid raw read checked in
    let merged : normalise read ≡ out =
      windows-merge_sorted uid (sorted read) out (sorted-InDay read within) later in
    record {
      read = read;
      checked = checked;
      within = within;
      merged = merged;
      ordered = subst (IsOrdered 0) merged (normalise-IsOrdered read);
      same = λ c. ap (contains_coordinate c) (sym merged) ∙ contains-normalise read c;
    }
