-- ===== src/Db/Runs/Pages.antt =====
-- The pages of the results of a run.
use bitprotector.Db.Runs.Results.{
  offset_of, requested_page, at_least_one, clamp, list_integrity_run_results, shown_result,
}
use bitprotector.Base.{
  ◌<◌, drop, length, ◌≤◌, ap, arith, sym, ◌-◌, ◌∙◌, Bool, List, Result, [], err, ok, suc, take,
  zero, ℕ, ◌*◌, ◌++◌, ◌≡◌,
}
use bitprotector.Base.Paging.{length-take_le, take-append-take}
use bitprotector.Db.World.{World}
use bitprotector.Db.RunRows.{IntegrityRunResult}
use bitprotector.Base.Table.{select}
use native.Mathlib.Nat.{mul-le-mul_left, zero-mul, suc-mul}

abbrev pub rows_or_none : Result (List IntegrityRunResult × ℕ) → List IntegrityRunResult
rows_or_none (ok r) = r.0
rows_or_none (err e) = []

abbrev shown_page : ℕ → Bool → ℕ → ℕ → World → List IntegrityRunResult
shown_page run_id issues_only page per_page w =
    rows_or_none (list_integrity_run_results run_id issues_only page per_page w).0

-- The pages up to the one given, one behind the other.
abbrev pub pages_to : ℕ → Bool → ℕ → ℕ → World → List IntegrityRunResult
pages_to run_id issues_only per_page zero w = []
pages_to run_id issues_only per_page (suc k) w =
    pages_to run_id issues_only per_page k w ++ shown_page run_id issues_only (suc k) per_page w

at_least_suc : (k : ℕ) → (at_least_one (suc k) - 1) ≡ k
at_least_suc k = ground arith

offset_of_small : (n : ℕ) → n < 9_223_372_036_854_775_808 → offset_of n ≡ n
offset_of_small n h = ground arith

clamp_le : (per_page : ℕ) → clamp per_page ≤ 200
clamp_le per_page = ground arith

within :
    (k per_page : ℕ)
    → k * 200 < 9_223_372_036_854_775_808
    → k * clamp per_page < 9_223_372_036_854_775_808
within k per_page h = omega (arith, mul-le-mul_left k (clamp_le per_page))

pages_to-take :
    (run_id : ℕ) (issues_only : Bool) (per_page k : ℕ) (w : World)
    → k * 200 < 9_223_372_036_854_775_808
    → pages_to run_id issues_only per_page k w
      ≡ take (k * clamp per_page) (select (shown_result run_id issues_only) w.run_results)
unfolding list_integrity_run_results requested_page
pages_to-take run_id issues_only per_page zero w h =
    ap (λ (j : ℕ). take j (select (shown_result run_id issues_only) w.run_results))
      (sym (zero-mul (clamp per_page)))
pages_to-take run_id issues_only per_page (suc k) w h =
    let rows = select (shown_result run_id issues_only) w.run_results in
    let small : k * 200 < 9_223_372_036_854_775_808 = omega arith in
    rw
      (
        pages_to-take run_id issues_only per_page k w small,
        at_least_suc k,
        offset_of_small (k * clamp per_page) (within k per_page small),
      )
      (take-append-take (k * clamp per_page) (clamp per_page) rows
        ∙ ap (λ (j : ℕ). take j rows) (sym (suc-mul k (clamp per_page))))

-- The pages of the results of a run, up to any one of them, are the first of its results in the
-- order of their ids, as long as 200 times the number of pages is below 2^63; and each page has at
-- most two hundred of them, whatever size is asked for.
pub list_integrity_run_results-pages :
    (run_id : ℕ) (issues_only : Bool) (per_page k : ℕ) (w : World)
    → k * 200 < 9_223_372_036_854_775_808
    → (pages_to run_id issues_only per_page k w
        ≡ take (k * clamp per_page) (select (shown_result run_id issues_only) w.run_results))
      × (length (rows_or_none (list_integrity_run_results run_id issues_only k per_page w).0) ≤ 200)
unfolding list_integrity_run_results requested_page
list_integrity_run_results-pages run_id issues_only per_page k w h = (
  pages_to-take run_id issues_only per_page k w h,
  omega (
    arith,
    clamp_le per_page,
    length-take_le (clamp per_page) (
        drop (offset_of ((at_least_one k - 1) * clamp per_page))
          (select (shown_result run_id issues_only) w.run_results)),
  ),
)
