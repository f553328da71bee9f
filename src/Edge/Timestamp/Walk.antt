-- ===== src/Edge/Timestamp/Walk.antt =====
-- crates/mcp-usage-edge/src/mpp.rs, the loops of `format`: where they stop, and that they stop.
use mcp_usage_kit.Edge.Timestamp.{
  days_in_month, days_in_year, is_leap, sum_months, sum_years, walk_months, walk_years,
}
use mcp_usage_kit.Prelude.{
  Bool-cases, arith, inl, inr, leb, ltb, refl, suc, zero, ℕ, ◌+◌, ◌-◌, ◌<◌, ◌≡◌, ◌≤◌,
}

pub record Reached (year days : ℕ) (r : ℕ × ℕ) : Type 0 where
  pub from_start : year ≤ r.0
  pub within : r.1 < days_in_year r.0
  pub total : days ≡ sum_years year (r.0 - year) + r.1

pub days_in_year_pos : (year : ℕ) → 365 ≤ days_in_year year
unfolding days_in_year
days_in_year_pos year = ground arith

pub days_in_month_pos : (year month : ℕ) → 28 ≤ days_in_month year month
unfolding days_in_month
days_in_month_pos year month = ground arith

days_in_month_small : (year month : ℕ) → days_in_month year month ≤ 31
unfolding days_in_month
days_in_month_small year month = ground arith

sum_years_step :
    (year y : ℕ)
    → year + 1 ≤ y
    → sum_years year (y - year) ≡ days_in_year year + sum_years (year + 1) (y - (year + 1))
unfolding sum_years
sum_years_step year y h = let e : y - year ≡ suc (y - (year + 1)) = omega arith in rw e refl

pub walk_years-Reached :
    (fuel year days : ℕ) → days < fuel → Reached year days (walk_years fuel year days)
unfolding walk_years sum_years
walk_years-Reached zero year days h = absurd (omega arith)
walk_years-Reached (suc fuel) year days h = elim (Bool-cases (ltb days (days_in_year year))) [
  | inl stop ↦ rw stop (record {
    from_start = omega arith;
    within = ground arith;
    total = let e : year - year ≡ 0 = omega arith in rw e (ground arith);
  })
  | inr go ↦
      let rest =
        walk_years-Reached fuel (year + 1) (days - days_in_year year)
          (ground (arith, days_in_year_pos year)) in
      rw go (record {
        from_start = omega (arith, rest.from_start);
        within = rest.within;
        total = ground (
          arith,
          rest.total,
          sum_years_step year (walk_years fuel (year + 1) (days - days_in_year year)).0
              rest.from_start,
        );
      })
]

pub record InMonth (year month days : ℕ) (r : ℕ × ℕ) : Type 0 where
  pub from_start : month ≤ r.0
  pub last : r.0 ≤ 12
  pub within : r.1 < days_in_month year r.0
  pub total : days ≡ sum_months year month (r.0 - month) + r.1

sum_months_step :
    (year month m : ℕ)
    → month + 1 ≤ m
    → sum_months year month (m - month)
      ≡ days_in_month year month + sum_months year (month + 1) (m - (month + 1))
unfolding sum_months
sum_months_step year month m h =
    let e : m - month ≡ suc (m - (month + 1)) = omega arith in rw e refl

pub walk_months-InMonth :
    (fuel year month left days : ℕ)
    → days < fuel
    → month + left ≡ 13
    → days < sum_months year month left
    → InMonth year month days (walk_months fuel year month days)
unfolding sum_months walk_months
walk_months-InMonth zero year month left days h e k = absurd (omega arith)
walk_months-InMonth (suc fuel) year month zero days h e k = absurd (omega arith)
walk_months-InMonth (suc fuel) year month (suc left) days h e k =
    elim (Bool-cases (leb (days_in_month year month) days)) [
      | inr stop ↦ rw stop (record {
        from_start = omega arith;
        last = omega arith;
        within = ground arith;
        total = let z : month - month ≡ 0 = omega arith in rw z (ground arith);
      })
      | inl go ↦
          let rest =
            walk_months-InMonth fuel year (month + 1) left (days - days_in_month year month)
              (ground (arith, days_in_month_pos year month)) (omega arith) (ground arith) in
          rw go (record {
            from_start = omega (arith, rest.from_start);
            last = rest.last;
            within = rest.within;
            total = ground (
              arith,
              rest.total,
              sum_months_step year month
                  (walk_months fuel year (month + 1) (days - days_in_month year month)).0
                  rest.from_start,
            );
          })
    ]

-- The months fill the year.
pub sum_months-year : (year : ℕ) → sum_months year 1 12 ≡ days_in_year year
unfolding sum_months days_in_month days_in_year
sum_months-year year = elim (Bool-cases (is_leap year)) [
  | inl leap ↦ rw leap refl
  | inr common ↦ rw common refl
]

pub day_within : (year month days : ℕ) → days < days_in_month year month → days + 1 ≤ 31
day_within year month days h = omega (arith, days_in_month_small year month)
