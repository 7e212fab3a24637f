-- ===== src/Lag/Total.antt =====
-- What the gauges of the probe show.
use public_pg2mongo_cd_c.Base.{
  String, ℕ, ◌+◌, ◌%◌, ◌^◌, ◌<◌, Option, none, some, ◌≡◌, refl, ◌∙◌, ap, arith,
}
use public_pg2mongo_cd_c.Base.{
  List, [], ◌∷◌, if◌then◌else◌, ℤ, pos, negsuc, pos_part, ltb_ℤ, lookup,
}
use public_pg2mongo_cd_c.Lag.{
  Probe, add_lags, total_of, to_int64, GroupLag, Answer, admin_error, groups, probe, after_lookup,
  after_fetch,
}

-- The mathematical sum of the positive lags.
abbrev pub positive_sum : List ℤ → ℕ
positive_sum [] = 0
positive_sum (l ∷ ls) = pos_part l + positive_sum ls

abbrev pub group_sum : List (List ℤ) → ℕ
group_sum [] = 0
group_sum (ls ∷ topics) = positive_sum ls + group_sum topics

added : ℤ → ℕ → ℕ
added l total = if ltb_ℤ (pos 0) l then (total + pos_part l) % 2 ^ 64 else total

added-eq : (l : ℤ) (total : ℕ) → total + pos_part l < 2 ^ 64 → added l total ≡ total + pos_part l
unfolding added
added-eq (pos n) total h = ground arith
added-eq (negsuc n) total h = ground arith

add_lags-eq :
    (ls : List ℤ) (total : ℕ)
    → total + positive_sum ls < 2 ^ 64
    → add_lags ls total ≡ total + positive_sum ls
unfolding add_lags added
add_lags-eq [] total h = omega arith
add_lags-eq (l ∷ ls) total h =
    let e : added l total ≡ total + pos_part l = added-eq l total (omega (arith, h)) in
    add_lags-eq ls (added l total) (omega (arith, e, h)) ∙ omega (arith, e)

total_of-eq :
    (topics : List (List ℤ)) (total : ℕ)
    → total + group_sum topics < 2 ^ 64
    → total_of topics total ≡ total + group_sum topics
unfolding total_of
total_of-eq [] total h = omega arith
total_of-eq (ls ∷ topics) total h =
    let e = add_lags-eq ls total (omega (arith, h)) in
    total_of-eq topics (add_lags ls total) (omega (arith, e, h)) ∙ omega (arith, e)

to_int64_small : (n : ℕ) → n < 2 ^ 63 → to_int64 n ≡ pos n
to_int64_small n h = ground arith

-- What the gauges may show after a probe, by the error that it returns.
abbrev pub Shows : {E : Type 0} → ℕ → Option (GroupLag E) → Probe → Probe → Option E → Type 0
Shows now o p q (some e) = q ≡ p
Shows now none p q none = (q.total_lag ≡ pos 0) × (q.last_probe_at ≡ now)
Shows now (some g) p q none = (q.total_lag ≡ pos (group_sum g.lag)) × (q.last_probe_at ≡ now)

abbrev lags_of : {E : Type 0} → Option (GroupLag E) → List (List ℤ)
lags_of none = []
lags_of (some g) = g.lag

-- What the answer says of a group.
abbrev pub known : {E : Type 0} → Answer E → String → Option (GroupLag E)
known (admin_error e) group = none
known (groups gs) group = lookup group gs

abbrev first_of : {E : Type 0} → Option E → Option E → Option E
first_of (some e) o = some e
first_of none o = o

abbrev error_in : {E : Type 0} → Option (GroupLag E) → Option E
error_in none = none
error_in (some g) = first_of g.fetch_err g.describe_err

-- The error of the call, else the first of the group's two.
abbrev pub error_of : {E : Type 0} → Answer E → String → Option E
error_of (admin_error e) group = some e
error_of (groups gs) group = error_in (lookup group gs)

stored :
    {E : Type 0} (now : ℕ) (g : GroupLag E) (p : Probe) (fetch describe : Option E)
    → group_sum g.lag < 2 ^ 63
    → g.describe_err ≡ describe
    → ((after_fetch now g p fetch).1 ≡ first_of fetch describe)
      × Shows now (some g) p (after_fetch now g p fetch).0 (after_fetch now g p fetch).1
stored now g p (some e) describe h k = (refl, refl)
stored now g p none (some e) h k = rw k (refl, refl)
stored now g p none none h k =
    let e = total_of-eq g.lag 0 (omega (arith, h)) in
    rw (k, e) (refl, (to_int64_small _ (omega (arith, h)) ∙ ap pos (omega arith), refl))

-- A probe returns the error of the call to the broker, else the first of the group's two errors,
-- else none. One that returns an error leaves both gauges as they were. One that does not shows the
-- exact sum of the positive lags of the group's partitions, or 0 for a group that the broker does
-- not know, and the time of the probe, if the sum is below 2^63.
pub probe-Shows :
    {E : Type 0} (now : ℕ) (a : Answer E) (p : Probe)
    → group_sum (lags_of (known a p.group_id)) < 2 ^ 63
    → let r = probe now a p in
      (r.1 ≡ error_of a p.group_id) × Shows now (known a p.group_id) p r.0 r.1
unfolding probe
probe-Shows now (admin_error e) p h = (refl, refl)
probe-Shows {E} now (groups gs) p h = shown (lookup p.group_id gs) h
  where
    shown :
        (o : Option (GroupLag E))
        → group_sum (lags_of o) < 2 ^ 63
        → ((after_lookup now p o).1 ≡ error_in o)
          × Shows now o p (after_lookup now p o).0 (after_lookup now p o).1
    shown none h = (refl, (refl, refl))
    shown (some g) h = stored now g p g.fetch_err g.describe_err h refl
