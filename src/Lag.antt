-- ===== src/Lag.antt =====
-- services/sink/internal/lag: the probe of the consumer group's lag. The admin client's answer is an
-- input; times are in nanoseconds since 1970.
pub mod Total
pub mod Run
use public_pg2mongo_cd_c.Base.{
  ℕ, zero, suc, ◌+◌, ◌-◌, ◌*◌, ◌%◌, ◌^◌, String, Bool, true, false, Option, none, some, ◌||◌,
}
use public_pg2mongo_cd_c.Base.{
  List, [], ◌∷◌, ◌++◌, ltb, eqb, if◌then◌else◌, ℤ, pos, negsuc, pos_part, ltb_ℤ, leb_ℤ, Dict,
  lookup,
}

-- The knobs, in nanoseconds; those that are functions are left out.
pub record Config : Type 0 where
  pub group_id : String
  pub interval : ℤ
  pub probe_timeout : ℤ

abbrev or_default : ℤ → ℤ → ℤ
or_default d n = if leb_ℤ n (pos 0) then d else n

pub record Probe : Type 0 where
  pub group_id : String
  pub interval : ℤ
  pub probe_to : ℤ
  pub total_lag : ℤ
  -- 0 is never.
  pub last_probe_at : ℕ

unfoldable pub new : Config → Probe
new cfg = record {
  group_id = cfg.group_id;
  interval = or_default (pos 30_000_000_000) cfg.interval;
  probe_to = or_default (pos 5_000_000_000) cfg.probe_timeout;
  total_lag = pos 0;
  last_probe_at = 0;
}

-- The bits of an int64, and the number that they stand for.
abbrev pub to_int64 : ℕ → ℤ
to_int64 w = if ltb w (2 ^ 63) then pos w else negsuc (2 ^ 64 - 1 - w)

-- The sum over the partitions of a topic, then over the topics.
unfoldable pub add_lags : List ℤ → ℕ → ℕ
add_lags [] total = total
add_lags (l ∷ ls) total =
    add_lags ls (if ltb_ℤ (pos 0) l then (total + pos_part l) % 2 ^ 64 else total)

unfoldable pub total_of : List (List ℤ) → ℕ → ℕ
total_of [] total = total
total_of (ls ∷ topics) total = total_of topics (add_lags ls total)

module _ (E : Type 0) where
  -- `kadm.DescribedGroupLag`: a map of maps as the lags that a range over it meets.
  pub record GroupLag : Type 0 where
    pub fetch_err : Option E
    pub describe_err : Option E
    pub lag : List (List ℤ)

  -- The answer of `adm.Lag`.
  pub data Answer : Type 0 where
    admin_error : E → Answer
    groups : Dict GroupLag → Answer

module _ {E : Type 0} where
  abbrev store : ℕ → ℤ → Probe → Probe × Option E
  store now total p = (record p { total_lag = total; last_probe_at = now }, none)

  abbrev after_describe : ℕ → List (List ℤ) → Probe → Option E → Probe × Option E
  after_describe now lags p (some e) = (p, some e)
  after_describe now lags p none = store now (to_int64 (total_of lags 0)) p

  abbrev pub after_fetch : ℕ → GroupLag E → Probe → Option E → Probe × Option E
  after_fetch now g p (some e) = (p, some e)
  after_fetch now g p none = after_describe now g.lag p g.describe_err

  abbrev pub after_lookup : ℕ → Probe → Option (GroupLag E) → Probe × Option E
  after_lookup now p none = store now (pos 0) p
  after_lookup now p (some g) = after_fetch now g p g.fetch_err

  abbrev after_answer : ℕ → Probe → Answer E → Probe × Option E
  after_answer now p (admin_error e) = (p, some e)
  after_answer now p (groups gs) = after_lookup now p (lookup p.group_id gs)

  -- `Probe.Probe`
  unfoldable pub probe : ℕ → Answer E → Probe → Probe × Option E
  probe now a p = after_answer now p a

-- `ageSeconds`, in nanoseconds.
unfoldable pub age : ℕ → Probe → ℕ
age now p =
    if eqb p.last_probe_at 0
    then 86400 * 1_000_000_000
    else if ltb now p.last_probe_at
    then 0
    else now - p.last_probe_at
