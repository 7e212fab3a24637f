-- ===== src/Checkpoint.antt =====
-- services/sink/internal/checkpoint: progress in memory, its periodic flush, the staleness gauge.
-- Times are in nanoseconds since the epoch, and an atomic.Int64 that only grows is a 64-bit word.
pub mod Ticks
pub mod Flush
use public_pg2mongo_cd_c.Base.{
  ℕ, zero, suc, ◌+◌, ◌-◌, ◌%◌, ◌^◌, String, Bool, true, false, Option, none, some,
}
use public_pg2mongo_cd_c.Base.{
  ℤ, pos, negsuc, ltb_ℤ, leb_ℤ, leb, ltb, eqb, pos_part, if◌then◌else◌, ◌==◌, List, [], ◌∷◌, ◌&&◌,
  not, ◌||◌,
}

-- Zero values and negative ones become the defaults of `New`.
pub record Config : Type 0 where
  pub group_id : String
  pub interval : ℤ
  pub flush_timeout : ℤ
  pub heartbeat_every : ℤ

abbrev second : ℕ
second = 1_000_000_000

abbrev default_if : Bool → ℤ → ℤ → ℤ
default_if b d v = if b then d else v

unfoldable pub with_defaults : Config → Config
with_defaults c = record {
  group_id = if c.group_id == "" then "zdt-sink" else c.group_id;
  interval = default_if (leb_ℤ c.interval (pos 0)) (pos 10_000_000_000) c.interval;
  flush_timeout = default_if (leb_ℤ c.flush_timeout (pos 0)) (pos 5_000_000_000) c.flush_timeout;
  heartbeat_every = default_if (leb_ℤ c.heartbeat_every (pos 0)) (pos 6) c.heartbeat_every;
}

-- The atomics of `Checkpointer`.
pub record Progress : Type 0 where
  pub max_lsn : ℤ
  pub event_count : ℕ
  pub dirty : Bool
  pub last_write_at : ℕ

-- `New`, at the time that its clock reads.
unfoldable pub new : ℕ → Progress
new created_at = record {
  max_lsn = pos 0;
  event_count = 0;
  dirty = false;
  last_write_at = created_at;
}

-- The loop of loads and swaps ends with the greater of the two.
abbrev pub raised : ℤ → ℤ → ℤ
raised lsn cur = if ltb_ℤ (pos 0) lsn then (if leb_ℤ lsn cur then cur else lsn) else cur

abbrev pub counted : ℤ → ℕ → ℕ
counted size n = if ltb_ℤ (pos 0) size then (n + pos_part size) % 2 ^ 64 else n

unfoldable pub mark_progress : ℤ → ℤ → Progress → Progress
mark_progress lsn batch_size p = record p {
  max_lsn = raised lsn p.max_lsn;
  event_count = counted batch_size p.event_count;
  dirty = true;
}

-- The document that a flush writes: it is read before the call to MongoDB.
pub record Snapshot : Type 0 where
  pub last_lsn : ℤ
  pub last_events : ℕ
  pub updated_at : ℕ

-- The two halves of `flush`, before and after the call.
unfoldable pub snapshot : ℕ → Progress → Snapshot
snapshot now p = record { last_lsn = p.max_lsn; last_events = p.event_count; updated_at = now }

unfoldable pub flushed : Snapshot → Progress → Progress
flushed s p = record p { last_write_at = s.updated_at; dirty = false }

-- `stalenessSeconds`, in nanoseconds.
unfoldable pub staleness : ℕ → Progress → ℕ
staleness now p = if ltb now p.last_write_at then 0 else now - p.last_write_at

-- What a flush came to, as `Run` tells them apart.
pub data FlushResult : Type 0 where
  written : FlushResult
  context_ended : FlushResult
  failed : FlushResult

-- One turn of the `select` in `Run`.
pub data Turn : Type 0 where
  done : Turn
  tick : Bool → FlushResult → Turn

-- `idleTicks`, the flushes tried so far, and whether `Run` has returned.
pub record Runner : Type 0 where
  pub idle_ticks : ℕ
  pub tried : ℕ
  pub returned : Bool

abbrev after_flush : Runner → FlushResult → Runner
after_flush r written = record r { tried = r.tried + 1; idle_ticks = 0 }
after_flush r context_ended = record r { tried = r.tried + 1; returned = true }
after_flush r failed = record r { tried = r.tried + 1 }

-- A tick: `dirty` is what `c.dirty.Load()` reads, and `result` what a flush would come to.
abbrev on_tick : ℕ → Bool → FlushResult → Runner → Runner
on_tick heartbeat_every true result r = after_flush r result
on_tick heartbeat_every false result r =
    let s = record r { idle_ticks = r.idle_ticks + 1 } in
    if ltb s.idle_ticks heartbeat_every then s else after_flush s result

abbrev on_turn : ℕ → Turn → Runner → Runner
on_turn heartbeat_every done r = record r { returned = true }
on_turn heartbeat_every (tick dirty result) r = on_tick heartbeat_every dirty result r

unfoldable pub step : ℕ → Turn → Runner → Runner
step heartbeat_every t r = if r.returned then r else on_turn heartbeat_every t r

unfoldable pub run : ℕ → List Turn → Runner → Runner
run heartbeat_every [] r = r
run heartbeat_every (t ∷ ts) r = run heartbeat_every ts (step heartbeat_every t r)

abbrev pub started : Runner
started = record { idle_ticks = 0; tried = 0; returned = false }
