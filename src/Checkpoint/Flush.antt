-- ===== src/Checkpoint/Flush.antt =====
-- `MarkProgress` and `flush` as they interleave: the consume loop marks while the flush goroutine
-- waits for MongoDB.
use mathlib.Core.Path.{subst, sym}
use public_pg2mongo_cd_c.Base.{
  List, [], ◌∷◌, In, All, ◌⊎◌, inl, inr, Bool-cases, ltb_ℤ, leb_ℤ, ℕ, false, Option, none, some,
  ◌≡◌, refl, ℤ, pos, ◌≤ℤ◌, ◌<ℤ◌, arith,
}
use public_pg2mongo_cd_c.Checkpoint.{
  Progress, Snapshot, new, mark_progress, snapshot, flushed, raised,
}

-- The goroutine's pending snapshot, and the document in MongoDB.
pub record Machine : Type 0 where
  pub progress : Progress
  pub pending : Option Snapshot
  pub stored : Option Snapshot

pub data Step (m : Machine) : Machine → Type 0 where
  mark : (lsn size : ℤ) → Step m (record m { progress = mark_progress lsn size m.progress })
  send :
      (now : ℕ) → m.pending ≡ none → Step m (record m { pending = some (snapshot now m.progress) })
  ack :
      (s : Snapshot)
      → m.pending ≡ some s
      → Step m (record m { progress = flushed s m.progress; pending = none; stored = some s })
  refuse : (s : Snapshot) → m.pending ≡ some s → Step m (record m { pending = none })
  -- The write took place, and the answer was lost.
  time_out :
      (s : Snapshot) → m.pending ≡ some s → Step m (record m { pending = none; stored = some s })

pub data Reach (m : Machine) : Machine → Type 0 where
  here : Reach m m
  next : {n k : Machine} → Reach m n → Step n k → Reach m k

-- The LSNs that the loop has marked on the way, the last first.
unfoldable pub marks_of : {m n : Machine} → Reach m n → List ℤ
marks_of here = []
marks_of (next r (mark lsn size)) = lsn ∷ marks_of r
marks_of (next r (send now e)) = marks_of r
marks_of (next r (ack s e)) = marks_of r
marks_of (next r (refuse s e)) = marks_of r
marks_of (next r (time_out s e)) = marks_of r

-- One of the LSNs, or 0.
abbrev pub Known : List ℤ → ℤ → Type 0
Known lsns n = (n ≡ pos 0) ⊎ In n lsns

abbrev pub Pending : List ℤ → Option Snapshot → Type 0
Pending lsns none = Unit
Pending lsns (some s) = Known lsns s.last_lsn

-- The greatest LSN is that of the marks, and the document is the old one or has the LSN of a mark.
pub record IsSound (old : Option Snapshot) (lsns : List ℤ) (m : Machine) : Type 0 where
  pub nonneg : pos 0 ≤ℤ m.progress.max_lsn
  pub known : Known lsns m.progress.max_lsn
  pub above : All (λ lsn. lsn ≤ℤ m.progress.max_lsn) lsns
  pub pending_known : Pending lsns m.pending
  pub stored_known :
      (m.stored ≡ old) ⊎ ((s : Snapshot) × (m.stored ≡ some s) × Known lsns s.last_lsn)

-- A run that has just started, over the document that an earlier one left, if any.
unfoldable pub initial : ℕ → Option Snapshot → Machine
initial now old = record { progress = new now; pending = none; stored = old }

pub raised_le : (lsn cur : ℤ) → cur ≤ℤ raised lsn cur
raised_le lsn cur = ground arith

pub raised_covers : (lsn cur : ℤ) → pos 0 ≤ℤ cur → lsn ≤ℤ raised lsn cur
raised_covers lsn cur h = ground arith

raised_above : (lsn cur : ℤ) → pos 0 <ℤ lsn → cur <ℤ lsn → cur <ℤ raised lsn cur
raised_above lsn cur p h = ground arith

Known-later : (lsn n : ℤ) (lsns : List ℤ) → Known lsns n → Known (lsn ∷ lsns) n
Known-later lsn n lsns (inl e) = inl e
Known-later lsn n lsns (inr h) = inr (inr h)

Pending-later :
    (lsn : ℤ) (lsns : List ℤ) (o : Option Snapshot) → Pending lsns o → Pending (lsn ∷ lsns) o
Pending-later lsn lsns none h = tt
Pending-later lsn lsns (some s) h = Known-later lsn s.last_lsn lsns h

Pending-of :
    (lsns : List ℤ) (o : Option Snapshot) (s : Snapshot)
    → o ≡ some s
    → Pending lsns o
    → Known lsns s.last_lsn
Pending-of lsns none s e h = cc
Pending-of lsns (some t) s e h = let same : t ≡ s = cc in subst (λ x. Known lsns x.last_lsn) same h

raised-cases : (lsn cur : ℤ) → (cur ≡ raised lsn cur) ⊎ (lsn ≡ raised lsn cur)
raised-cases lsn cur = elim (Bool-cases (ltb_ℤ (pos 0) lsn)) [
  | inl p ↦ elim (Bool-cases (leb_ℤ lsn cur)) [
    | inl q ↦ inl (rw (p, q) refl)
    | inr q ↦ inr (rw (p, q) refl)
  ]
  | inr p ↦ inl (rw p refl)
]

raised-Known : (lsn cur : ℤ) (lsns : List ℤ) → Known lsns cur → Known (lsn ∷ lsns) (raised lsn cur)
raised-Known lsn cur lsns h = elim (raised-cases lsn cur) [
  | inl e ↦ subst (Known (lsn ∷ lsns)) e (Known-later lsn cur lsns h)
  | inr e ↦ inr (inl (sym e))
]

All-le-trans : (lsns : List ℤ) (m n : ℤ) → m ≤ℤ n → All (λ x. x ≤ℤ m) lsns → All (λ x. x ≤ℤ n) lsns
All-le-trans [] m n h a = tt
All-le-trans (x ∷ lsns) m n h a = (omega (arith, a.0), All-le-trans lsns m n h a.1)

-- Whatever the two goroutines do next, the greatest LSN does not fall.
pub Step-max_lsn : {m n : Machine} → Step m n → m.progress.max_lsn ≤ℤ n.progress.max_lsn
unfolding mark_progress flushed
Step-max_lsn {m} (mark lsn size) = raised_le lsn m.progress.max_lsn
Step-max_lsn (send now e) = omega arith
Step-max_lsn (ack s e) = omega arith
Step-max_lsn (refuse s e) = omega arith
Step-max_lsn (time_out s e) = omega arith

marked-IsSound :
    (old : Option Snapshot) (lsns : List ℤ) (lsn size : ℤ) (m : Machine)
    → IsSound old lsns m
    → IsSound old (lsn ∷ lsns) (record m { progress = mark_progress lsn size m.progress })
unfolding mark_progress
marked-IsSound old lsns lsn size m h =
    let max = m.progress.max_lsn in
    let up = raised_le lsn max in
    record {
      nonneg = omega (arith, up, h.nonneg);
      known = raised-Known lsn max lsns h.known;
      above = (raised_covers lsn max h.nonneg, All-le-trans lsns max (raised lsn max) up h.above);
      pending_known = Pending-later lsn lsns m.pending h.pending_known;
      stored_known = elim h.stored_known [
        | inl e ↦ inl e
        | inr (s, e, k) ↦ inr (s, e, Known-later lsn s.last_lsn lsns k)
      ];
    }

-- In every interleaving of marks with the two halves of a flush, also when the write takes place
-- and its answer is lost, the greatest LSN in memory is one of those marked or 0, and no marked one
-- is above it. The stored document is the one that an earlier run left, if any, or its LSN is one
-- of those marked or 0; the LSN of a write under way is one of those marked or 0 too.
pub Reach-IsSound :
    (now : ℕ) (old : Option Snapshot) {m : Machine} (r : Reach (initial now old) m)
    → IsSound old (marks_of r) m
unfolding initial new marks_of flushed snapshot
Reach-IsSound now old here = record {
  nonneg = omega arith;
  known = inl refl;
  above = tt;
  pending_known = tt;
  stored_known = inl refl;
}
Reach-IsSound now old (next {n = n} r (mark lsn size)) =
    marked-IsSound old (marks_of r) lsn size n (Reach-IsSound now old r)
Reach-IsSound now old (next r (send t e)) =
    let h = Reach-IsSound now old r in
    record {
      nonneg = h.nonneg;
      known = h.known;
      above = h.above;
      pending_known = h.known;
      stored_known = h.stored_known;
    }
Reach-IsSound now old (next {n = n} r (ack s e)) =
    let h = Reach-IsSound now old r in
    record {
      nonneg = h.nonneg;
      known = h.known;
      above = h.above;
      pending_known = tt;
      stored_known = inr (s, refl, Pending-of (marks_of r) n.pending s e h.pending_known);
    }
Reach-IsSound now old (next r (refuse s e)) =
    let h = Reach-IsSound now old r in
    record {
      nonneg = h.nonneg;
      known = h.known;
      above = h.above;
      pending_known = tt;
      stored_known = h.stored_known;
    }
Reach-IsSound now old (next {n = n} r (time_out s e)) =
    let h = Reach-IsSound now old r in
    record {
      nonneg = h.nonneg;
      known = h.known;
      above = h.above;
      pending_known = tt;
      stored_known = inr (s, refl, Pending-of (marks_of r) n.pending s e h.pending_known);
    }

-- From any state with no write under way, a flush that no mark overlaps can store the progress as
-- it is, and then only the time and the dirty flag differ.
pub quiet_flush :
    (m : Machine) (now : ℕ)
    → m.pending ≡ none
    → (n : Machine) × Reach m n
      × (n.stored ≡ some (snapshot now m.progress))
      × (n.progress ≡ record m.progress { last_write_at = now; dirty = false })
unfolding flushed snapshot
quiet_flush m now e =
    let s = snapshot now m.progress in
    (
      record m { progress = flushed s m.progress; pending = none; stored = some s },
      next (next here (send now e)) (ack s refl),
      refl,
      refl,
    )

-- From any state with no write under way, a mark of a greater LSN between the snapshot and the
-- answer of a flush leads to a state where the dirty flag is clear although the stored LSN is below
-- the marked one.
pub overlapped_mark :
    (m : Machine) (now : ℕ) (lsn : ℤ)
    → m.pending ≡ none
    → pos 0 <ℤ lsn
    → m.progress.max_lsn <ℤ lsn
    → (n : Machine) × (s : Snapshot) × Reach m n
      × (n.progress.dirty ≡ false)
      × (n.stored ≡ some s)
      × (s.last_lsn <ℤ n.progress.max_lsn)
unfolding mark_progress flushed snapshot
overlapped_mark m now lsn e p h =
    let s = snapshot now m.progress in
    let marked = mark_progress lsn (pos 1) m.progress in
    (
      record m { progress = flushed s marked; pending = none; stored = some s },
      s,
      next (next (next here (send now e)) (mark lsn (pos 1))) (ack s refl),
      refl,
      refl,
      raised_above lsn m.progress.max_lsn p h,
    )
