-- ===== src/Tests/Memory/Laws.antt =====
-- The in-memory server meets the assumptions on a server.
use public_pg2mongo_cd_c.Base.{ℕ, String, true, false, Option, none, some, ℤ, ◌≡◌, refl, Within}
use public_pg2mongo_cd_c.Base.{
  ◌==◌, ==_self, ◌&&◌, List, [], ◌∷◌, arith, str_dec, Bool-cases, inl, inr,
}
use mathlib.Core.List.{Permᴰ}
use public_pg2mongo_cd_c.Base.Perms.{perm-refl}
use public_pg2mongo_cd_c.Value.{
  Value, null, bool, int, float, str, arr, obj, Items, nil, cons, Fields, end, field,
}
use public_pg2mongo_cd_c.Value.{get, AllKeys}
use public_pg2mongo_cd_c.Value.Laws.{get-put, first_some}
use public_pg2mongo_cd_c.Writer.{WriteModel, lsn_lt, lsn_missing}
use public_pg2mongo_cd_c.Writer.Gate.{stamp_of, stamp_lt, is_unset}
use public_pg2mongo_cd_c.Writer.Server.{
  IsLawful, OpReply, matched, upserted, deleted, unmatched, write_error, Counts, done, delete_doc,
  update_doc, any_matches, run_each, Replaced, is_plain, error_codes, acked, acked_count, Accounts,
  SameDocs, RunsSome,
}
use public_pg2mongo_cd_c.Tests.Memory.{
  text_is, op_matches, matches, any_filter, lay, restore_id, updated, Docs, checked, find, store,
  exec, tally, reply_of, bulk_write, memory,
}

get-lay : (set d : Fields) (k : String) → get k (lay set d) ≡ first_some (get k set) (get k d)
unfolding lay get
get-lay end d k = refl
get-lay (field j v set) d k = ground (arith, get-put k j v (lay set d), get-lay set d k)

plain_ne_id : (k : String) → is_plain k ≡ true → ("_id" == k) ≡ false
unfolding is_plain
plain_ne_id k h = ground arith

plain_get : (set : Fields) → AllKeys is_plain set → get "_id" set ≡ none
unfolding get
plain_get end h = refl
plain_get (field k v set) h = rw (plain_ne_id k h.0) (plain_get set h.1)

restored :
    (o : Option Value) (set d : Fields) (k : String)
    → get "_id" d ≡ o
    → get "_id" set ≡ none
    → get k (restore_id o (lay set d)) ≡ first_some (get k set) (get k d)
restored none set d k e p = get-lay set d k
restored (some v) set d k e p = ground (arith, get-put k "_id" v (lay set d), get-lay set d k)

get-updated :
    (set d : Fields) (k : String)
    → AllKeys is_plain set
    → get k (updated (field "$set" (obj set) end) d) ≡ first_some (get k set) (get k d)
unfolding updated
get-updated set d k h = restored (get "_id" d) set d k refl (plain_get set h)

id-restore :
    (o : Option Value) (v : Value) (d : Fields) → o ≡ some v → get "_id" (restore_id o d) ≡ some v
id-restore none v d e = cc
id-restore (some w) v d e = ground (arith, get-put "_id" "_id" w d)

-- No update changes the id of a document that has one.
updated-id : (u d : Fields) (v : Value) → get "_id" d ≡ some v → get "_id" (updated u d) ≡ some v
unfolding updated
updated-id end d v e = e
updated-id (field k (obj set) end) d v e = id-restore _ v (lay set d) e
updated-id u d v e = e

text_is→eq : (o : Option Value) (s : String) → text_is o s ≡ true → o ≡ some (str s)
text_is→eq (some (str t)) s h = ground arith
text_is→eq none s h = cc
text_is→eq (some null) s h = cc
text_is→eq (some (bool b)) s h = cc
text_is→eq (some (int n)) s h = cc
text_is→eq (some (float n)) s h = cc
text_is→eq (some (arr fs)) s h = cc
text_is→eq (some (obj fs)) s h = cc

checked-id :
    (id : String) (o : Option Fields) (d : Fields)
    → checked id o ≡ some d
    → get "_id" d ≡ some (str id)
unfolding checked
checked-id id none d e = cc
checked-id id (some x) d e = ground (arith, text_is→eq (get "_id" x) id)

find-store :
    (s : Docs) (c id : String) (o : Option Fields)
    → checked id o ≡ o
    → Replaced memory s c id o (store s c id o)
unfolding find store
find-store s c id o e c' id' = ground (arith, e)

checked-some :
    (id : String) (d : Fields) → get "_id" d ≡ some (str id) → checked id (some d) ≡ some d
unfolding checked
checked-some id d e = rw e (rw (==_self id))

checked-find : (s : Docs) (c id : String) → checked id (find s c id) ≡ find s c id
unfolding find
checked-find s c id = twice (s c id)
  where
    twice : (o : Option Fields) → checked id (checked id o) ≡ checked id o
    twice none = refl
    twice (some d) = elim (Bool-cases (text_is (get "_id" d) id)) [
      | inl h ↦ rw h (rw h)
      | inr h ↦ rw h
    ]

delete_checked :
    (id : String) (f : Fields) (o : Option Fields)
    → checked id o ≡ o
    → checked id (delete_doc matches f o).0 ≡ (delete_doc matches f o).0
unfolding checked
delete_checked id f none e = refl
delete_checked id f (some d) e = ground (arith, e)

update_checked :
    (id : String) (f u : Fields) (o : Option Fields)
    → checked id o ≡ o
    → checked id (update_doc matches updated id f u o).0 ≡ (update_doc matches updated id f u o).0
unfolding get
update_checked id f u none e = checked-some id _ (updated-id u _ (str id) (rw (==_self "_id")))
update_checked id f u (some d) e = elim (Bool-cases (matches f d)) [
  | inl h ↦ rw h (checked-some id _ (updated-id u d (str id) (checked-id id (some d) d e)))
  | inr h ↦ rw h e
]

memory-matches_id :
    (id : String) (rest d : Fields)
    → get "_id" d ≡ some (str id)
    → matches (field "_id" (str id) rest) d ≡ matches rest d
unfolding matches
memory-matches_id id rest d e = rw e (rw (==_self id))

memory-matches_lsn_lt :
    (n : ℤ) (rest d : Fields)
    → matches (lsn_lt n rest) d ≡ (stamp_lt n (stamp_of (get "sourceLsn" d)) && matches rest d)
unfolding matches op_matches str_dec
memory-matches_lsn_lt n rest d = ground arith

memory-matches_lsn_missing :
    (d : Fields) → matches lsn_missing d ≡ is_unset (stamp_of (get "sourceLsn" d))
unfolding matches op_matches str_dec
memory-matches_lsn_missing d = ground arith

any_filter-any_matches : (fs : Items) (d : Fields) → any_filter fs d ≡ any_matches matches fs d
unfolding matches
any_filter-any_matches nil d = refl
any_filter-any_matches (cons null fs) d = any_filter-any_matches fs d
any_filter-any_matches (cons (bool b) fs) d = any_filter-any_matches fs d
any_filter-any_matches (cons (int n) fs) d = any_filter-any_matches fs d
any_filter-any_matches (cons (float n) fs) d = any_filter-any_matches fs d
any_filter-any_matches (cons (str s) fs) d = any_filter-any_matches fs d
any_filter-any_matches (cons (arr gs) fs) d = any_filter-any_matches fs d
any_filter-any_matches (cons (obj f) fs) d = rw (any_filter-any_matches fs d)

memory-matches_or :
    (fs : Items) (rest d : Fields)
    → matches (field "$or" (arr fs) rest) d ≡ (any_matches matches fs d && matches rest d)
unfolding matches
memory-matches_or fs rest d = rw (← any_filter-any_matches fs d) (rw (==_self "$or"))

acked-tally : (rs : List OpReply) → acked rs ≡ acked_count (tally rs)
unfolding tally
acked-tally [] = refl
acked-tally (matched ∷ rs) = omega (arith, acked-tally rs)
acked-tally (upserted ∷ rs) = omega (arith, acked-tally rs)
acked-tally (deleted ∷ rs) = omega (arith, acked-tally rs)
acked-tally (unmatched ∷ rs) = acked-tally rs
acked-tally (write_error c ∷ rs) = acked-tally rs

Accounts-of :
    (codes : List ℕ) (n : Counts) (rs : List OpReply)
    → error_codes rs ≡ codes
    → acked rs ≡ acked_count n
    → Accounts (reply_of codes n) rs
unfolding reply_of
Accounts-of [] n rs e a = (e, a)
Accounts-of (code ∷ codes) n rs e a = e

reply_acknowledged : (codes : List ℕ) (n : Counts) → ¬ (reply_of codes n ≡ done none)
unfolding reply_of
reply_acknowledged [] n h = cc
reply_acknowledged (code ∷ codes) n h = cc

memory-acknowledged :
    (s : Docs) (c : String) (ms : List WriteModel) → ¬ ((bulk_write s c ms).1 ≡ done none)
unfolding bulk_write
memory-acknowledged s c ms = reply_acknowledged _ _

memory-bulk_write :
    (s : Docs) (c : String) (ms : List WriteModel)
    → (order : List WriteModel) × Permᴰ order ms
      × SameDocs memory (bulk_write s c ms).0 (run_each exec s c order).0
      × Accounts (bulk_write s c ms).1 (run_each exec s c order).1
unfolding bulk_write
memory-bulk_write s c ms = (
  ms,
  perm-refl ms,
  λ c id. refl,
  Accounts-of _ _ (run_each exec s c ms).1 refl (acked-tally (run_each exec s c ms).1),
)

pub memory-IsLawful : IsLawful memory
memory-IsLawful = record {
  matches-end = λ d. unfold matches in refl;
  matches-id = memory-matches_id;
  matches-lsn_lt = λ n rest d f. memory-matches_lsn_lt n rest d;
  matches-lsn_missing = memory-matches_lsn_missing;
  matches-or = memory-matches_or;
  get-updated = get-updated;
  find-id = λ s c id d e. unfold find in checked-id id (s c id) d e;
  exec-delete_one = λ s c id rest.
      unfold exec in (find-store s c id _ (delete_checked id _ _ (checked-find s c id)), refl);
  exec-update_one = λ s c id rest u.
      unfold exec in (find-store s c id _ (update_checked id _ u _ (checked-find s c id)), refl);
  acknowledged = memory-acknowledged;
  bulk_write-run = λ s c ms t. memory-bulk_write s c ms;
}

Within-more : (x : WriteModel) (ms rest : List WriteModel) → Within ms rest → Within ms (x ∷ rest)
Within-more x [] rest w = tt
Within-more x (m ∷ ms) rest w = (inr w.0, Within-more x ms rest w.1)

Within-refl : (ms : List WriteModel) → Within ms ms
Within-refl [] = tt
Within-refl (m ∷ ms) = (inl refl, Within-more m ms ms (Within-refl ms))

pub memory-RunsSome : RunsSome memory
memory-RunsSome = record {
  bulk_write-some = λ s c ms. unfold bulk_write in (ms, Within-refl ms, λ c' id. refl);
}
