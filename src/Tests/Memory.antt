-- ===== src/Tests/Memory.antt =====
-- A server that keeps its documents in memory: it meets what is assumed of MongoDB.
use public_pg2mongo_cd_c.Base.{
  ℕ, suc, ◌+◌, String, Bool, true, false, Option, none, some, ℤ, ltb_ℤ, ◌≡◌, refl,
}
use public_pg2mongo_cd_c.Base.{
  ◌==◌, ==_self, if◌then◌else◌, ◌&&◌, ◌||◌, List, [], ◌∷◌, arith, str_dec, Bool-cases, inl, inr,
}
pub mod Laws
use mathlib.Core.List.{Permᴰ}
use public_pg2mongo_cd_c.Base.Perms.{perm-refl}
use public_pg2mongo_cd_c.Value.{
  Value, null, bool, int, float, str, arr, obj, Items, nil, cons, Fields, end, field,
}
use public_pg2mongo_cd_c.Value.{get, put, AllKeys}
use public_pg2mongo_cd_c.Value.Laws.{get-put, first_some}
use public_pg2mongo_cd_c.Writer.{WriteModel, delete_one, update_one, lsn_lt, lsn_missing}
use public_pg2mongo_cd_c.Writer.Gate.{Stamp, at, unset, foreign, stamp_of, stamp_lt, is_unset}
use public_pg2mongo_cd_c.Writer.Server.{
  Server, IsLawful, OpReply, matched, upserted, deleted, unmatched, write_error, Counts, BulkReply,
  done, failed, DriverError, BulkException, delete_doc, update_doc, any_matches, run_each, Replaced,
  is_plain, error_codes, acked, acked_count, tried_all, Accounts, SameDocs,
}

abbrev pub text_is : Option Value → String → Bool
text_is (some (str t)) s = t == s
text_is _ s = false

abbrev pub lt_value : Value → Option Value → Bool
lt_value (int n) v = stamp_lt n (stamp_of v)
lt_value _ v = false

abbrev pub exists_value : Value → Option Value → Bool
exists_value (bool false) v = is_unset (stamp_of v)
exists_value _ v = false

unfoldable pub op_matches : Fields → Option Value → Bool
op_matches end v = true
op_matches (field o w ops) v =
    (if o == "$lt" then lt_value w v else if o == "$exists" then exists_value w v else false)
    && op_matches ops v

unfoldable mutual
  pub matches : Fields → Fields → Bool
  matches end d = true
  matches (field k v rest) d = value_matches v k d && matches rest d

  value_matches : Value → String → Fields → Bool
  value_matches (arr fs) k d = if k == "$or" then any_filter fs d else false
  value_matches (obj ops) k d = op_matches ops (get k d)
  value_matches (str s) k d = text_is (get k d) s
  value_matches null k d = false
  value_matches (bool b) k d = false
  value_matches (int n) k d = false
  value_matches (float n) k d = false

  any_filter : Items → Fields → Bool
  any_filter nil d = false
  any_filter (cons v fs) d = is_filter v d || any_filter fs d

  is_filter : Value → Fields → Bool
  is_filter (obj f) d = matches f d
  is_filter (arr fs) d = false
  is_filter (str s) d = false
  is_filter null d = false
  is_filter (bool b) d = false
  is_filter (int n) d = false
  is_filter (float n) d = false

-- `lay set d`: the fields of `set` over those of `d`.
unfoldable pub lay : Fields → Fields → Fields
lay end d = d
lay (field k v set) d = put k v (lay set d)

-- The id of a document is not changed by an update.
abbrev pub restore_id : Option Value → Fields → Fields
restore_id none d = d
restore_id (some v) d = put "_id" v d

unfoldable pub updated : Fields → Fields → Fields
updated (field k (obj set) end) d = restore_id (get "_id" d) (lay set d)
updated _ d = d

-- Documents are kept by collection and id, and one that does not carry its id is not found.
abbrev pub Docs : Type 0
Docs = String → String → Option Fields

unfoldable pub checked : String → Option Fields → Option Fields
checked id none = none
checked id (some d) = if text_is (get "_id" d) id then some d else none

unfoldable pub find : Docs → String → String → Option Fields
unfolding checked
find s c id = checked id (s c id)

unfoldable pub store : Docs → String → String → Option Fields → Docs
store s c id o c' id' = if (c' == c) && (id' == id) then o else s c' id'

abbrev pub write_to : Docs → String → String → Option Fields × OpReply → Docs × OpReply
write_to s c id r = (store s c id r.0, r.1)

unfoldable pub exec : Docs → String → WriteModel → Docs × OpReply
exec s c (delete_one (field k (str id) rest)) =
    write_to s c id (delete_doc matches (field k (str id) rest) (find s c id))
exec s c (update_one (field k (str id) rest) (some u) up) =
    write_to s c id (update_doc matches updated id (field k (str id) rest) u (find s c id))
exec s c _ = (s, unmatched)

unfoldable pub tally : List OpReply → Counts
tally [] = record { matched_count = 0; upserted_count = 0; deleted_count = 0 }
tally (matched ∷ rs) = let n = tally rs in record n { matched_count = suc n.matched_count }
tally (upserted ∷ rs) = let n = tally rs in record n { upserted_count = suc n.upserted_count }
tally (deleted ∷ rs) = let n = tally rs in record n { deleted_count = suc n.deleted_count }
tally (_ ∷ rs) = tally rs

unfoldable pub reply_of : List ℕ → Counts → BulkReply
reply_of [] n = done (some n)
reply_of (code ∷ codes) n = failed (record {
  canceled = false;
  deadline_exceeded = false;
  net_error = none;
  bulk = some (record { codes = code ∷ codes; concern = false });
  server_error = none;
})

unfoldable pub bulk_write : Docs → String → List WriteModel → Docs × BulkReply
unfolding run_each
bulk_write s c ms = let r = run_each exec s c ms in (r.0, reply_of (error_codes r.1) (tally r.1))

abbrev pub memory : Server
memory = record {
  State = Docs;
  find = find;
  matches = matches;
  updated = updated;
  exec = exec;
  bulk_write = bulk_write;
}
