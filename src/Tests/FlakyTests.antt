-- ===== src/Tests/FlakyTests.antt =====
-- A server whose bulk writes stop after their first model and fail: a batch that is half done.
use public_pg2mongo_cd_c.Base.{String, false, none, some, pos, ◌≡◌, refl, List, [], ◌∷◌, inl}
use public_pg2mongo_cd_c.Writer.{WriteModel}
use public_pg2mongo_cd_c.Writer.Server.{
  Server, IsLawful, RunsSome, BulkReply, failed, run_each, DriverError,
}
use public_pg2mongo_cd_c.Writer.Exec.{row}
use public_pg2mongo_cd_c.Writer.Batch.{apply_batch, World}
use public_pg2mongo_cd_c.Writer.Batch.Effect.{Native}
use public_pg2mongo_cd_c.Writer.Batch.Group.{of_table}
use public_pg2mongo_cd_c.Writer.Batch.Drift.{Drifted, apply_batch-Drifted}
use public_pg2mongo_cd_c.Base.{Within}
use public_pg2mongo_cd_c.Tests.Memory.{memory, Docs, exec, find, checked}
use public_pg2mongo_cd_c.Tests.Memory.Laws.{memory-IsLawful}
use public_pg2mongo_cd_c.Tests.WriterTests.{
  no_docs, same_order, same_IsRange, writer, unordered, All-IsPlain,
}

abbrev broken : DriverError
broken = record {
  canceled = false;
  deadline_exceeded = false;
  net_error = some false;
  bulk = none;
  server_error = none;
}

abbrev first_only : List WriteModel → List WriteModel
first_only [] = []
first_only (m ∷ ms) = m ∷ []

abbrev flaky_write : Docs → String → List WriteModel → Docs × BulkReply
flaky_write s c ms = ((run_each exec s c (first_only ms)).0, failed broken)

abbrev flaky : Server
flaky = record memory { bulk_write = flaky_write }

flaky-IsLawful : IsLawful flaky
flaky-IsLawful = record {
  matches-end = memory-IsLawful.matches-end;
  matches-id = memory-IsLawful.matches-id;
  matches-lsn_lt = memory-IsLawful.matches-lsn_lt;
  matches-lsn_missing = memory-IsLawful.matches-lsn_missing;
  matches-or = memory-IsLawful.matches-or;
  get-updated = memory-IsLawful.get-updated;
  find-id = memory-IsLawful.find-id;
  exec-delete_one = memory-IsLawful.exec-delete_one;
  exec-update_one = memory-IsLawful.exec-update_one;
  acknowledged = λ s c ms e. cc;
  bulk_write-run = λ s c ms t. cc;
}

first_only-Within : (ms : List WriteModel) → Within (first_only ms) ms
first_only-Within [] = tt
first_only-Within (m ∷ ms) = (inl refl, tt)

flaky-RunsSome : RunsSome flaky
flaky-RunsSome = record {
  bulk_write-some = λ s c ms. (first_only ms, first_only-Within ms, λ c' id. refl);
}

empty_row : (c id : String) → row flaky no_docs c id ≡ none
unfolding find checked
empty_row c id = refl

native : Native flaky flaky-IsLawful (pos 1) no_docs
native c id = rw (empty_row c id) tt

abbrev at_start : World flaky
at_start = record { store = no_docs; skips = [] }

apply_batch-Drifted_example :
    Drifted flaky flaky-IsLawful flaky-RunsSome
      (pos 1)
      (of_table "users" unordered)
      no_docs
      (apply_batch flaky same_order writer unordered at_start).0.store
      "users"
apply_batch-Drifted_example =
    apply_batch-Drifted flaky flaky-IsLawful flaky-RunsSome same_order writer unordered at_start
      same_IsRange All-IsPlain native "users"
