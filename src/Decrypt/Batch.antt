-- ===== src/Decrypt/Batch.antt =====
-- `BatchDecryptor::decryptBatch` of src/decrypt/batch_decryptor.cpp: the records are read from the
-- database in batches, and decrypted by the machine of Decrypt/Pipeline. What a worker decrypts does
-- not depend on what is read later, so the reads come first here. An exception of a later read
-- leaves the earlier records in the machine.
pub mod Reads
mod Tests
use sec_search.Prelude.{
  ℕ, zero, suc, ◌+◌, ◌-◌, ◌≤◌, ◌<◌, Bool, true, false, List, [], ◌∷◌, ◌++◌, length, Result, ok,
  throw, All, take, drop, length-drop, if◌then◌else◌, ◌≡◌, refl, ap, ◌∙◌, arith, ltb, ◌⊎◌, ◌↔◌, inl,
  inr, sym, Bool-cases,
}
use sec_search.Prelude.Action.{Action, pure, ◌>>=◌}
use sec_search.Crypto.Primitives.{Primitives}
use sec_search.Database.{CipherRecord}
use sec_search.Database.Server.{Server, Session}
use sec_search.Database.Dao.{batch_select_ciphers}
use sec_search.Decrypt.Record.{DecryptResult}
use sec_search.Decrypt.Pipeline.{State, start}

-- `IO_BATCH`.
abbrev pub io_batch : ℕ
io_batch = 32768

-- The ids from `offset` up to `end`.
abbrev pub slice : ℕ → ℕ → List ℕ → List ℕ
slice offset end ids = take (end - offset) (drop offset ids)

abbrev pub min : ℕ → ℕ → ℕ
min a b = if ltb b a then b else a

-- The loop over the offsets, on as much fuel as there are ids.
pub batches : ℕ → ℕ → ℕ → List ℕ → List (List ℕ)
batches size zero offset ids = []
batches size (suc fuel) offset ids =
    let rest = batches size fuel (offset + size) ids in
    if ltb offset (length ids)
    then slice offset (min (offset + size) (length ids)) ids ∷ rest
    else []

pub record DecryptStats : Type 0 where
  pub total : ℕ
  pub success_count : ℕ
  pub fail_count : ℕ

abbrev counted : DecryptResult → DecryptStats → DecryptStats
counted r s =
    if r.success
    then record s { total = s.total + 1; success_count = s.success_count + 1 }
    else record s { total = s.total + 1; fail_count = s.fail_count + 1 }

-- The statistics of a call, but for the time that it took.
pub stats_of : List DecryptResult → DecryptStats
stats_of [] = record { total = 0; success_count = 0; fail_count = 0 }
stats_of (r ∷ results) = counted r (stats_of results)

module _ (c : Primitives) (sv : Server) where
  pub read_batches : List (List ℕ) → Action (Session sv) (List CipherRecord)
  read_batches [] = pure []
  read_batches (ids ∷ more) = do
    records ← batch_select_ciphers sv ids
    others ← read_batches more
    pure (records ++ others)

  -- The machine as `decryptBatch` fills it.
  pub decrypt_batch : List ℕ → c.Env → Action (Session sv) (State c)
  unfolding read_batches
  decrypt_batch ids e = do
    records ← read_batches (batches io_batch (length ids) 0 ids)
    pure (start c records e)

pub concat {ℓ} : {A : Type ℓ} → List (List A) → List A
concat [] = []
concat (xs ∷ more) = xs ++ concat more

-- The statistics count every result.
pub stats_of-total :
    (results : List DecryptResult)
    → let s = stats_of results in
      (s.total ≡ length results) × (s.success_count + s.fail_count ≡ s.total)
unfolding stats_of
stats_of-total [] = (refl, omega arith)
stats_of-total (r ∷ results) = ground (arith, stats_of-total results)
