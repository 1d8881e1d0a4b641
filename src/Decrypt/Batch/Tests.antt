-- ===== src/Decrypt/Batch/Tests.antt =====
-- Batches of two, and three ids on a server in memory.
use sec_search.Prelude.{List, [], ◌∷◌, ok, ◌≡◌, ◌↔◌, refl, All}
use sec_search.Crypto.Sample.{sample, sample_primitives}
use sec_search.Crypto.Provider.{Host}
use sec_search.Database.{CipherRecord}
use sec_search.Database.Server.{Session}
use sec_search.Database.Server.Tables.{Tables}
use sec_search.Database.Server.Memory.{memory, fresh}
use sec_search.Decrypt.Pipeline.{State, start}
use sec_search.Decrypt.Batch.{batches, concat, io_batch, decrypt_batch}
use sec_search.Decrypt.Batch.Reads.{IsBatch, Selects, decrypt_batch_asks}

batches_of_two :
    batches 2 5 0 (1 ∷ 2 ∷ 3 ∷ 4 ∷ 5 ∷ []) ≡ (1 ∷ 2 ∷ []) ∷ (3 ∷ 4 ∷ []) ∷ (5 ∷ []) ∷ []
unfolding batches
batches_of_two = refl

abbrev no_rows : Tables
no_rows = record {
  sensitive_data = [];
  next_id = 1;
  fuzzy_inverted = [];
  key_config = [];
  index_rebuild_task = [];
  next_task = 1;
}

abbrev host : Host sample
host = record { world = 5; live = 0 }

abbrev session : Session memory
session = record { world = fresh 9 no_rows; statements = 0 }

abbrev read : Session memory
read = (decrypt_batch sample_primitives memory (7 ∷ 8 ∷ 9 ∷ []) host session).1

abbrev machine : State sample_primitives
machine = start sample_primitives [] host

decrypt_batch_asks_example :
    (concat (batches io_batch 3 0 (7 ∷ 8 ∷ 9 ∷ [])) ≡ 7 ∷ 8 ∷ 9 ∷ [])
    × All (IsBatch io_batch) (batches io_batch 3 0 (7 ∷ 8 ∷ 9 ∷ []))
    × ((decrypt_batch sample_primitives memory (7 ∷ 8 ∷ 9 ∷ []) host session ≡ (ok machine, read))
        ↔ ((rows : List (List CipherRecord)) × Selects sample_primitives memory
              (batches io_batch 3 0 (7 ∷ 8 ∷ 9 ∷ []))
              rows
              session
              read
            × (machine ≡ start sample_primitives (concat rows) host)))
decrypt_batch_asks_example =
    decrypt_batch_asks sample_primitives memory (7 ∷ 8 ∷ 9 ∷ []) host machine session read
