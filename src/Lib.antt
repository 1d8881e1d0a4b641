-- ===== src/Lib.antt =====
-- SecSearch keeps sensitive records in MySQL in encrypted form and searches them by blind indexes.
-- This library models its C++ code and states what that code guarantees.
--
-- The parts and how they interact:
--   * `src/crypto` has the ciphers and the keys. `utils.cpp` converts bytes to text and reads key
--     files; `sm4_cipher.cpp` and `sm3_hash.cpp` call OpenHiTLS; `key_manager.cpp` holds the keys
--     of the three types by version; `crypto_service.cpp` encrypts a field under the current keys.
--   * `src/decrypt/batch_decryptor.cpp` decrypts a list of records on worker threads, behind a
--     bounded queue, and gives the results back in the order of the records.
--   * `src/query/query_service.cpp` limits and answers the queries; a fuzzy query looks for the
--     tokens that `splitBigram` of `src/database/dao.cpp` cuts a keyword into.
--   * `src/database/connection_pool.cpp` lends the connections to MySQL on which the DAO,
--     `src/database/dao.cpp`, prepares and runs its statements; `src/database/transaction.cpp` is
--     the transaction that some of them stand in.
--   * `src/audit/index_rebuilder.cpp` rebuilds the blind indexes and the postings of a range of
--     records under the current keys; `src/audit/audit_logger.cpp` writes the audit log.
--   * `src/main.cpp` is the console program: it loads the keys or makes them, rotates them when
--     they are old, and carries out what the user chooses from a menu, with the keys in global
--     variables beside the key manager.
-- Files:
--   * Prelude: lists of bytes, results (`Result`, for exceptions), `Action` (state and exceptions,
--     where the state outlives a throw), sorted maps for `std::map`, bits.
--   * Crypto/Base64, Crypto/Hex, Crypto/KeyFile: `src/crypto/utils.cpp`, function by function
--     (base64Encode is base64_encode, and so on). The content of a key file is an argument.
--   * Crypto/Provider: OpenHiTLS as a parameter, with what its documentation says as `Healthy`.
--     Crypto/Sample is a concrete library of which `Healthy` holds.
--   * Crypto/Sm4Cipher, Crypto/HmacSm3: `src/crypto/sm4_cipher.cpp`, `src/crypto/sm3_hash.cpp`.
--     The state is the library's and the number of contexts that are open; the casts to
--     `uint32_t` are written out.
--   * Crypto/Primitives: what the rest of the program uses of those two files, as an interface;
--     Crypto/Primitives/FromProvider fills it.
--   * Crypto/KeyManager: `src/crypto/key_manager.cpp`. The maps are sorted association lists, the
--     versions natural numbers up to `int_max`, where the increment throws instead of overflowing.
--   * Crypto/CryptoService: `src/crypto/crypto_service.cpp`.
--   * Database: the record types of `include/database/dao.h`. Database/ConnectionPool:
--     `src/database/connection_pool.cpp` over the MySQL client library as a parameter.
--   * Database/Server: the SQL texts of the program with their bound values, as a data type
--     (`Statement`), and the client library's calls on statements as a parameter (`Server`).
--     `effect` and `answer` say what a statement does on the tables of `create_table.sql`
--     (Server/Tables, Server/Answers), `Lawful` and `Answering` what MySQL documents of the calls
--     by them, on one connection while no other writes, and `Complete` that fetches do not fail;
--     Server/Memory is a server for which all three hold. A `Session` counts the statements that
--     are open.
--   * Database/Transaction: `src/database/transaction.cpp`. Database/Dao: `src/database/dao.cpp`,
--     function by function: Dao (the selects and the fuzzy index), Dao/Records (insert, update,
--     delete), Dao/Keys (key_config), Dao/Tasks (index_rebuild_task), Dao/SaveKey (saveToDatabase
--     of `src/crypto/key_manager.cpp`). An id of the database is a natural number. The modules
--     below prove what the writes leave (Atomic, Insert), that no statement stays open (Calls),
--     and what a search finds (Search, Found).
--   * Rebuild: `src/audit/index_rebuilder.cpp`. Audit: `src/audit/audit_logger.cpp`.
--   * Decrypt/Record: decryptOneRecord of `src/decrypt/batch_decryptor.cpp`. Decrypt/Pipeline:
--     decryptRecords with its threads, as a machine whose moves are what one thread does under a
--     lock; a schedule is any list of moves, and the theorems hold for every schedule. It leaves the
--     condition variables out; Decrypt/Pipeline/Threads has them over it, with the threads that
--     sleep on each and what each `notify_one` wakes. Decrypt/Batch: decryptBatch, which reads
--     first and then fills the machine, and the statistics.
--   * Query/Limits: the three checks of `src/query/query_service.cpp`, with the time an argument.
--     Query/Bigram: splitBigram of `src/database/dao.cpp`. Query/Records: fetchFullRecords, over
--     the selects of the DAO as an interface (`Dao`); the batch is decrypted in the order of the
--     records, which by Decrypt/Pipeline is what every schedule gives back. Query/Service:
--     exactQuery and fuzzyQuery; Query/Service/Statements gives them the selects of Database/Dao.
--
--   * Console: the global variables of `src/main.cpp` and the connections of its parts (`App`).
--     Console/Start has the load of the KEK and the keys; Console/Rotation checkAndAutoRotate and
--     keyManagement; Console/Records the other choices of the menu; Console/Input the questions, on
--     a list of the lines to come; Console/Menu the main loop, on a list of the rounds to come. The
--     clock, the random keys, the request ids and the texts of the exceptions come from outside.
--     Crypto/KeyManager/RotateTime has the file of the rotation time, and Prelude/Decimal what
--     std::stoi and std::stoll make of a text. Console/Sample is the program that the tests run.
--
-- Characters are bytes, but for two messages of the console, which are code points. Locks leave no
-- trace, since every method that takes one is one step. Three functions are on fuel: base64_decode
-- is given the length of the text, and each round reads at least one character; the loop over the
-- rows of a result is given one round more than there are rows; the loop of run_task is given two
-- rounds more than its last id, and gives `none` if they do not suffice; the loop over the offsets
-- of decryptBatch is given as many as there are ids. The counts and ids of the rebuilder are
-- natural numbers: the loop of run_task is the code's as long as a batch above its last id is an
-- int64_t, which Rebuild/Ends has as a hypothesis (`batch_end` is the code's sum, which wraps).
--
-- Not modelled: the progress report of decryptRecords, the errors that its workers log and the
-- destructor that stops them; the progress callback of runTask; the request ids and the
-- warnings on the console of the audit log; of `src/main.cpp` the
-- questions for the connection, the password prompt, the initialisation of OpenHiTLS and all
-- output, and a field code or a start id below 0 for a rebuild, which is taken as 0; the vendored
-- headers of OpenHiTLS, GmSSL and MySQL; the tests and benchmarks.
pub mod Prelude
pub mod Crypto
pub mod Database
pub mod Decrypt
pub mod Query
pub mod Rebuild
pub mod Audit
pub mod Console
