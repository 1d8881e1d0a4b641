-- ===== src/Console/Start/Overwrites.antt =====
-- What a start of src/main.cpp does when the keys cannot be loaded.
use sec_search.Prelude.{
  map, List, ℕ, ◌<◌, Bytes, length, Result, ok, throw, Error, ◌≡◌, refl, arith, ◌⊎◌, inl, inr,
}
use sec_search.Prelude.Action.{Action, pure, ◌>>=◌, ◌>>◌}
use sec_search.Prelude.Triple.{Post, Triple, Triple-bind, Post-weaken, Returns, after-Returns}
use sec_search.Crypto.Primitives.{Primitives, IsPlain}
use sec_search.Crypto.Primitives
use sec_search.Crypto.KeyManager.Loading.Kek.{load_from_database-kek}
use sec_search.Crypto.KeyManager.{KeyInfo, KeyStatus, KeyType, enc, idx, tag}
use sec_search.Database.ConnectionPool.{Mysql}
use sec_search.Database.Server.{Server, Session, Statement, KeyRow}
use sec_search.Database.Server.Tables.{Tables, effect}
use sec_search.Database.Server.Lawful.{Lawful}
use sec_search.Database.Server.Effects.{At}
use sec_search.Database.Transaction.Atomic.{outside}
use sec_search.Database.Dao.Records.{Store, on_session}
use sec_search.Database.Dao.Keys.{load_all_keys_from_config, none_on_failure, key_info}
use sec_search.Database.Dao.SaveKey.{Saved, key_row, save_to_database, save_to_database_ready}
use sec_search.Console.{App, on_store}
use sec_search.Console.Rotation.{type_number, save_key}
use sec_search.Console.Start.{
  sixteen, load_rows, load_from_config, save_initial_keys, or_initialise, load_or_initialise,
}

module _ (c : Primitives) (db : Mysql) (sv : Server) where
  load_all_keys_from_config-Returns :
      (key_type : ℕ) → Returns (load_all_keys_from_config sv key_type)
  unfolding load_all_keys_from_config none_on_failure
  load_all_keys_from_config-Returns key_type s = through _
    where
      through :
          (r : Result (List KeyRow) × Session sv)
          → (a : List KeyInfo) × ((((λ s'. none_on_failure r) >>= λ rows.
                  pure (map (λ row. key_info row) rows))
                s).0
              ≡ ok a)
      through (ok rows, s') = (_, refl)
      through (throw e, s') = (_, refl)

  -- The KEK is in use after a load, whether it returns or throws.
  load_from_config-kek :
      (kek : Bytes) (s : App c db sv) → (load_from_config c db sv kek s).1.keys.kek ≡ kek
  unfolding load_from_config load_rows
  load_from_config-kek kek =
      after-Returns (λ s. s.keys.kek ≡ kek) (rows_of_type 1) _ (rows_of_type-Returns 1)
        λ e.
          after-Returns (λ s. s.keys.kek ≡ kek) (rows_of_type 2) _ (rows_of_type-Returns 2)
            λ i.
              after-Returns (λ s. s.keys.kek ≡ kek) (rows_of_type 3) _ (rows_of_type-Returns 3)
                λ t s. load_from_database-kek c _ kek (s.store.env, s.keys)
    where
      rows_of_type : ℕ → Action (App c db sv) (List KeyInfo)
      rows_of_type n = on_store c db sv (on_session c sv (load_all_keys_from_config sv n))

      rows_of_type-Returns : (n : ℕ) → Returns (rows_of_type n)
      rows_of_type-Returns n s = load_all_keys_from_config-Returns n s.store.session

module _ (c : Primitives) (lc : Primitives.Lawful c) (db : Mysql) (sv : Server) (law : Lawful sv)
    (kek : Bytes) where
  -- The table with one row more, or another in place of the one with its type and version: enabled,
  -- and its cipher opens to `key` under the KEK.
  abbrev pub with_key : KeyType → Bytes → Tables → Tables
  with_key t cipher u =
      effect (Statement.save_key (key_row (type_number t) 1 KeyStatus.enabled cipher)) u

  -- The crypto library is ready, the KEK is in use, and the tables are `u`, outside a transaction.
  abbrev pub Holds : Tables → App c db sv → Type 0
  Holds u s = lc.Ready s.store.env × (s.keys.kek ≡ kek) × At sv law (outside u) s.store.session

  abbrev pub TablesAre : Tables → App c db sv → Type 0
  TablesAre u s = At sv law (outside u) s.store.session

  save_key-Holds :
      (t : KeyType) (key : Bytes) (u : Tables)
      → IsPlain key
      → length kek ≡ 16
      → Triple
          (Holds u)
          (save_key c db sv t key 1)
          (λ _ s. (cipher : Bytes) × lc.Seals kek key cipher × Holds (with_key t cipher u) s)
          (TablesAre u)
  unfolding save_key
  save_key-Holds t key u plain size s (ready, same, at) =
      through (save_to_database c sv s.keys (type_number t) key 1 KeyStatus.enabled s.store) (
        save_to_database_ready c lc sv law s.keys (type_number t) key 1 KeyStatus.enabled u s.store
          ready plain (rw same size) at)
    where
      through :
          (r : Result (Unit {0}) × Store c sv)
          → Post
              (λ _ s'.
                Saved c lc sv law s.keys.kek key (type_number t) 1 KeyStatus.enabled u s'
                × lc.Ready s'.env)
              (λ s'. At sv law (outside u) s'.session)
              r
          → Post
              (λ _ s'. (cipher : Bytes) × lc.Seals kek key cipher × Holds (with_key t cipher u) s')
              (TablesAre u)
              (r.0, record s { store = r.1 })
      through (ok a, st) ((cipher, sealed, at'), ready') =
          (cipher, rw same at sealed, (ready', same, at'))
      through (throw e, st) at' = at'

  sixteen-IsPlain : (b : ℕ) → b < 256 → IsPlain (sixteen b)
  sixteen-IsPlain b h = record { bytes = omega arith; short = omega arith }

  -- The tables with the three constant keys as version 1, each sealed under the KEK.
  pub record Initialised (t : Tables) (s : App c db sv) : Type 0 where
    pub enc_cipher : Bytes
    pub idx_cipher : Bytes
    pub tag_cipher : Bytes
    pub enc_sealed : lc.Seals kek (sixteen 0xA0) enc_cipher
    pub idx_sealed : lc.Seals kek (sixteen 0xB0) idx_cipher
    pub tag_sealed : lc.Seals kek (sixteen 0xC0) tag_cipher
    pub stored :
        TablesAre (with_key tag tag_cipher (with_key idx idx_cipher (with_key enc enc_cipher t))) s

  -- The tables as they were, or with the first one or two of the keys.
  abbrev pub Begun : Tables → App c db sv → Type 0
  Begun t s =
      TablesAre t s
      ⊎ ((a : Bytes) × TablesAre (with_key enc a t) s)
      ⊎ ((a : Bytes) × (b : Bytes) × TablesAre (with_key idx b (with_key enc a t)) s)

  -- The row that a constant key is saved as.
  abbrev Stored : KeyType → Bytes → Tables → App c db sv → Type 0
  Stored t key u s = (cipher : Bytes) × lc.Seals kek key cipher × Holds (with_key t cipher u) s

  constant-Stored :
      (t : KeyType) (b : ℕ) (u : Tables) (F : App c db sv → Type 0)
      → b < 256
      → length kek ≡ 16
      → ((s : App c db sv) → TablesAre u s → F s)
      → Triple (Holds u) (save_key c db sv t (sixteen b) 1) (λ _. Stored t (sixteen b) u) F
  constant-Stored t b u F small size f s h =
      Post-weaken _ _ (TablesAre u) F (save_key c db sv t (sixteen b) 1 s) (λ _ s' x. x) f
        (save_key-Holds t (sixteen b) u (sixteen-IsPlain b small) size s h)

  pub save_initial_keys-Initialised :
      (t : Tables)
      → length kek ≡ 16
      → Triple (Holds t) (save_initial_keys c db sv) (λ _. Initialised t) (Begun t)
  unfolding save_initial_keys
  save_initial_keys-Initialised t size =
      Triple-bind (Holds t) (save_key c db sv enc (sixteen 0xA0) 1)
        (λ _. Stored enc (sixteen 0xA0) t) (Begun t) _ (λ _. Initialised t)
        (constant-Stored enc 0xA0 t (Begun t) (omega arith) size (λ s x. inl x))
        λ _ s (a, a_seal, h).
          Triple-bind (Holds (with_key enc a t)) (save_key c db sv idx (sixteen 0xB0) 1)
            (λ _. Stored idx (sixteen 0xB0) (with_key enc a t)) (Begun t) _ (λ _. Initialised t)
            (constant-Stored idx 0xB0 _ (Begun t) (omega arith) size (λ s' x. inr (inl (a, x))))
            (λ _ s' (b, b_seal, h').
              Post-weaken (λ _. Stored tag (sixteen 0xC0) (with_key idx b (with_key enc a t)))
                (λ _. Initialised t) (Begun t) (Begun t) (save_key c db sv tag (sixteen 0xC0) 1 s')
                (λ _ s'' (d, d_seal, h''). record {
                  enc_cipher = a;
                  idx_cipher = b;
                  tag_cipher = d;
                  enc_sealed = a_seal;
                  idx_sealed = b_seal;
                  tag_sealed = d_seal;
                  stored = h''.2;
                })
                (λ s'' x. x)
                (constant-Stored tag 0xC0 _ (Begun t) (omega arith) size
                  (λ s'' x. inr (inr (a, b, x))) s' h'))
            s h

  -- If the load throws, and it leaves the tables `t` outside a transaction and the crypto library
  -- ready, then whatever it threw for, the start saves the three constant keys and loads again: once
  -- they are saved, each of the types has a row of version 1 that opens to the constant, in place of
  -- any that it had; if a save throws, the tables are as they were or have the first of these rows.
  pub load_or_initialise_overwrites :
      (t : Tables) (s s1 : App c db sv) (e : Error)
      → length kek ≡ 16
      → load_from_config c db sv kek s ≡ (throw e, s1)
      → lc.Ready s1.store.env
      → TablesAre t s1
      → (load_or_initialise c db sv kek s
          ≡ (save_initial_keys c db sv >> load_from_config c db sv kek) s1)
        × Post (λ _. Initialised t) (Begun t) (save_initial_keys c db sv s1)
  unfolding load_or_initialise or_initialise
  load_or_initialise_overwrites t s s1 e size failed ready at =
      (rw failed refl, save_initial_keys-Initialised t size s1 (ready, same, at))
    where
      same : s1.keys.kek ≡ kek
      same = rw failed at (load_from_config-kek c db sv kek s)
