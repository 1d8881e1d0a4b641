-- ===== src/Crypto/Tests.antt =====
-- Runs of the crypto layer over the sample library.
use sec_search.Prelude.{
  ℕ, ◌+◌, ◌*◌, ◌/◌, ◌<◌, true, false, List, [], ◌∷◌, ◌++◌, none, some, Bytes, codes, length, get_or,
  take, ◌-◌, ◌%◌, ◌^◌, map, AreBytes, All, ok, throw, Error, ◌==◌, if◌then◌else◌, ◌≡◌, ◌≢◌, refl,
  ap, arith, ◌⊎◌, ◌↔◌,
}
use sec_search.Prelude.SortedMap.{lookup}
use sec_search.Crypto.Sample.{
  sample, sample_healthy, repeat, sample_primitives, sample_lawful, sample_mac, sample_mac_shape,
  sample_mac_differs, checksum,
}
use sec_search.Crypto.Base64.{base64_encode, base64_decode}
use sec_search.Crypto.Base64.RoundTrip.{base64_decode-encode}
use sec_search.Crypto.Hex.{bin_to_hex}
use sec_search.Crypto.Hex.RoundTrip.{length-bin_to_hex, IsHex, lower}
use sec_search.Crypto.KeyFile.{strip, read_key_from_file}
use sec_search.Crypto.KeyFile.Laws.{read_key_from_file_iff}
use sec_search.Crypto.Provider.{Host}
use sec_search.Crypto.Primitives.{IsPlain}
use sec_search.Crypto.Sm4Cipher
use sec_search.Crypto.Sm4Cipher.RoundTrip.{decrypt-encrypt}
use sec_search.Crypto.HmacSm3
use sec_search.Crypto.HmacSm3.Laws.{hmac_hex_lem}
use sec_search.Crypto.KeyManager.{
  KeyManager, KeyInfo, KeyType, KeyStatus, enc, tag, get_current_key_info, get_key_by_version,
  is_enabled, fresh, rotate_key, key_map, get_current_version,
}
use sec_search.Crypto.KeyManager.Loading.{load_from_database}
use sec_search.Crypto.KeyManager.Calls.{Call, run, run-IsValid, adds_key, rotates}
use sec_search.Crypto.KeyManager.Invariant.{IsValid}
use sec_search.Crypto.KeyManager.Rotation.{
  rotate_key_lem, rotate_key_keeps_keys, IsLatest, new_info, retired,
}
use sec_search.Crypto.KeyManager.Reload.{load_from_database_restores, insert_all, latest_enabled}
use sec_search.Crypto.CryptoService.{EncryptResult, encrypt_data, decrypt_data, is_destroyed}
use sec_search.Crypto.CryptoService.Laws.{decrypt_data-encrypt_data, decrypt_data_integrity}

abbrev key_a : Bytes
key_a = codes "0123456789abcdef"

abbrev key_b : Bytes
key_b = codes "1123456789abcdef"

abbrev message : Bytes
message = codes "hi"

abbrev host : Host sample
host = record { world = 5; live = 0 }

abbrev info_of : Bytes → ℕ → KeyInfo
info_of key v = record { key = key; version = v; status = KeyStatus.enabled }

-- Encryption version 2, tag version 1.
abbrev keys_a : KeyManager
keys_a = record fresh {
  enc_keys = (1, info_of key_b 1) ∷ (2, info_of key_a 2) ∷ [];
  current_enc_version = 2;
  tag_keys = (1, info_of key_a 1) ∷ [];
  current_tag_version = 1;
}

-- The same after a rotation of the tag key.
abbrev keys_b : KeyManager
keys_b = record keys_a {
  tag_keys = (1, info_of key_a 1) ∷ (3, info_of key_b 3) ∷ [];
  current_tag_version = 3;
}

message-IsPlain : IsPlain message
message-IsPlain = record { bytes = (omega arith, (omega arith, tt)); short = omega arith }

current_enc : get_current_key_info enc keys_a ≡ ok (info_of key_a 2)
unfolding get_current_key_info lookup
current_enc = refl

current_tag : get_current_key_info tag keys_a ≡ ok (info_of key_a 1)
unfolding get_current_key_info lookup
current_tag = refl

later_tag : get_current_key_info tag keys_b ≡ ok (info_of key_b 3)
unfolding get_current_key_info lookup
later_tag = refl

enc_2 : get_key_by_version enc 2 keys_a ≡ some key_a
unfolding get_key_by_version lookup
enc_2 = refl

tag_1 : get_key_by_version tag 1 keys_a ≡ some key_a
unfolding get_key_by_version lookup
tag_1 = refl

tag_2 : get_key_by_version tag 2 keys_a ≡ none
unfolding get_key_by_version lookup
tag_2 = refl

enabled_is : is_enabled KeyStatus.enabled ≡ true
unfolding is_enabled
enabled_is = refl

not_destroyed : is_destroyed KeyStatus.enabled ≡ false
unfolding is_destroyed
not_destroyed = refl

decrypt_data-encrypt_data_example :
    (x : EncryptResult) × ((encrypt_data sample_primitives keys_a message host).0 ≡ ok x)
    × ((decrypt_data sample_primitives keys_a x.cipher x.tag x.key_version host).0 ≡ ok message)
decrypt_data-encrypt_data_example =
    decrypt_data-encrypt_data sample_primitives sample_lawful keys_a keys_a (info_of key_a 2)
      (info_of key_a 1) (info_of key_a 1) message host host tt tt message-IsPlain current_enc
      enabled_is refl current_tag not_destroyed refl current_tag not_destroyed refl enc_2

no_tag : [] ≢ sample_lawful.mac key_a message
no_tag e = omega (
  arith,
  ap length e,
  length-bin_to_hex (sample_mac key_a message),
  (sample_mac_shape key_a message).0,
)

decrypt_data_integrity_example :
    (decrypt_data sample_primitives keys_a message [] 2 host).0 ≡ throw Error.integrity_check_failed
decrypt_data_integrity_example =
    decrypt_data_integrity sample_primitives sample_lawful keys_a (info_of key_a 1) message [] 2
      host tt (omega arith) current_tag not_destroyed refl no_tag

tags_differ : (s : Bytes) → sample_lawful.mac key_a s ≢ sample_lawful.mac key_b s
unfolding checksum
tags_differ s = sample_mac_differs key_a key_b s (omega arith)

decrypt-encrypt_example :
    (c : Bytes) × ((Sm4Cipher.encrypt sample message key_a host).0 ≡ ok c)
    × (length c ≡ 2 * (16 + 16 * (length message / 16 + 1)))
    × ((Sm4Cipher.decrypt sample c key_a host).0 ≡ ok message)
decrypt-encrypt_example =
    decrypt-encrypt sample sample_healthy message key_a (repeat 16 5) (true, []) (true, []) host
      host refl (omega arith) message-IsPlain.bytes refl refl refl

mac_a : (HmacSm3.hmac_hex sample message key_a host).0 ≡ ok (bin_to_hex (sample_mac key_a message))
mac_a =
    hmac_hex_lem sample sample_healthy message key_a ([], []) host (omega arith) (omega arith) refl

-- The manager behind a few calls.
abbrev calls : List Call
calls =
    adds_key 1 key_a 1 KeyStatus.enabled
    ∷ rotates enc (some key_b) 9
    ∷ adds_key 2 [] 1 KeyStatus.enabled
    ∷ []

run-IsValid_example : IsValid (run sample_primitives calls (host, fresh)).1
run-IsValid_example = run-IsValid sample_primitives calls host

enc_entry : lookup 2 (key_map keys_a enc) ≡ some (info_of key_a 2)
unfolding lookup
enc_entry = refl

rotate_key_lem_example :
    let m' = (rotate_key enc (some key_b) 9 keys_a).1 in
    ((rotate_key enc (some key_b) 9 keys_a).0 ≡ ok 3)
    × (get_current_version m' enc ≡ 3)
    × ((w : ℕ)
        → lookup w (key_map m' enc) ≡ (
            if w == 3
            then some (new_info key_b 3)
            else if w == 2
            then some (retired (info_of key_a 2))
            else lookup w (key_map keys_a enc)))
    × ((u : KeyType)
        → (u ≡ enc)
          ⊎ ((key_map m' u ≡ key_map keys_a u)
              × (get_current_version m' u ≡ get_current_version keys_a u)))
rotate_key_lem_example =
    rotate_key_lem enc key_b 9 (info_of key_a 2) keys_a enc_entry (omega arith) refl

keys_a-IsLatest : IsLatest enc keys_a
unfolding lookup
keys_a-IsLatest v h = ground arith

enc_1_present : lookup 1 (key_map keys_a enc) ≢ none
unfolding lookup
enc_1_present e = cc

rotate_key_keeps_keys_example :
    let m' = (rotate_key enc (some key_b) 9 keys_a).1 in
    IsLatest enc m' × (get_key_by_version enc 1 m' ≡ get_key_by_version enc 1 keys_a)
rotate_key_keeps_keys_example =
    rotate_key_keeps_keys enc 1 key_b 9 (info_of key_a 2) keys_a enc_entry (omega arith) refl
      keys_a-IsLatest enc_1_present

-- Version 1 is current, and version 2 has a key that was put in disabled.
abbrev keys_c : KeyManager
keys_c = record keys_a { current_enc_version = 1 }

enc_c : lookup 1 (key_map keys_c enc) ≡ some (info_of key_b 1)
unfolding lookup
enc_c = refl

keys_differ : key_a ≢ key_b
keys_differ e = omega (arith, ap (λ s. get_or s 0 0) e)

base64_decode-encode_example :
    base64_decode (base64_encode message)
    ≡ ok (
        if length message % 3 == 1
        then message ++ 0 ∷ []
        else if length message % 3 == 2
        then message
        else take (length message - 1) message)
base64_decode-encode_example = base64_decode-encode message message-IsPlain.bytes

abbrev key_text : Bytes
key_text = codes "00112233445566778899AABBCCDDEEFF"

read_key_from_file_iff_example : (read_key_from_file (some key_text) ≡ ok key_a) ↔ (
    (length (strip key_text) ≡ 32)
    × All IsHex (strip key_text)
    × AreBytes key_a
    × (length key_a ≡ 16)
    × (bin_to_hex key_a ≡ map lower (strip key_text)))
read_key_from_file_iff_example = read_key_from_file_iff key_text key_a

-- A row for each type, as `saveToDatabase` writes it: the key sealed under the KEK.
sealed_key :
    (s : Bytes) × ((Sm4Cipher.encrypt sample key_a key_b host).0 ≡ ok s)
    × sample_lawful.Seals key_b key_a s
    × (length s < 2 ^ 32)
    × sample_lawful.Ready (Sm4Cipher.encrypt sample key_a key_b host).1
sealed_key =
    sample_lawful.encrypt-Seals key_a key_b host tt
      (record { bytes = key_a-AreBytes; short = omega arith }) refl
  where
    key_a-AreBytes : AreBytes key_a
    key_a-AreBytes = ground arith

abbrev plain_keys : KeyType → List KeyInfo
plain_keys t = info_of key_a 4 ∷ []

abbrev saved_keys : KeyType → List KeyInfo
saved_keys t = info_of sealed_key.0 4 ∷ []

load_from_database_restores_example :
    let (r, s') = load_from_database sample_primitives saved_keys key_b (host, fresh) in
    (r ≡ ok tt)
    × (s'.1.kek ≡ key_b)
    × ((t : KeyType)
        → (key_map s'.1 t ≡ insert_all (plain_keys t) [])
          × (get_current_version s'.1 t ≡ latest_enabled 0 (plain_keys t)))
load_from_database_restores_example =
    load_from_database_restores sample_primitives sample_lawful plain_keys saved_keys key_b
      (host, fresh) tt refl (λ t. ((refl, refl, refl, sealed_key.2), tt)) (λ t e. cc)
