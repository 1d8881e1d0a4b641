-- ===== src/Decrypt/Tests.antt =====
-- Records that are opened and refused over the sample library.
use sec_search.Prelude.{
  ◌<◌, ◌^◌, [], ◌∷◌, some, Bytes, codes, length, AreBytes, ◌≡◌, ◌≢◌, refl, ap, arith, ok,
}
use sec_search.Prelude.SortedMap.{lookup}
use sec_search.Crypto.Hex.RoundTrip.{length-bin_to_hex}
use sec_search.Crypto.Provider.{Host}
use sec_search.Crypto.Sample.{
  sample, sample_primitives, sample_lawful, sample_mac, sample_mac_shape,
}
use sec_search.Crypto.Sm4Cipher
use sec_search.Crypto.KeyManager.{KeyManager, KeyStatus, fresh, enc, tag, get_key_by_version}
use sec_search.Database.{CipherRecord, FieldType}
use sec_search.Decrypt.Record.{opened, decrypt_one_record}
use sec_search.Decrypt.Record.Laws.{decrypt_one_record_opens}

abbrev key : Bytes
key = codes "0123456789abcdef"

abbrev host : Host sample
host = record { world = 5; live = 0 }

abbrev manager : KeyManager
manager = record fresh {
  enc_keys = (1, record { key = key; version = 1; status = KeyStatus.enabled }) ∷ [];
  tag_keys = (1, record { key = key; version = 1; status = KeyStatus.enabled }) ∷ [];
}

abbrev forged : CipherRecord
forged = record {
  id = 7;
  cipher = codes "00";
  tag = [];
  field_type = FieldType.name;
  enc_key_version = 1;
}

enc_1 : get_key_by_version enc 1 manager ≡ some key
unfolding get_key_by_version lookup
enc_1 = refl

tag_1 : get_key_by_version tag 1 manager ≡ some key
unfolding get_key_by_version lookup
tag_1 = refl

no_tag : [] ≢ sample_lawful.mac key (codes "00")
no_tag e = omega (
  arith,
  ap length e,
  length-bin_to_hex (sample_mac key (codes "00")),
  (sample_mac_shape key (codes "00")).0,
)

message-AreBytes : AreBytes (codes "hi")
message-AreBytes = ground arith

sealed :
    (s : Bytes) × ((Sm4Cipher.encrypt sample (codes "hi") key host).0 ≡ ok s)
    × sample_lawful.Seals key (codes "hi") s
    × (length s < 2 ^ 32)
    × sample_lawful.Ready (Sm4Cipher.encrypt sample (codes "hi") key host).1
sealed =
    sample_lawful.encrypt-Seals (codes "hi") key host tt
      (record { bytes = message-AreBytes; short = omega arith }) refl

abbrev stored : CipherRecord
stored = record {
  id = 7;
  cipher = sealed.0;
  tag = sample_lawful.mac key sealed.0;
  field_type = FieldType.name;
  enc_key_version = 1;
}

decrypt_one_record_opens_example :
    ((decrypt_one_record sample_primitives manager stored host).0 ≡ opened (codes "hi"))
    × sample_lawful.Ready (decrypt_one_record sample_primitives manager stored host).1
decrypt_one_record_opens_example =
    decrypt_one_record_opens sample_primitives sample_lawful manager stored key key (codes "hi")
      host tt sealed.3 refl refl tag_1 enc_1 refl sealed.2
