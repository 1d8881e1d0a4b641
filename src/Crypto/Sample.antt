-- ===== src/Crypto/Sample.antt =====
-- A library that is always ready: "encryption" puts the padding in front of the message, and the
-- MAC repeats a checksum. It shows that `Healthy` and `Lawful` can hold, and serves the tests.
use sec_search.Prelude.{
  ℕ, zero, suc, ◌+◌, ◌-◌, ◌*◌, ◌/◌, ◌%◌, ◌<◌, Bool, true, false, [], ◌∷◌, ◌++◌, some, Bytes, length,
  length-append, drop, drop-append, All-append, IsByte, AreBytes, ◌≢◌, sym, ◌∙◌, Result, ok, ◌≡◌,
  refl, arith, ap,
}
use mathlib.Core.Option.{some-injective}
use sec_search.Crypto.Hex.{bin_to_hex, hex_to_bin}
use sec_search.Crypto.Hex.RoundTrip.{hex_to_bin-bin_to_hex}
use sec_search.Crypto.Provider.{Provider, Healthy}
use sec_search.Crypto.Primitives.{Primitives, Lawful}
use sec_search.Crypto.Primitives.FromProvider.{primitives, lawful}

pub repeat : ℕ → ℕ → Bytes
repeat zero b = []
repeat (suc n) b = b ∷ repeat n b

length-repeat : (n b : ℕ) → length (repeat n b) ≡ n
unfolding repeat
length-repeat zero b = refl
length-repeat (suc n) b = ap suc (length-repeat n b)

repeat-AreBytes : (n b : ℕ) → b < 256 → AreBytes (repeat n b)
unfolding repeat
repeat-AreBytes zero b h = tt
repeat-AreBytes (suc n) b h = (h, repeat-AreBytes n b h)

pad_size : Bytes → ℕ
pad_size m = 16 - length m % 16

pub pad : Bytes → Bytes
unfolding pad_size repeat
pad m = repeat (pad_size m) (pad_size m) ++ m

pub unpad : Bytes → Bytes
unpad [] = []
unpad (n ∷ s) = drop n (n ∷ s)

pub length-pad : (m : Bytes) → length (pad m) ≡ (length m / 16 + 1) * 16
unfolding pad pad_size
length-pad m = omega (
  arith,
  length-append (repeat (pad_size m) (pad_size m)) m,
  length-repeat (pad_size m) (pad_size m),
)

pub pad-AreBytes : (m : Bytes) → AreBytes m → AreBytes (pad m)
unfolding pad pad_size
pad-AreBytes m h =
    All-append IsByte (repeat (pad_size m) (pad_size m)) m (repeat-AreBytes _ _ (omega arith)) h

unpad-repeat : (n : ℕ) (m : Bytes) → 0 < n → unpad (repeat n n ++ m) ≡ m
unfolding unpad repeat
unpad-repeat zero m h = elim h [ ]
unpad-repeat (suc n) m h = drop-append n (repeat n (suc n)) m (length-repeat n (suc n))

pub unpad-pad : (m : Bytes) → unpad (pad m) ≡ m
unfolding pad pad_size
unpad-pad m = unpad-repeat (16 - length m % 16) m (omega arith)

unfoldable pub checksum : Bytes → ℕ
checksum [] = 0
checksum (b ∷ s) = (b + 2 * checksum s) % 256

pub sample_mac : Bytes → Bytes → Bytes
unfolding checksum repeat
sample_mac key m = repeat 32 ((checksum key + checksum m) % 256)

-- The world counts the draws, so that they differ; a context keeps what it was given.
abbrev pub sample : Provider
sample = record {
  World = ℕ;
  CipherCtx = Bool × Bytes;
  MacCtx = Bytes × Bytes;
  rand_bytes = λ n w. (some (repeat n (w % 256)), w + 1);
  cipher_new_ctx = λ w. (some (true, []), w);
  cipher_free_ctx = λ ctx w. w;
  cipher_init = λ ctx key iv enc. (0, (enc, []));
  cipher_set_padding = λ ctx. (0, ctx);
  cipher_update = λ ctx input room. (0, [], (ctx.0, input));
  cipher_final = λ ctx room. (0, elim (ctx.0) [ true ↦ pad ctx.1 | false ↦ unpad ctx.1 ], ctx);
  mac_new_ctx = λ w. (some ([], []), w);
  mac_free_ctx = λ ctx w. w;
  mac_init = λ ctx key. (0, (key, []));
  mac_update = λ ctx m. (0, (ctx.0, m));
  mac_final = λ ctx room. (0, sample_mac ctx.0 ctx.1, ctx);
}

pub draw_shape :
    (n w : ℕ) (iv : Bytes) → some (repeat n (w % 256)) ≡ some iv → (length iv ≡ n) × AreBytes iv
draw_shape n w iv e =
    rw (← some-injective (repeat n (w % 256)) iv e)
      (length-repeat n (w % 256), repeat-AreBytes n (w % 256) (omega arith))

pub sample_mac_shape :
    (key m : Bytes) → (length (sample_mac key m) ≡ 32) × AreBytes (sample_mac key m)
unfolding sample_mac
sample_mac_shape key m = (
  length-repeat 32 ((checksum key + checksum m) % 256),
  repeat-AreBytes 32 ((checksum key + checksum m) % 256) (omega arith),
)

abbrev pub sample_healthy : Healthy sample
sample_healthy = record {
  Ready = λ w. Unit {0};
  rand_ready = λ n w r. (repeat n (w % 256), refl, tt);
  cipher_ready = λ w r. ((true, []), refl, tt);
  cipher_frees = λ ctx w r. tt;
  mac_ready = λ w r. (([], []), refl, tt);
  mac_frees = λ ctx w r. tt;
  cbc = λ key iv m. pad m;
  hmac = sample_mac;
  rand_bytes-length = draw_shape;
  cbc_shape = λ key iv m h. (length-pad m, pad-AreBytes m h);
  encrypts = λ ctx key iv m k l. (
    [],
    pad m,
    record {
      inited = refl;
      padded = refl;
      updated = refl;
      written = refl;
      finished = refl;
      flushed = refl;
      fits = omega (arith, length-pad m);
    },
    refl,
  );
  decrypts = λ ctx key iv m k l. (
    [],
    m,
    record {
      inited = refl;
      padded = refl;
      updated = refl;
      written = refl;
      finished = refl;
      flushed = unpad-pad m;
      fits = omega (arith, length-pad m);
    },
    refl,
  );
  hmac_shape = sample_mac_shape;
  mac_inits = λ ctx key. refl;
  mac_updates = λ ctx key m. refl;
  mac_finishes = λ ctx key m. (refl, refl);
}

abbrev pub sample_primitives : Primitives
sample_primitives = primitives sample

abbrev pub sample_lawful : Lawful sample_primitives
sample_lawful = lawful sample sample_healthy

-- Keys whose checksums differ give every message two MACs.
pub sample_mac_differs :
    (k k' m : Bytes)
    → checksum k % 256 ≢ checksum k' % 256
    → bin_to_hex (sample_mac k m) ≢ bin_to_hex (sample_mac k' m)
unfolding sample_mac repeat
sample_mac_differs k k' m h e =
    let x = sample_mac k m in
    let y = sample_mac k' m in
    let same : ok x ≡ ok y =
      sym (hex_to_bin-bin_to_hex x (sample_mac_shape k m).1)
      ∙ ap hex_to_bin e
      ∙ hex_to_bin-bin_to_hex y (sample_mac_shape k' m).1 in
    let first : (checksum k + checksum m) % 256 ≡ (checksum k' + checksum m) % 256 =
      ap first_of same in
    h (omega arith)
  where
    first_of : Result Bytes → ℕ
    first_of (ok (b ∷ s)) = b
    first_of _ = 0
