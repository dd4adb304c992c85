-- ===== src/Cache/Tests.antt =====
-- The cache's theorems at concrete inputs, over formats in which every array is a number.
mod Stores
mod Policies
use liquid_cache.Prelude.{ℕ, ◌≡◌, refl, sym, Option, none, some, arith, isize_limit}
use liquid_cache.Cache.Entry.{
  Formats, IsSized, CacheEntry, memory_arrow, memory_liquid, SqueezedBacking, liquid_backing,
  arrow_backing,
}
use liquid_cache.Cache.Entry.Meaning.{Lossless}
use liquid_cache.Cache.Squeeze.{transcode_squeeze_evict}
use liquid_cache.Cache.Squeeze.Laws.{IsSqueezePolicy, policies-IsSqueezePolicy}
use liquid_cache.Cache.Hydrate.Laws.{KeepsBacking}

pub some-injective : (a b : ℕ) → some a ≡ some b → a ≡ b
some-injective a b e = ground (arith, e)

pub pair-injective : (a b c d : ℕ) → ◌≡◌ {A = Option (ℕ × ℕ)} (some (a, b)) (some (c, d)) → d ≡ b
pair-injective a b c d e = ground (arith, e)

pub none-some : (a b : ℕ) → ¬ (◌≡◌ {A = Option (ℕ × ℕ)} none (some (a, b)))
none-some a b e = ground (arith, e)

-- An array is its value; it takes 100 bytes as Arrow, 40 as Liquid and 10 squeezed.
abbrev pub toy : Formats
toy = record {
  Arrow = ℕ;
  Liquid = ℕ;
  Squeezed = ℕ;
  DataType = Unit {0};
  Bytes = ℕ;
  Hint = Unit {0};
  arrow_size = λ a. 100;
  liquid_size = λ l. 40;
  squeezed_size = λ s. 10;
  bytes_len = λ b. 64;
  arrow_type = λ a. tt;
  liquid_type = λ l. tt;
  squeezed_type = λ s. tt;
  disk_backing = λ s. liquid_backing;
  arrow_to_bytes = λ a. a;
  liquid_to_bytes = λ l. l;
  transcode = λ a h. some a;
  squeeze_liquid = λ l h. some (l, l);
  variant_squeeze = λ a h. none;
}

abbrev pub toy_lossless : Lossless toy
toy_lossless = record {
  Value = ℕ;
  arrow_value = λ a. a;
  liquid_value = λ l. l;
  decode_arrow = λ b. b;
  decode_liquid = λ b. b;
  arrow_bytes = λ a. refl;
  liquid_bytes = λ l. refl;
  transcode_value = λ a h l e. some-injective l a (sym e);
  squeeze_backing = λ l h s b e. (refl, pair-injective l l s b e);
  variant_backing = λ a h s b e. absurd (none-some s b e);
}

pub toy-IsSized : IsSized toy
toy-IsSized = record {
  arrow_fits = λ a. omega arith;
  liquid_fits = λ l. omega arith;
  squeezed_fits = λ s. omega arith;
}

abbrev pub no_hint : ℕ → Option (toy.Hint)
no_hint id = none

pub toy_law : IsSqueezePolicy toy_lossless transcode_squeeze_evict
toy_law = (policies-IsSqueezePolicy toy_lossless).1

abbrev pub no_paths : ℕ → ℕ → Option (toy.Hint) → Option ℕ
no_paths a s h = none
