-- ===== src/Cache/Entry/Meaning.antt =====
-- What an entry stands for: a value, with the file of the entry where the data is on disk.
use liquid_cache.Prelude.{◌≡◌, Option, none, some}
use liquid_cache.Cache.Entry.{Formats, CacheEntry, SqueezedBacking, liquid_backing, arrow_backing}

-- The conversions between formats lose nothing: an array decoded, transcoded or written and read
-- back has the value that it had. Squeezing writes the full data to the backing that it reports.
pub record Lossless (F : Formats) : Type 1 where
  pub Value : Type 0
  pub arrow_value : F.Arrow → Value
  pub liquid_value : F.Liquid → Value
  pub decode_arrow : F.Bytes → F.Arrow
  pub decode_liquid : F.Bytes → F.Liquid
  pub arrow_bytes : (a : F.Arrow) → arrow_value (decode_arrow (F.arrow_to_bytes a)) ≡ arrow_value a
  pub liquid_bytes :
      (l : F.Liquid) → liquid_value (decode_liquid (F.liquid_to_bytes l)) ≡ liquid_value l
  pub transcode_value :
      (a : F.Arrow) (h : Option F.Hint) (l : F.Liquid)
      → F.transcode a h ≡ some l
      → liquid_value l ≡ arrow_value a
  pub squeeze_backing :
      (l : F.Liquid) (h : Option F.Hint) (s : F.Squeezed) (b : F.Bytes)
      → F.squeeze_liquid l h ≡ some (s, b)
      → (F.disk_backing s ≡ liquid_backing) × (liquid_value (decode_liquid b) ≡ liquid_value l)
  pub variant_backing :
      (a : F.Arrow) (h : Option F.Hint) (s : F.Squeezed) (b : F.Bytes)
      → F.variant_squeeze a h ≡ some (s, b)
      → (F.disk_backing s ≡ arrow_backing) × (arrow_value (decode_arrow b) ≡ arrow_value a)

module _ {F : Formats} (L : Lossless F) where
  open L use {Value, arrow_value, liquid_value, decode_arrow, decode_liquid}

  -- The file holds the value in the format.
  abbrev pub Backed : Value → SqueezedBacking → Option F.Bytes → Type 0
  Backed v backing none = ⊥
  Backed v liquid_backing (some b) = liquid_value (decode_liquid b) ≡ v
  Backed v arrow_backing (some b) = arrow_value (decode_arrow b) ≡ v

  abbrev pub Stored : Value → CacheEntry F → Option F.Bytes → Type 0
  Stored v (CacheEntry.memory_arrow a) file = arrow_value a ≡ v
  Stored v (CacheEntry.memory_liquid l) file = liquid_value l ≡ v
  Stored v (CacheEntry.memory_squeezed_liquid s) file = Backed v (F.disk_backing s) file
  Stored v (CacheEntry.disk_liquid t) file = Backed v liquid_backing file
  Stored v (CacheEntry.disk_arrow t) file = Backed v arrow_backing file
