-- ===== src/Cache/Squeeze/Laws.antt =====
-- What the cache asks of a squeeze policy, and that the three policies provide it.
use liquid_cache.Prelude.{
  ◌<◌, ◌≡◌, refl, ◌∙◌, ◌⊎◌, inl, inr, Option, none, some, arith, Option-cases,
}
use liquid_cache.Cache.Entry.{
  Formats, CacheEntry, SqueezedBacking, liquid_backing, arrow_backing, memory_arrow, memory_liquid,
  memory_squeezed_liquid, disk_liquid, disk_arrow, batch_type, rank,
}
use liquid_cache.Cache.Entry.Meaning.{Lossless, Backed, Stored}
use liquid_cache.Cache.Squeeze.{
  SqueezePolicy, disk_entry, transcode_or_evict, evict, transcode_squeeze_evict, transcode_evict,
}

-- The file of an entry after the bytes of a policy are written, if there are any.
abbrev pub after_write {ℓ} : {B : Type ℓ} → Option B → Option B → Option B
after_write (some b) file = some b
after_write none file = file

-- The policy moves an entry down the formats until it is on disk, where it stays.
abbrev pub Descends : (F : Formats) → CacheEntry F → CacheEntry F × Option F.Bytes → Type 0
Descends F e r =
    (rank (batch_type r.0) < rank (batch_type e)) ⊎ ((rank (batch_type e) ≡ 0) × (r ≡ (e, none)))

-- The new entry with the file as written stands for the value that the entry stood for.
abbrev pub Keeps :
    {F : Formats} → Lossless F → CacheEntry F → CacheEntry F × Option F.Bytes → Type 0
Keeps {F} L e r =
    (v : L.Value) (file : Option F.Bytes)
    → Stored L v e file
    → Stored L v r.0 (after_write r.1 file)

pub disk_entry-rank :
    (F : Formats) (b : SqueezedBacking) (t : F.DataType)
    → rank (batch_type (disk_entry {F = F} b t)) ≡ 0
unfolding disk_entry batch_type rank
disk_entry-rank F liquid_backing t = refl
disk_entry-rank F arrow_backing t = refl

transcode_or_evict-rank :
    (F : Formats) (a : F.Arrow) (h : Option F.Hint)
    → rank (batch_type (transcode_or_evict {F = F} a h).0) < 3
unfolding transcode_or_evict batch_type rank
transcode_or_evict-rank F a h = elim (Option-cases (F.transcode a h)) [
  | inl e ↦ rw (e, transcode_or_evict) (omega arith)
  | inr (l, e) ↦ rw (e, transcode_or_evict) (omega arith)
]

module _ {F : Formats} where
  pub disk_entry-Stored :
      (L : Lossless F) (v : L.Value) (b : SqueezedBacking) (t : F.DataType) (file : Option F.Bytes)
      → Backed L v b file
      → Stored L v (disk_entry {F = F} b t) file
  unfolding disk_entry
  disk_entry-Stored L v liquid_backing t file h = h
  disk_entry-Stored L v arrow_backing t file h = h

  pub evict-Descends : (e : CacheEntry F) (h : Option F.Hint) → Descends F e (evict e h)
  unfolding evict batch_type rank
  evict-Descends (memory_arrow a) h = inl (omega arith)
  evict-Descends (memory_liquid l) h = inl (omega arith)
  evict-Descends (memory_squeezed_liquid s) h =
      inl (omega (arith, disk_entry-rank F (F.disk_backing s) (F.squeezed_type s)))
  evict-Descends (disk_liquid t) h = inr (refl, refl)
  evict-Descends (disk_arrow t) h = inr (refl, refl)

  pub transcode_squeeze_evict-Descends :
      (e : CacheEntry F) (h : Option F.Hint) → Descends F e (transcode_squeeze_evict e h)
  unfolding transcode_squeeze_evict batch_type rank
  transcode_squeeze_evict-Descends (memory_arrow a) h =
      elim (Option-cases (F.variant_squeeze a h)) [
        | inl e ↦ rw (e, transcode_squeeze_evict) (inl (transcode_or_evict-rank F a h))
        | inr ((s, b), e) ↦ rw (e, transcode_squeeze_evict) (inl (omega arith))
      ]
  transcode_squeeze_evict-Descends (memory_liquid l) h =
      elim (Option-cases (F.squeeze_liquid l h)) [
        | inl e ↦ rw (e, transcode_squeeze_evict) (inl (omega arith))
        | inr ((s, b), e) ↦ rw (e, transcode_squeeze_evict) (inl (omega arith))
      ]
  transcode_squeeze_evict-Descends (memory_squeezed_liquid s) h =
      inl (omega (arith, disk_entry-rank F (F.disk_backing s) (F.squeezed_type s)))
  transcode_squeeze_evict-Descends (disk_liquid t) h = inr (refl, refl)
  transcode_squeeze_evict-Descends (disk_arrow t) h = inr (refl, refl)

  pub transcode_evict-Descends :
      (e : CacheEntry F) (h : Option F.Hint) → Descends F e (transcode_evict e h)
  unfolding transcode_evict batch_type rank
  transcode_evict-Descends (memory_arrow a) h = inl (transcode_or_evict-rank F a none)
  transcode_evict-Descends (memory_liquid l) h = inl (omega arith)
  transcode_evict-Descends (memory_squeezed_liquid s) h =
      inl (omega (arith, disk_entry-rank F (F.disk_backing s) (F.squeezed_type s)))
  transcode_evict-Descends (disk_liquid t) h = inr (refl, refl)
  transcode_evict-Descends (disk_arrow t) h = inr (refl, refl)

  module _ (L : Lossless F) where
    pub evict-Keeps : (e : CacheEntry F) (h : Option F.Hint) → Keeps L e (evict e h)
    unfolding evict
    evict-Keeps (memory_arrow a) h v file s = L.arrow_bytes a ∙ s
    evict-Keeps (memory_liquid l) h v file s = L.liquid_bytes l ∙ s
    evict-Keeps (memory_squeezed_liquid q) h v file s =
        disk_entry-Stored L v (F.disk_backing q) (F.squeezed_type q) file s
    evict-Keeps (disk_liquid t) h v file s = s
    evict-Keeps (disk_arrow t) h v file s = s

    transcode_or_evict-Keeps :
        (a : F.Arrow) (h : Option F.Hint) → Keeps L (memory_arrow a) (transcode_or_evict a h)
    unfolding transcode_or_evict
    transcode_or_evict-Keeps a h v file s = elim (Option-cases (F.transcode a h)) [
      | inl e ↦ rw (e, transcode_or_evict) (L.arrow_bytes a ∙ s)
      | inr (l, e) ↦ rw (e, transcode_or_evict) (L.transcode_value a h l e ∙ s)
    ]

    pub transcode_evict-Keeps :
        (e : CacheEntry F) (h : Option F.Hint) → Keeps L e (transcode_evict e h)
    unfolding transcode_evict
    transcode_evict-Keeps (memory_arrow a) h v file s = transcode_or_evict-Keeps a none v file s
    transcode_evict-Keeps (memory_liquid l) h v file s = L.liquid_bytes l ∙ s
    transcode_evict-Keeps (memory_squeezed_liquid q) h v file s =
        disk_entry-Stored L v (F.disk_backing q) (F.squeezed_type q) file s
    transcode_evict-Keeps (disk_liquid t) h v file s = s
    transcode_evict-Keeps (disk_arrow t) h v file s = s

    pub transcode_squeeze_evict-Keeps :
        (e : CacheEntry F) (h : Option F.Hint) → Keeps L e (transcode_squeeze_evict e h)
    unfolding transcode_squeeze_evict
    transcode_squeeze_evict-Keeps (memory_arrow a) h v file s =
        elim (Option-cases (F.variant_squeeze a h)) [
          | inl e ↦ rw (e, transcode_squeeze_evict) (transcode_or_evict-Keeps a h v file s)
          | inr ((q, b), e) ↦
              let (backing, value) = L.variant_backing a h q b e in
              rw (e, transcode_squeeze_evict) (rw backing (value ∙ s))
        ]
    transcode_squeeze_evict-Keeps (memory_liquid l) h v file s =
        elim (Option-cases (F.squeeze_liquid l h)) [
          | inl e ↦ rw (e, transcode_squeeze_evict) (L.liquid_bytes l ∙ s)
          | inr ((q, b), e) ↦
              let (backing, value) = L.squeeze_backing l h q b e in
              rw (e, transcode_squeeze_evict) (rw backing (value ∙ s))
        ]
    transcode_squeeze_evict-Keeps (memory_squeezed_liquid q) h v file s =
        disk_entry-Stored L v (F.disk_backing q) (F.squeezed_type q) file s
    transcode_squeeze_evict-Keeps (disk_liquid t) h v file s = s
    transcode_squeeze_evict-Keeps (disk_arrow t) h v file s = s

-- The interface between the cache and its squeeze policy.
pub record IsSqueezePolicy {F : Formats} (L : Lossless F) (policy : SqueezePolicy F) : Type 0 where
  pub descends : (e : CacheEntry F) (h : Option F.Hint) → Descends F e (policy e h)
  pub keeps : (e : CacheEntry F) (h : Option F.Hint) → Keeps L e (policy e h)

-- Each of the three policies moves every entry strictly down the formats, leaves entries on disk
-- alone, and keeps the value that an entry stands for, with the bytes that it asks to write.
pub policies-IsSqueezePolicy :
    {F : Formats} (L : Lossless F)
    → IsSqueezePolicy L evict
      × IsSqueezePolicy L transcode_squeeze_evict
      × IsSqueezePolicy L transcode_evict
policies-IsSqueezePolicy L = (
  record { descends = evict-Descends; keeps = evict-Keeps L },
  record { descends = transcode_squeeze_evict-Descends; keeps = transcode_squeeze_evict-Keeps L },
  record { descends = transcode_evict-Descends; keeps = transcode_evict-Keeps L },
)
