-- ===== src/Cache/Hydrate/Laws.antt =====
-- Promotion keeps the value.
use liquid_cache.Prelude.{inl, inr, ◌≡◌, ◌≤◌, Option, none, some, arith, Option-cases}
use liquid_cache.Cache.Entry.{
  Formats, CacheEntry, memory_arrow, memory_liquid, memory_squeezed_liquid, disk_liquid, disk_arrow,
  batch_type, rank,
}
use liquid_cache.Cache.Entry.Meaning.{Lossless, Stored}
use liquid_cache.Cache.Hydrate.{MaterializedEntry, always_hydrate}

-- What a read produced has the value.
abbrev pub HasValue : {F : Formats} (L : Lossless F) → L.Value → MaterializedEntry F → Type 0
HasValue L v (MaterializedEntry.arrow a) = L.arrow_value a ≡ v
HasValue L v (MaterializedEntry.liquid l) = L.liquid_value l ≡ v

-- Adding paths to a squeezed variant leaves its data on disk in the same format.
abbrev pub KeepsBacking :
    (F : Formats) → (F.Arrow → F.Squeezed → Option F.Hint → Option F.Squeezed) → Type 0
KeepsBacking F extend_paths =
    (a : F.Arrow) (s : F.Squeezed) (h : Option F.Hint) (s' : F.Squeezed)
    → extend_paths a s h ≡ some s'
    → F.disk_backing s' ≡ F.disk_backing s

-- An entry that a policy wants inserted stands for the value, with the file as it is, and is not
-- below the entry that was read.
abbrev pub Promotes :
    {F : Formats} (L : Lossless F)
    → L.Value
    → Option F.Bytes
    → CacheEntry F
    → Option (CacheEntry F)
    → Type 0
Promotes L v file e none = Unit
Promotes L v file e (some e') = Stored L v e' file × (rank (batch_type e) ≤ rank (batch_type e'))

module _ {F : Formats} (L : Lossless F)
    (extend_paths : F.Arrow → F.Squeezed → Option F.Hint → Option F.Squeezed)
    (same : KeepsBacking F extend_paths) (v : L.Value) (file : Option F.Bytes)
    (h : Option F.Hint) where
  -- The policy never moves an entry down the formats, and what it inserts has the value of the
  -- entry that was read, with the entry's file as it is: nothing has to be written.
  pub always_hydrate-Promotes :
      (e : CacheEntry F) (m : MaterializedEntry F)
      → Stored L v e file
      → HasValue L v m
      → Promotes L v file e (always_hydrate extend_paths e m h)
  unfolding always_hydrate batch_type rank
  always_hydrate-Promotes (memory_arrow a) m s k = tt
  always_hydrate-Promotes (memory_liquid l) m s k = tt
  always_hydrate-Promotes (memory_squeezed_liquid q) (MaterializedEntry.liquid l) s k =
      (k, omega arith)
  always_hydrate-Promotes (memory_squeezed_liquid q) (MaterializedEntry.arrow a) s k =
      elim (Option-cases (extend_paths a q h)) [
        | inl n ↦ rw (n, always_hydrate) (k, omega arith)
        | inr (q', n) ↦ rw (n, always_hydrate) (rw (same a q h q' n) (s, omega arith))
      ]
  always_hydrate-Promotes (disk_liquid t) (MaterializedEntry.liquid l) s k = (k, omega arith)
  always_hydrate-Promotes (disk_liquid t) (MaterializedEntry.arrow a) s k = tt
  always_hydrate-Promotes (disk_arrow t) (MaterializedEntry.liquid l) s k = tt
  always_hydrate-Promotes (disk_arrow t) (MaterializedEntry.arrow a) s k =
      elim (Option-cases (F.variant_squeeze a h)) [
        | inl n ↦ rw (n, always_hydrate) (k, omega arith)
        | inr ((q, b), n) ↦
            rw (n, always_hydrate) (rw ((L.variant_backing a h q b n).0) (s, omega arith))
      ]
