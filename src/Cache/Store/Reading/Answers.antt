-- ===== src/Cache/Store/Reading/Answers.antt =====
-- What `try_read_liquid` returns in a cache with `LiquidPolicy` and `AlwaysHydrate`.
use liquid_cache.Prelude.{
  ℕ, ◌+◌, ◌<◌, ◌≡◌, refl, inl, Bool, true, false, Option, none, some, List, ◌∷◌, ◌==◌, arith,
  lookup,
}
use liquid_cache.Cache.Entry.{
  Formats, IsSized, CacheEntry, memory_arrow, memory_liquid, memory_squeezed_liquid, disk_liquid,
  disk_arrow, batch_type, rank, SqueezedBacking, liquid_backing, arrow_backing,
}
use liquid_cache.Cache.Entry.Meaning.{Lossless, Backed, Stored}
use liquid_cache.Cache.Index
use liquid_cache.Cache.Squeeze.{SqueezePolicy}
use liquid_cache.Cache.Squeeze.Laws.{IsSqueezePolicy}
use liquid_cache.Cache.Hydrate.{always_hydrate}
use liquid_cache.Cache.Policy.ThreeQueue
use liquid_cache.Cache.Policy.ThreeQueue.Drains.{liquid_policy, liquid_policy-Draining}
use liquid_cache.Cache.Store.{
  LiquidCache, Run, InternalEvent, done, trace, read_liquid_event, io_read_liquid, hydrate_event,
  maybe_hydrate,
}
use liquid_cache.Cache.Store.Values.{Holds}
use liquid_cache.Cache.Store.Ending.{IsGood, Kept}
use liquid_cache.Cache.Store.Ending.Rounds.{insert_inner_lem}
use liquid_cache.Cache.Store.Reading.{
  read_disk_liquid_array, read_squeezed_liquid, read_liquid_entry, try_read_liquid,
}

-- The entry's data is in the Liquid format, in memory or on disk.
abbrev pub is_liquid : SqueezedBacking → Bool
is_liquid liquid_backing = true
is_liquid arrow_backing = false

module _ {F : Formats} where
  abbrev pub has_liquid : CacheEntry F → Bool
  has_liquid (memory_arrow a) = false
  has_liquid (memory_liquid l) = true
  has_liquid (memory_squeezed_liquid s) = is_liquid (F.disk_backing s)
  has_liquid (disk_liquid t) = true
  has_liquid (disk_arrow t) = false

  -- What the read has to return for the value.
  abbrev pub Answer : (L : Lossless F) → Bool → L.Value → Option F.Liquid → Type 0
  Answer L false v o = o ≡ none
  Answer L true v o = (l : F.Liquid) × (o ≡ some l) × (L.liquid_value l ≡ v)

module _ {F : Formats} (z : IsSized F) (L : Lossless F) {squeeze : SqueezePolicy F}
    (law : IsSqueezePolicy L squeeze) (hint : ℕ → Option F.Hint)
    (extend_paths : F.Arrow → F.Squeezed → Option F.Hint → Option F.Squeezed) where
  abbrev read_liquid :
      ℕ → ℕ → LiquidCache F liquid_policy → Run (Option F.Liquid × LiquidCache F liquid_policy)
  read_liquid = try_read_liquid squeeze hint (always_hydrate extend_paths) L.decode_liquid

  record Answered (c : LiquidCache F liquid_policy) (id : ℕ) (v : L.Value) (b : Bool)
      (r : Run (Option F.Liquid × LiquidCache F liquid_policy)) : Type 0 where
    o : Option F.Liquid
    c1 : LiquidCache F liquid_policy
    ends : r ≡ done (o, c1)
    answer : Answer L b v o
    good : IsGood liquid_policy-Draining c1
    held : Holds L c1 id v
    kept : Kept L (λ j. id == j) c c1

  -- A state that differs in its events only.
  traced : LiquidCache F liquid_policy → List InternalEvent → LiquidCache F liquid_policy
  traced c events = record c { events = events }

  traced-IsGood :
      (c : LiquidCache F liquid_policy) (events : List InternalEvent)
      → IsGood liquid_policy-Draining c
      → IsGood liquid_policy-Draining (traced c events)
  unfolding traced
  traced-IsGood c events g = record {
    accounted = record { within = g.accounted.within; exact = g.accounted.exact };
    inv = g.inv;
    tracks = g.tracks;
  }

  traced-Answered :
      (c : LiquidCache F liquid_policy) (events : List InternalEvent) (id : ℕ) (v : L.Value)
      (b : Bool) (o : Option F.Liquid)
      → IsGood liquid_policy-Draining c
      → Holds L c id v
      → Answer L b v o
      → Answered c id v b (done (o, traced c events))
  unfolding traced
  traced-Answered c events id v b o g h a = record {
    o = o;
    c1 = traced c events;
    ends = refl;
    answer = a;
    good = traced-IsGood c events g;
    held = h;
    kept = record { same_limit = refl; holds = λ j w n x. x };
  }

  disk-Answered :
      (fuel id : ℕ) (t : F.DataType) (c : LiquidCache F liquid_policy) (events : List InternalEvent)
      (v : L.Value) (b : F.Bytes)
      → IsGood liquid_policy-Draining c
      → lookup id c.files ≡ some b
      → L.liquid_value (L.decode_liquid b) ≡ v
      → liquid_policy-Draining.weight c.cache_policy + 2 < fuel
      → Answered c id v true (
          read_liquid_entry squeeze hint
            (always_hydrate extend_paths)
            L.decode_liquid
            fuel
            id
            (disk_liquid t)
            (traced c events))
  unfolding read_liquid_entry read_disk_liquid_array maybe_hydrate always_hydrate trace traced rank
      batch_type
  disk-Answered fuel id t c events v b g file value f =
      let l = L.decode_liquid b in
      let old : CacheEntry F = disk_liquid t in
      let new : CacheEntry F = memory_liquid l in
      let c0 = traced c (
        hydrate_event id (batch_type old) (batch_type new)
        ∷ io_read_liquid id (F.bytes_len b)
        ∷ events) in
      let (c1, ends, g1, held, k, _) =
        insert_inner_lem z L law hint liquid_policy-Draining fuel id new c0 v (traced-IsGood c _ g)
          (value, inl (omega arith)) (omega arith) in
      record {
        o = some l;
        c1 = c1;
        ends = rw (file, read_disk_liquid_array) (rw ends refl);
        answer = (l, refl, value);
        good = g1;
        held = held;
        kept = record { same_limit = k.same_limit; holds = k.holds };
      }

  file_of :
      (v : L.Value) (file : Option F.Bytes)
      → Backed L v liquid_backing file
      → (b : F.Bytes) × (file ≡ some b) × (L.liquid_value (L.decode_liquid b) ≡ v)
  file_of v none h = absurd h
  file_of v (some b) h = (b, refl, h)

  squeezed-Answered :
      (backing : SqueezedBacking) (id : ℕ) (c : LiquidCache F liquid_policy)
      (events : List InternalEvent) (v : L.Value)
      → IsGood liquid_policy-Draining c
      → Holds L c id v
      → Backed L v backing (lookup id c.files)
      → Answered c id v (is_liquid backing) (
          read_squeezed_liquid squeeze hint
            (always_hydrate extend_paths)
            L.decode_liquid
            backing
            id
            (traced c events))
  unfolding read_squeezed_liquid read_disk_liquid_array trace traced
  squeezed-Answered liquid_backing id c events v g h s =
      let (b, file, value) = file_of v (lookup id c.files) s in
      rw (file, read_disk_liquid_array)
        (traced-Answered c (io_read_liquid id (F.bytes_len b) ∷ events) id v true
          (some (L.decode_liquid b)) g h (L.decode_liquid b, refl, value))
  squeezed-Answered arrow_backing id c events v g h s =
      traced-Answered c events id v false none g h refl

  entry-Answered :
      (fuel id : ℕ) (e : CacheEntry F) (c : LiquidCache F liquid_policy)
      (events : List InternalEvent) (v : L.Value)
      → IsGood liquid_policy-Draining c
      → Holds L c id v
      → Stored L v e (lookup id c.files)
      → liquid_policy-Draining.weight c.cache_policy + 2 < fuel
      → Answered c id v (has_liquid e) (
          read_liquid_entry squeeze hint
            (always_hydrate extend_paths)
            L.decode_liquid
            fuel
            id
            e
            (traced c events))
  unfolding read_liquid_entry
  entry-Answered fuel id (memory_arrow a) c events v g h s f =
      traced-Answered c events id v false none g h refl
  entry-Answered fuel id (memory_liquid l) c events v g h s f =
      traced-Answered c events id v true (some l) g h (l, refl, s)
  entry-Answered fuel id (memory_squeezed_liquid q) c events v g h s f =
      squeezed-Answered (F.disk_backing q) id c events v g h s
  entry-Answered fuel id (disk_liquid t) c events v g h s f =
      let (b, file, value) = file_of v (lookup id c.files) s in
      disk-Answered fuel id t c events v b g file value f
  entry-Answered fuel id (disk_arrow t) c events v g h s f =
      traced-Answered c events id v false none g h refl

  -- In a cache with `LiquidPolicy` and `AlwaysHydrate`, a read of an identifier that holds a value
  -- does not panic, and ends with fuel above the policy's weight and 2. It returns a Liquid array
  -- of that value if the entry's data is in the Liquid format, in memory or on disk, and else
  -- nothing. Every identifier holds what it held, also where the read promotes the entry to memory.
  pub try_read_liquid_lem :
      (fuel id : ℕ) (e : CacheEntry F) (c : LiquidCache F liquid_policy) (v : L.Value)
      → IsGood liquid_policy-Draining c
      → lookup id c.index.art ≡ some e
      → Stored L v e (lookup id c.files)
      → liquid_policy-Draining.weight c.cache_policy + 2 < fuel
      → (o : Option F.Liquid) × (c1 : LiquidCache F liquid_policy) × (try_read_liquid squeeze hint
            (always_hydrate extend_paths)
            L.decode_liquid
            fuel
            id
            c
          ≡ done (o, c1))
        × Answer L (has_liquid e) v o
        × IsGood liquid_policy-Draining c1
        × Holds L c1 id v
        × Kept L (λ j. id == j) c c1
  unfolding try_read_liquid Index.get trace traced ThreeQueue.notify_access
  try_read_liquid_lem fuel id e c v g found s f =
      let a = entry-Answered fuel id e c (read_liquid_event id ∷ c.events) v g (e, found, s) s f in
      (a.o, a.c1, rw (found, try_read_liquid) a.ends, a.answer, a.good, a.held, a.kept)
