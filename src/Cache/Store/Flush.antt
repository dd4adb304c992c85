-- ===== src/Cache/Store/Flush.antt =====
-- `flush_all_to_disk`.
use liquid_cache.Prelude.{
  ℕ, ◌≡◌, refl, ◌∙◌, inl, inr, Option, none, some, List, [], ◌∷◌, false, ◌==◌, if◌then◌else◌, arith,
  lookup, entries, is_some, Bool-cases,
}
use liquid_cache.Cache.Entry.{
  Formats, IsSized, CacheEntry, memory_arrow, memory_liquid, memory_squeezed_liquid, disk_liquid,
  disk_arrow, batch_type, rank,
}
use liquid_cache.Cache.Entry.Meaning.{Lossless, Stored}
use liquid_cache.Cache.Squeeze.{disk_entry}
use liquid_cache.Cache.Squeeze.Laws.{after_write, disk_entry-rank, disk_entry-Stored}
use liquid_cache.Cache.Policy.{CachePolicy}
use liquid_cache.Cache.Store.{
  LiquidCache, done, write_if_some, flush_entry, flush_entries, flush_all_to_disk,
}
use liquid_cache.Cache.Store.Accounts.{
  IsAccounted, Inserted, IsUnique, size_of, total-zero, try_insert_free, entries-absent,
}
use liquid_cache.Cache.Store.Values.{Written, write_if_some-Written, rank-zero}
use liquid_cache.Cache.Store.Ending.{Kept, Kept-trans, rank_at, rank_of}

module _ {F : Formats} {P : CachePolicy} (L : Lossless F) where
  -- What flushing the entry of `k` makes of `c`.
  record Flushed (c : LiquidCache F P) (k : ℕ) (c1 : LiquidCache F P) : Type 0 where
    accounted : IsAccounted c1
    kept : Kept L (λ j. false) c c1
    ranks : (j : ℕ) → rank_at c1 j ≡ (if k == j then 0 else rank_at c j)
    others : (j : ℕ) → (k == j) ≡ false → lookup j c1.index.art ≡ lookup j c.index.art
    unique : IsUnique c.index.art → IsUnique c1.index.art

  moved-Flushed :
      (c c1 c2 : LiquidCache F P) (k : ℕ) (e e1 : CacheEntry F) (bytes : Option F.Bytes)
      → lookup k c.index.art ≡ some e
      → rank (batch_type e1) ≡ 0
      → Written c k bytes c1
      → Inserted c1 k e1 c2
      → ((v : L.Value)
          → Stored L v e (lookup k c.files)
          → Stored L v e1 (after_write bytes (lookup k c.files)))
      → Flushed c k c2
  moved-Flushed c c1 c2 k e e1 bytes found low w i value = record {
    accounted = i.accounted;
    kept = record {
      same_limit = i.same_limit ∙ w.same_limit;
      holds = λ j v n (x, f, s). elim (Bool-cases (k == j)) [
        | inl same ↦
            let at_j : k ≡ j = ground (arith, same) in
            let old : x ≡ e = cc (f, found, at_j) in
            let stored : Stored L v e (lookup k c.files) = rw at_j (rw (← old) s) in
            (
              e1,
              ground (arith, i.found j, same),
              rw (← at_j) (rw (i.same_files, w.file) (value v stored)),
            )
        | inr other ↦ (
          x,
          ground (arith, i.found j, other, f, w.same_index),
          rw (i.same_files, w.other_files j other) s,
        )
      ];
    };
    ranks = λ j. ground (arith, i.found j, w.same_index, low);
    others = λ j other. ground (arith, i.found j, w.same_index, other);
    unique = λ u. i.unique (rw w.same_index u);
  }

  on_disk-Flushed :
      (c : LiquidCache F P) (k : ℕ) (e : CacheEntry F)
      → IsAccounted c
      → lookup k c.index.art ≡ some e
      → rank (batch_type e) ≡ 0
      → Flushed c k c
  on_disk-Flushed c k e g found low = record {
    accounted = g;
    kept = record { same_limit = refl; holds = λ j v n h. h };
    ranks = λ j. elim (Bool-cases (k == j)) [
      | inl same ↦ let at_j : k ≡ j = ground (arith, same) in ground (arith, at_j, found, low, same)
      | inr other ↦ ground (arith, other)
    ];
    others = λ j n. refl;
    unique = λ u. u;
  }

rank_of-size : {F : Formats} (o : Option (CacheEntry F)) → rank_of o ≡ 0 → size_of o ≡ 0
rank_of-size none h = refl
rank_of-size (some e) h = rank-zero e h

module _ {F : Formats} {P : CachePolicy} (z : IsSized F) (L : Lossless F) where
  flush_entry-Flushed :
      (c : LiquidCache F P) (k : ℕ) (e : CacheEntry F)
      → IsAccounted c
      → lookup k c.index.art ≡ some e
      → (c1 : LiquidCache F P) × (flush_entry c k e ≡ done c1) × Flushed L c k c1
  unfolding flush_entry batch_type rank write_if_some
  flush_entry-Flushed c k (memory_arrow a) g found =
      let b = some (F.arrow_to_bytes a) in
      let w = write_if_some-Written c k (memory_arrow a) b in
      let e1 : CacheEntry F = disk_arrow (F.arrow_type a) in
      let (c2, ok, i) =
        try_insert_free z (write_if_some c k (memory_arrow a) b) k e1 (w.accounted g)
          (rank-zero e1 refl) in
      (
        c2,
        rw (ok, flush_entry) refl,
        moved-Flushed L c (write_if_some c k (memory_arrow a) b) c2 k (memory_arrow a) e1 b found
            refl w i λ v s. L.arrow_bytes a ∙ s,
      )
  flush_entry-Flushed c k (memory_liquid l) g found =
      let b = some (F.liquid_to_bytes l) in
      let w = write_if_some-Written c k (memory_liquid l) b in
      let e1 : CacheEntry F = disk_liquid (F.liquid_type l) in
      let (c2, ok, i) =
        try_insert_free z (write_if_some c k (memory_liquid l) b) k e1 (w.accounted g)
          (rank-zero e1 refl) in
      (
        c2,
        rw (ok, flush_entry) refl,
        moved-Flushed L c (write_if_some c k (memory_liquid l) b) c2 k (memory_liquid l) e1 b found
            refl w i λ v s. L.liquid_bytes l ∙ s,
      )
  flush_entry-Flushed c k (memory_squeezed_liquid q) g found =
      let e1 = disk_entry {F = F} (F.disk_backing q) (F.squeezed_type q) in
      let low = disk_entry-rank F (F.disk_backing q) (F.squeezed_type q) in
      let w = write_if_some-Written c k e1 none in
      let (c2, ok, i) = try_insert_free z c k e1 g (rank-zero e1 low) in
      (
        c2,
        rw (ok, flush_entry) refl,
        moved-Flushed L c c c2 k (memory_squeezed_liquid q) e1 none found low w i λ v s.
            disk_entry-Stored L v (F.disk_backing q) (F.squeezed_type q) (lookup k c.files) s,
      )
  flush_entry-Flushed c k (disk_liquid t) g found =
      (c, refl, on_disk-Flushed L c k (disk_liquid t) g found refl)
  flush_entry-Flushed c k (disk_arrow t) g found =
      (c, refl, on_disk-Flushed L c k (disk_arrow t) g found refl)

  flush_entries-Flushed :
      (es : List (ℕ × CacheEntry F)) (c : LiquidCache F P)
      → IsAccounted c
      → IsUnique es
      → ((k : ℕ) (e : CacheEntry F) → lookup k es ≡ some e → lookup k c.index.art ≡ some e)
      → (c1 : LiquidCache F P) × (flush_entries es c ≡ done c1)
        × IsAccounted c1
        × Kept L (λ j. false) c c1
        × ((j : ℕ) → rank_at c1 j ≡ (if is_some (lookup j es) then 0 else rank_at c j))
        × (IsUnique c.index.art → IsUnique c1.index.art)
  unfolding flush_entries lookup entries is_some
  flush_entries-Flushed [] c g u h =
      (c, refl, g, record { same_limit = refl; holds = λ j v n x. x }, λ j. refl, λ x. x)
  flush_entries-Flushed ((k, e) ∷ es) c g u h =
      let (c1, once, f) = flush_entry-Flushed c k e g (h k e (ground arith)) in
      let (c2, ends, g2, k2, r2, u2) =
        flush_entries-Flushed es c1 f.accounted (λ j. omega (arith, u j))
          λ j x found. elim (Bool-cases (k == j)) [
            | inl same ↦ absurd (ground (arith, same, u j, entries-absent j es, found))
            | inr other ↦ f.others j other ∙ h j x (ground (arith, other, found))
          ] in
      (
        c2,
        rw once ends,
        g2,
        Kept-trans f.kept k2,
        λ j. ground (arith, r2 j, f.ranks j),
        λ x. u2 (f.unique x),
      )

  -- In an accounted cache whose index has each identifier once, flushing never reaches a panic.
  -- Afterwards no entry is in memory and none is used, every identifier holds what it held, and the
  -- limit is the same.
  pub flush_all_to_disk_lem :
      (c : LiquidCache F P)
      → IsAccounted c
      → IsUnique c.index.art
      → (c1 : LiquidCache F P) × (flush_all_to_disk c ≡ done c1)
        × IsAccounted c1
        × ((j : ℕ) → rank_at c1 j ≡ 0)
        × (c1.budget.used_memory_bytes ≡ 0)
        × Kept L (λ j. false) c c1
  unfolding flush_all_to_disk is_some
  flush_all_to_disk_lem c g u =
      let (c1, ends, g1, k, r, u1) = flush_entries-Flushed c.index.art c g u (λ j e f. f) in
      let low : (j : ℕ) → rank_at c1 j ≡ 0 = λ j. ground (arith, r j) in
      (
        c1,
        ends,
        g1,
        low,
        g1.exact
            ∙ total-zero c1.index.art (u1 u) (λ j. rank_of-size (lookup j c1.index.art) (low j)),
        k,
      )
