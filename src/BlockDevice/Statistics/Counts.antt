-- ===== src/BlockDevice/Statistics/Counts.antt =====
-- The statistics see every call and change none.
use littlefs_v.Base.{◌+◌, ◌%◌, ◌^◌, List, [], ◌∷◌, ◌≡◌, refl, ap, arith, length, add64}
use littlefs_v.BlockDevice.{BlockDevice}
use littlefs_v.BlockDevice.Run.{Call, read, write, erase, sync, answer, run}
use littlefs_v.BlockDevice.Statistics
use littlefs_v.BlockDevice.Statistics.{Stats}

module _ {D : Type 0} (underlying : BlockDevice D) where
  -- The decorated device; what the decorator does not override goes to the underlying one.
  abbrev pub statistics : BlockDevice (Stats × D)
  statistics = record {
    read = Statistics.read underlying;
    write = Statistics.write underlying;
    erase = Statistics.erase underlying;
    sync = Statistics.sync underlying;
    allocate_block = λ x. let r = underlying.allocate_block x.1 in ((x.0, r.0), r.1);
    get_block_size = λ x. underlying.get_block_size x.1;
    get_block_count = λ x. underlying.get_block_count x.1;
    set_block_count = λ x n. (x.0, underlying.set_block_count x.1 n);
  }

  -- How many reads a list of calls has, how many writes, and the bytes that they move.
  abbrev pub tally : List Call → Stats
  tally [] = record {
    reads_count = 0;
    writes_count = 0;
    erases_count = 0;
    syncs_count = 0;
    bytes_read = 0;
    bytes_written = 0;
  }
  tally (read block off size ∷ cs) =
      let t = tally cs in
      record t { reads_count = 1 + t.reads_count; bytes_read = size + t.bytes_read }
  tally (write block off bytes ∷ cs) =
      let t = tally cs in
      record t { writes_count = 1 + t.writes_count; bytes_written = length bytes + t.bytes_written }
  tally (erase block ∷ cs) = let t = tally cs in record t { erases_count = 1 + t.erases_count }
  tally (sync ∷ cs) = let t = tally cs in record t { syncs_count = 1 + t.syncs_count }

  -- `t` added to counters of 64 bits.
  pub record IsSum (s t s' : Stats) : Type 0 where
    pub reads : s'.reads_count % 2 ^ 64 ≡ (s.reads_count + t.reads_count) % 2 ^ 64
    pub writes : s'.writes_count % 2 ^ 64 ≡ (s.writes_count + t.writes_count) % 2 ^ 64
    pub erases : s'.erases_count % 2 ^ 64 ≡ (s.erases_count + t.erases_count) % 2 ^ 64
    pub syncs : s'.syncs_count % 2 ^ 64 ≡ (s.syncs_count + t.syncs_count) % 2 ^ 64
    pub read_bytes : s'.bytes_read % 2 ^ 64 ≡ (s.bytes_read + t.bytes_read) % 2 ^ 64
    pub written_bytes : s'.bytes_written % 2 ^ 64 ≡ (s.bytes_written + t.bytes_written) % 2 ^ 64

  -- Any list of calls has the answers and leaves the device that it has and leaves without the
  -- statistics, and the counters go up by its calls and bytes, modulo 2 ^ 64.
  pub statistics-run :
      (calls : List Call) (s : Stats) (d : D)
      → let r = run statistics (s, d) calls in
        (r.1 ≡ (run underlying d calls).1)
        × (r.0.1 ≡ (run underlying d calls).0)
        × IsSum s (tally calls) r.0.0
  unfolding run Statistics.read Statistics.write Statistics.erase Statistics.sync
  statistics-run [] s d = (refl, refl, omega arith)
  statistics-run (read block off size ∷ cs) s d =
      let r = underlying.read d block off size in
      let ih =
        statistics-run cs
          (record s { reads_count = add64 s.reads_count 1; bytes_read = add64 s.bytes_read size })
          r.0 in
      (ap (λ l. r.1 ∷ l) ih.0, ih.1, omega (arith, ih.2))
  statistics-run (write block off bytes ∷ cs) s d =
      let r = underlying.write d block off bytes in
      let ih =
        statistics-run cs
          (record s {
            writes_count = add64 s.writes_count 1;
            bytes_written = add64 s.bytes_written (length bytes);
          })
          r.0 in
      (ap (λ l. answer r.1 ∷ l) ih.0, ih.1, omega (arith, ih.2))
  statistics-run (erase block ∷ cs) s d =
      let r = underlying.erase d block in
      let ih = statistics-run cs (record s { erases_count = add64 s.erases_count 1 }) r.0 in
      (ap (λ l. answer r.1 ∷ l) ih.0, ih.1, omega (arith, ih.2))
  statistics-run (sync ∷ cs) s d =
      let r = underlying.sync d in
      let ih = statistics-run cs (record s { syncs_count = add64 s.syncs_count 1 }) r.0 in
      (ap (λ l. answer r.1 ∷ l) ih.0, ih.1, omega (arith, ih.2))
