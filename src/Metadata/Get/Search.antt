-- ===== src/Metadata/Get/Search.antt =====
-- What `lfs_dir_getslice` looks for, on the bytes of a block at once: the list of all tags first, the
-- last one at its head, and then a search through that list.
use littlefs_v.Base.{
  ℕ, zero, suc, ◌+◌, ◌-◌, List, [], ◌∷◌, ◌++◌, leb, ltb, if◌then◌else◌, add32, replicate, tabulate,
}
use littlefs_v.Errors.{Error, Outcome, ok, err, signed_result}
use littlefs_v.Utility.Align.{lfs_min}
use littlefs_v.Utility.Tag.{tag_size, tag_isdelete, tag_dsize}
use littlefs_v.Metadata.Get.{Seen, created, found, passed, see, earlier_tag}

-- A tag and where it stands.
pub record Entry : Type 0 where
  pub tag : ℕ
  pub at : ℕ

-- The tags of the log that ends before `end` with `tag`.
unfoldable pub entries : (ℕ → ℕ) → ℕ → ℕ → ℕ → List Entry
entries f zero end tag = []
entries f (suc left) end tag =
    let at = end - tag_dsize tag in
    let rest = entries f left at (earlier_tag (tabulate f at 4) tag) in
    if leb (4 + tag_dsize tag) end then record { tag = tag; at = at } ∷ rest else []

-- Data with its tag, filled up with zeros.
abbrev pub with_data : List ℕ → Outcome ℕ → Outcome (ℕ × List ℕ)
with_data bytes (ok tag) = ok (tag, bytes)
with_data bytes (err e) = err e
with_data bytes Outcome.abort = Outcome.abort
with_data bytes Outcome.out_of_fuel = Outcome.out_of_fuel
with_data bytes Outcome.fault = Outcome.fault

module _ (block_size : ℕ) (f : ℕ → ℕ) (gmask gtag goff gsize : ℕ) where
  unfoldable pub data_of : Entry → ℕ → Outcome (ℕ × List ℕ)
  data_of e gdiff =
      let diff = lfs_min (tag_size e.tag) gsize in
      if tag_isdelete e.tag
      then err Error.noent
      else if ltb block_size (e.at + 4 + goff + diff)
      then err Error.corrupt
      else with_data (tabulate f (e.at + 4 + goff) diff ++ replicate (gsize - diff) 0)
          (signed_result (add32 e.tag gdiff))

  unfoldable pub search_seen : Entry → (ℕ → Outcome (ℕ × List ℕ)) → Seen → Outcome (ℕ × List ℕ)
  search_seen e next created = err Error.noent
  search_seen e next (found gdiff) = data_of e gdiff
  search_seen e next (passed gdiff) = next gdiff

  unfoldable pub search_log : List Entry → ℕ → Outcome (ℕ × List ℕ)
  search_log [] gdiff = err Error.noent
  search_log (e ∷ rest) gdiff =
      search_seen e (λ gdiff'. search_log rest gdiff') (see gmask gtag e.tag gdiff)
