-- ===== src/Reconcile/Sound.antt =====
-- The row of settings that a pass of internal/reconcile/reconcile.go leaves, and what it asked for.
use paperless_ai_ocr.Prelude.{
  ℕ, ◌+◌, ◌≤◌, ◌<◌, String, ◌≡◌, true, false, Option, none, some, List, [], ◌∷◌, map, arith, str_eq,
  length, All,
}
use paperless_ai_ocr.Saferr.{new}
use paperless_ai_ocr.Reconcile.Checkpoint.{
  ArchiveCheckpoint, Options, checkpoint_version, slices_contains, fingerprint_cursor,
  is_fingerprint, all_fingerprints, valid_checkpoint,
}
use paperless_ai_ocr.Reconcile.Checkpoint.{advanced}
use paperless_ai_ocr.Prelude.{length-append}
use paperless_ai_ocr.Reconcile.Visited.{Distinct, Within, Distinct-append, all_fingerprints-append}

-- What encoding/json, crypto/sha256 and encoding/hex promise: a checkpoint is read as it was written,
-- and a digest is 64 hexadecimal digits.
pub record Codec (o : Options) : Type 0 where
  pub decode_encode : (c : ArchiveCheckpoint) → o.decode (o.encode c) ≡ some c
  pub hex : (s : String) → is_fingerprint o (o.digest s) ≡ true

module _ (o : Options) where
  -- a checkpoint between two pages of a scan
  pub record Good (c : ArchiveCheckpoint) : Type 0 where
    pub version_one : c.version ≡ checkpoint_version
    pub counted : length c.visited ≡ c.pages
    pub hex : all_fingerprints o c.visited ≡ true
    pub bounded : c.pages ≤ o.max_archive_pages_per_scan
    pub distinct : Distinct c.visited

  -- A stored checkpoint is read without an error, within the limit of a scan, with no page twice.
  pub record Stored (value : String) : Type 0 where
    pub held : ArchiveCheckpoint
    pub reads : o.decode value ≡ some held
    pub valid : valid_checkpoint o held ≡ true
    pub bounded : held.pages ≤ o.max_archive_pages_per_scan
    pub distinct : Distinct held.visited

  abbrev pub SoundSetting : Option String → Type 0
  SoundSetting none = Unit
  SoundSetting (some value) = Stored value

  abbrev visited_in : Option ArchiveCheckpoint → List String
  visited_in none = []
  visited_in (some c) = c.visited

  -- the fingerprints of the pages that the scan has visited
  abbrev pub visited_of : Option String → List String
  visited_of none = []
  visited_of (some value) = visited_in (o.decode value)

  pub Good-valid :
      (c : ArchiveCheckpoint)
      → valid_checkpoint o c ≡ true
      → c.pages ≤ o.max_archive_pages_per_scan
      → Distinct c.visited
      → Good c
  unfolding valid_checkpoint
  Good-valid c h b d = record {
    version_one = ground arith;
    counted = ground arith;
    hex = ground arith;
    bounded = b;
    distinct = d;
  }

  module _ (old : List String) where
    abbrev prints : List String → List String
    prints = map (fingerprint_cursor o)

    -- After a pass: a sound row, and at most so many pages asked for, each once and none of the old.
    pub record Passed (s : Option String) (l : List String) : Type 0 where
      pub sound : SoundSetting s
      pub once : Distinct (prints l)
      pub fresh : All (λ f. slices_contains old f ≡ false) (prints l)
      pub few : length l ≤ o.max_archive_pages_per_pass

    -- In a scan that has visited some pages, with pages left in the pass.
    pub record Scanning (left : ℕ) (visited : List String) (s : Option String) (l : List String)
        : Type 0 where
      pub passed : Passed s l
      pub known : Within visited (prints l)
      pub older : Within visited old
      pub room : length l + left ≤ o.max_archive_pages_per_pass

  module _ (codec : Codec o) where
    pub Good-advanced :
        (c : ArchiveCheckpoint) (next : String)
        → Good c
        → c.pages < o.max_archive_pages_per_scan
        → slices_contains c.visited (fingerprint_cursor o c.next) ≡ false
        → Good (advanced o c next)
    unfolding fingerprint_cursor
    Good-advanced c next g below new = record {
      version_one = g.version_one;
      counted =
          omega (arith, g.counted, length-append c.visited (fingerprint_cursor o c.next ∷ []));
      hex = all_fingerprints-append o c.visited (fingerprint_cursor o c.next) g.hex (codec.hex _);
      bounded = omega arith;
      distinct = Distinct-append c.visited (fingerprint_cursor o c.next) g.distinct new;
    }

    pub Stored-encode :
        (c : ArchiveCheckpoint)
        → Good c
        → str_eq c.next "" ≡ false
        → 0 < c.pages
        → Stored (o.encode c)
    unfolding valid_checkpoint
    Stored-encode c g more pos = record {
      held = c;
      reads = codec.decode_encode c;
      valid = (let v = g.version_one in let n = g.counted in let x = g.hex in ground arith);
      bounded = g.bounded;
      distinct = g.distinct;
    }
