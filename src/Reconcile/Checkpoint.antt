-- ===== src/Reconcile/Checkpoint.antt =====
-- The checkpoint of the archive scan of internal/reconcile/reconcile.go: its row of settings, and
-- the fingerprints of the pages that were visited.
use paperless_ai_ocr.Prelude.{
  ℕ, suc, String, Bool, true, false, not, ◌&&◌, ◌||◌, Option, none, some, List, [], ◌∷◌, ◌++◌,
  str_eq, ◌==◌, if◌then◌else◌, length,
}
use paperless_ai_ocr.Text.{byte_length}
use paperless_ai_ocr.Saferr.{internal, Cause, Error, new, Result, ok, err}
use paperless_ai_ocr.Ocr.Bytes.{Bytes, ascii, bytes_eq, has_suffix}
use paperless_ai_ocr.Finalize.World.{other}
use paperless_ai_ocr.Reconcile.World.{Env, World, Exec, reconcile_error}

-- archiveCheckpoint
pub record ArchiveCheckpoint : Type 0 where
  pub version : ℕ
  pub next : String
  pub visited : List String
  pub pages : ℕ

-- what net/url reads of a cursor
pub record Url : Type 0 where
  pub path : Bytes
  pub raw_query : Bytes

-- What New is given, and the functions that it uses: `digest` is hex.EncodeToString of
-- sha256.Sum256, `is_hex` whether hex.DecodeString takes a text, `parse` is url.Parse, and `encode`
-- and `decode` are json.Marshal and json.Unmarshal for the checkpoint.
pub record Options : Type 0 where
  pub model : String
  pub prompt_version : String
  pub max_candidates_per_pass : ℕ
  pub max_archive_pages_per_pass : ℕ
  pub max_archive_pages_per_scan : ℕ
  pub digest : String → String
  pub is_hex : String → Bool
  pub parse : String → Option Url
  pub encode : ArchiveCheckpoint → String
  pub decode : String → Option ArchiveCheckpoint

abbrev pub checkpoint_version : ℕ
checkpoint_version = 1

abbrev pub initial_cursor_identifier : String
initial_cursor_identifier = "paperless-documents-initial-page"

abbrev pub initial_url : Option Url → Bool
initial_url none = false
initial_url (some url) = bytes_eq url.raw_query [] && has_suffix url.path (ascii "/api/documents/")

-- slicesContains
unfoldable pub slices_contains : List String → String → Bool
slices_contains [] target = false
slices_contains (value ∷ values) target = str_eq value target || slices_contains values target

abbrev pub invalid_checkpoint : Error
invalid_checkpoint = new internal "archive checkpoint is invalid"

abbrev pub first_checkpoint : ArchiveCheckpoint
first_checkpoint = record { version = checkpoint_version; next = ""; visited = []; pages = 0 }

module _ (o : Options) where
  -- fingerprintCursor
  unfoldable pub fingerprint_cursor : String → String
  fingerprint_cursor cursor = o.digest (
      if str_eq cursor "" || initial_url (o.parse cursor)
      then initial_cursor_identifier
      else cursor)

  -- a checkpoint with the page that was processed
  abbrev pub advanced : ArchiveCheckpoint → String → ArchiveCheckpoint
  advanced c next = record c {
    next = next;
    visited = c.visited ++ fingerprint_cursor c.next ∷ [];
    pages = suc c.pages;
  }

  abbrev pub is_fingerprint : String → Bool
  is_fingerprint fingerprint = byte_length fingerprint == 64 && o.is_hex fingerprint

  unfoldable pub all_fingerprints : List String → Bool
  all_fingerprints [] = true
  all_fingerprints (fingerprint ∷ rest) = is_fingerprint fingerprint && all_fingerprints rest

  -- the checks of a checkpoint that was read
  unfoldable pub valid_checkpoint : ArchiveCheckpoint → Bool
  valid_checkpoint c =
      c.version == checkpoint_version
      && not (str_eq c.next "")
      && not (c.pages == 0)
      && length c.visited == c.pages
      && all_fingerprints c.visited

  unfoldable pub decoded : Option ArchiveCheckpoint → Result ArchiveCheckpoint
  decoded none = err invalid_checkpoint
  decoded (some c) = if valid_checkpoint c then ok c else err invalid_checkpoint

  unfoldable pub read_setting : Option Cause → Option String → Result ArchiveCheckpoint
  unfolding decoded
  read_setting (some cause) setting =
      err (reconcile_error "cannot load archive checkpoint" (other cause))
  read_setting none none = ok first_checkpoint
  read_setting none (some value) = decoded (o.decode value)

  -- checkpoint
  unfoldable pub checkpoint : Env → Exec ArchiveCheckpoint
  unfolding read_setting
  checkpoint env w = (read_setting (env.statement w.step) w.setting, record w { step = suc w.step })

  abbrev pub written : Option Cause → String → Option String → World → Result (Unit {0}) × World
  written (some cause) message value w = (err (reconcile_error message (other cause)), w)
  written none message value w = (ok tt, record w { setting = value })

  -- setCheckpoint and clearCheckpoint
  unfoldable pub set_checkpoint : Env → ArchiveCheckpoint → Exec (Unit {0})
  set_checkpoint env c w =
      written (env.statement w.step) "cannot save archive checkpoint" (some (o.encode c))
        (record w { step = suc w.step })

  unfoldable pub clear_checkpoint : Env → Exec (Unit {0})
  clear_checkpoint env w =
      written (env.statement w.step) "cannot clear archive checkpoint" none
        (record w { step = suc w.step })
