-- ===== src/Reconcile/Passes.antt =====
-- RunOnce of internal/reconcile/reconcile.go: the candidates, then pages of the archive.
use paperless_ai_ocr.Prelude.{
  ℕ, zero, suc, ◌-◌, ◌^◌, String, Bool, true, not, Option, none, some, List, [], ◌∷◌, str_eq, ltb,
  ◌==◌, if◌then◌else◌,
}
use paperless_ai_ocr.Text.{blank}
use paperless_ai_ocr.Saferr.{paperless, validation, new, ok}
use paperless_ai_ocr.Queue.Model.{priority_backfill, EnqueueInput, Candidate}
use paperless_ai_ocr.Queue.Model.{priority_backfill, Candidate, EnqueueInput}
use paperless_ai_ocr.Queue.Candidates
use paperless_ai_ocr.Queue.Candidates.{Resolution}
use paperless_ai_ocr.Queue.Enqueue
use paperless_ai_ocr.Queue.Calls.{run_all}
use paperless_ai_ocr.Finalize.World.{Document}
use paperless_ai_ocr.Reconcile.World.{
  Report, no_report, Fetched, found, missing, unavailable, DocumentPage, Env, Exec, ◌>>=◌, ◌>>◌,
  give, stop, guard, reconcile_error, pagination_error, ask, stored, settled, tally,
}
use paperless_ai_ocr.Reconcile.Checkpoint.{
  advanced, ArchiveCheckpoint, Options, slices_contains, fingerprint_cursor, checkpoint,
  set_checkpoint, clear_checkpoint,
}

-- math.MaxInt
abbrev pub max_int : ℕ
max_int = 2 ^ 63 - 1

module _ (o : Options) (env : Env) where
  -- NextCandidate
  unfoldable pub next_candidate : String → Exec (Option Candidate)
  next_candidate message w = (
    settled message
        (Candidates.next_candidate (env.statement w.step) (run_all (env.between w.step) w.db)),
    record w { step = suc w.step; db = run_all (env.between w.step) w.db },
  )

  -- GetDocument
  unfoldable pub fetch : ℕ → Exec Fetched
  fetch document_id w =
      (ok (env.document w.step), record w { step = suc w.step; fetched = document_id ∷ w.fetched })

  unfoldable pub discard : String → Candidate → Exec (Unit {0})
  discard message c =
      stored env message
        (λ conn now db. Candidates.discard_candidate conn c.document_id c.generation db)
      >>= λ discarded. tally (λ r.
        if discarded then record r { candidates_discarded = suc r.candidates_discarded } else r)

  abbrev input_for : Candidate → Document → EnqueueInput
  input_for c document = record {
    document_id = c.document_id;
    source_checksum = document.checksum;
    priority = c.priority;
    model = o.model;
    prompt_version = o.prompt_version;
  }

  abbrev count_created : Bool → Report → Report
  count_created created r = if created then record r { jobs_created = suc r.jobs_created } else r

  abbrev count_resolution : Resolution → Report → Report
  count_resolution resolution r =
      if resolution.resolved
      then count_created resolution.created
          (record r { candidates_resolved = suc r.candidates_resolved })
      else r

  unfoldable pub resolve : Candidate → Document → Exec (Unit {0})
  resolve c document =
      if blank document.checksum
      then discard "cannot discard invalid candidate" c
      else (stored env "cannot persist resolved candidate" (λ conn now db.
            Candidates.resolve_candidate conn now c.document_id c.generation (input_for c document)
              db)
          >>= λ resolution. tally (count_resolution resolution))

  unfoldable pub after_fetch : Candidate → Fetched → Exec (Unit {0})
  after_fetch c missing = discard "cannot discard missing candidate" c
  after_fetch c (unavailable f) = stop (reconcile_error "cannot resolve candidate" f)
  after_fetch c (found document) = resolve c document

  -- one round for a candidate, and the rounds after it
  unfoldable pub candidate_round : Exec (Unit {0}) → Option Candidate → Exec (Unit {0})
  candidate_round rest none = give tt
  candidate_round rest (some c) =
      guard (ltb max_int c.document_id) (new validation "candidate document ID is unsupported")
      >> (fetch c.document_id >>= after_fetch c)
      >> rest

  -- the loop over the candidates
  unfoldable pub resolve_candidates : ℕ → Exec (Unit {0})
  resolve_candidates zero = give tt
  resolve_candidates (suc n) =
      let rest = resolve_candidates n in
      next_candidate "cannot select candidate" >>= candidate_round rest

  abbrev backfill : Document → EnqueueInput
  backfill document = record {
    document_id = document.id;
    source_checksum = document.checksum;
    priority = priority_backfill;
    model = o.model;
    prompt_version = o.prompt_version;
  }

  -- the documents of a page
  unfoldable pub enqueue_documents : List Document → Exec (Unit {0})
  enqueue_documents [] = give tt
  enqueue_documents (document ∷ documents) =
      let rest = enqueue_documents documents in
      tally (λ r. record r { documents_seen = suc r.documents_seen })
      >> guard (blank document.checksum) (new paperless "archive document checksum is blank")
      >> (stored env "cannot persist archive document"
            (λ conn now db. Enqueue.enqueue_context conn now (backfill document) db)
          >>= λ answer. tally (count_created answer.1))
      >> rest

  -- ListDocumentsPage
  unfoldable pub list_page : String → Exec DocumentPage
  list_page cursor w =
      ask "cannot list archive page" env.page (record w { listed = cursor ∷ w.listed })

  unfoldable pub finish_scan : Exec (Unit {0})
  finish_scan = clear_checkpoint o env >> tally (λ r. record r { scan_complete = true })

  -- what follows a page, where `more` tells whether the pass has pages left
  unfoldable pub continue_scan : Bool → ArchiveCheckpoint → Exec (Unit {0})
  continue_scan more c =
      set_checkpoint o env c
      >> guard (slices_contains c.visited (fingerprint_cursor o c.next))
          (pagination_error "archive pagination loop detected")
      >> guard (not (ltb c.pages o.max_archive_pages_per_scan))
          (pagination_error "archive page limit exceeded")
      >> (if more then ask "archive page yield failed" env.yield else give tt)

  unfoldable pub after_page :
      (ArchiveCheckpoint → Exec (Unit {0})) → Bool → ArchiveCheckpoint → Exec (Unit {0})
  after_page rest more c =
      tally (λ r. record r { pages_processed = suc r.pages_processed })
      >> (if str_eq c.next "" then finish_scan else (continue_scan more c >> rest c))

  -- the loop over the pages of a pass
  unfoldable pub scan_archive : ℕ → ArchiveCheckpoint → Exec (Unit {0})
  scan_archive zero c = give tt
  scan_archive (suc n) c =
      let rest = scan_archive n in
      guard (not (ltb c.pages o.max_archive_pages_per_scan))
        (pagination_error "archive page limit exceeded")
      >> (guard (slices_contains c.visited (fingerprint_cursor o c.next))
            (pagination_error "archive pagination loop detected")
          >> (list_page c.next >>= λ page.
              enqueue_documents page.documents
              >> after_page rest (not (n == 0)) (advanced o c page.next)))

  -- the archive is scanned where no candidate is left
  unfoldable pub archive_pass : Option Candidate → Exec (Unit {0})
  archive_pass (some c) = give tt
  archive_pass none = checkpoint o env >>= scan_archive o.max_archive_pages_per_pass

  -- RunOnce; its report is that of the world after it
  unfoldable pub run_once : Exec (Unit {0})
  run_once w =
      (resolve_candidates o.max_candidates_per_pass
          >> (next_candidate "cannot inspect remaining candidates" >>= archive_pass))
        (record w { report = no_report })
