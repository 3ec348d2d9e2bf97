-- ===== src/Reconcile/Pages.antt =====
-- The loop of RunOnce of internal/reconcile/reconcile.go over pages of the archive.
use paperless_ai_ocr.Prelude.{
  ℕ, zero, suc, ◌<◌, String, ◌≡◌, Bool, false, not, Option, none, some, List, [], ◌∷◌, ◌++◌, map,
  arith, str_eq, ◌==◌,
}
use paperless_ai_ocr.Saferr.{Cause, new}
use paperless_ai_ocr.Reconcile.World.{Env, World, Exec, ask, stored}
use paperless_ai_ocr.Reconcile.Checkpoint
use paperless_ai_ocr.Reconcile.Checkpoint.{
  all_fingerprints, first_checkpoint, advanced, ArchiveCheckpoint, Options, slices_contains,
  fingerprint_cursor, valid_checkpoint, decoded, read_setting, checkpoint, set_checkpoint,
  clear_checkpoint,
}
use paperless_ai_ocr.Reconcile.Passes.{
  list_page, finish_scan, continue_scan, after_page, scan_archive,
}
use paperless_ai_ocr.Reconcile.Triples.{
  View, Judged, Triple, Still, Still-give, Still-ask, Still-if, Still-tally, Still-guard,
  Triple-Still, Triple-bind, Triple-then, Triple-guard, Triple-if, Triple-weaken,
}
use paperless_ai_ocr.Reconcile.Visited.{contains-Within, Within-append, contains-last}
use paperless_ai_ocr.Reconcile.Sound.{
  Codec, Good, Stored, SoundSetting, Good-advanced, Stored-encode, Passed, Scanning,
}
use paperless_ai_ocr.Reconcile.Idle.{Still-enqueue_documents}

module _ (o : Options) (env : Env) (codec : Codec o) (old : List String) where
  abbrev most : ℕ
  most = o.max_archive_pages_per_pass

  abbrev prints : List String → List String
  prints = map (fingerprint_cursor o)

  abbrev AfterPass : View
  AfterPass = Passed o old

  abbrev InScan : ℕ → List String → View
  InScan = Scanning o old

  passed-of :
      (left : ℕ) (visited : List String) (s : Option String) (l : List String)
      → InScan left visited s l
      → AfterPass s l
  passed-of left visited s l h = h.passed

  listed :
      (left : ℕ) (c : ArchiveCheckpoint) (s : Option String) (l : List String)
      → slices_contains c.visited (fingerprint_cursor o c.next) ≡ false
      → InScan (suc left) c.visited s l
      → InScan left (c.visited ++ fingerprint_cursor o c.next ∷ []) s (c.next ∷ l)
  listed left c s l new h = record {
    passed = record {
      sound = h.passed.sound;
      once = (contains-Within c.visited (prints l) _ h.known new, h.passed.once);
      fresh = (contains-Within c.visited old _ h.older new, h.passed.fresh);
      few = (let room = h.room in omega arith);
    };
    known = (
      contains-last c.visited (fingerprint_cursor o c.next),
      Within-append c.visited (prints l) _ h.known,
    );
    older = Within-append c.visited old _ h.older;
    room = (let room = h.room in omega arith);
  }

  list_page-Scanning :
      (left : ℕ) (c : ArchiveCheckpoint)
      → slices_contains c.visited (fingerprint_cursor o c.next) ≡ false
      → Triple
          (InScan (suc left) c.visited)
          (list_page o env c.next)
          (λ _. InScan left (c.visited ++ fingerprint_cursor o c.next ∷ []))
          AfterPass
  unfolding list_page
  list_page-Scanning left c new = record {
    holds = λ w h.
        (Triple-Still (passed-of left _) (ask "cannot list archive page" env.page)
            (Still-ask _ _)).holds
          (record w { listed = c.next ∷ w.listed }) (listed left c w.setting w.listed new h);
  }

  resettled :
      (left : ℕ) (visited : List String) (s s' : Option String) (l : List String)
      → SoundSetting o s'
      → InScan left visited s l
      → InScan left visited s' l
  resettled left visited s s' l sound h = record {
    passed = record {
      sound = sound;
      once = h.passed.once;
      fresh = h.passed.fresh;
      few = h.passed.few;
    };
    known = h.known;
    older = h.older;
    room = h.room;
  }

  set_checkpoint-Scanning :
      (left : ℕ) (visited : List String) (c : ArchiveCheckpoint)
      → Stored o (o.encode c)
      → Triple (InScan left visited) (set_checkpoint o env c) (λ _. InScan left visited) AfterPass
  unfolding set_checkpoint
  set_checkpoint-Scanning left visited c stored = record {
    holds = λ w h. go w (env.statement w.step) h;
  }
    where
      go :
          (w : World) (answer : Option Cause)
          → InScan left visited w.setting w.listed
          → Judged AfterPass
              (λ _. InScan left visited)
              (Checkpoint.written o answer "cannot save archive checkpoint"
                (some (o.encode c))
                (record w { step = suc w.step }))
      go w none h = resettled left visited _ _ w.listed stored h
      go w (some cause) h = h.passed

  clear_checkpoint-Scanning :
      (left : ℕ) (visited : List String)
      → Triple (InScan left visited) (clear_checkpoint o env) (λ _. InScan left visited) AfterPass
  unfolding clear_checkpoint
  clear_checkpoint-Scanning left visited = record { holds = λ w h. go w (env.statement w.step) h }
    where
      go :
          (w : World) (answer : Option Cause)
          → InScan left visited w.setting w.listed
          → Judged AfterPass
              (λ _. InScan left visited)
              (Checkpoint.written o answer "cannot clear archive checkpoint" none
                (record w { step = suc w.step }))
      go w none h = resettled left visited _ _ w.listed tt h
      go w (some cause) h = h.passed

  finishing :
      {A : Type 0} {left : ℕ} {visited : List String} (m : Exec A)
      → Still m
      → Triple (InScan left visited) m (λ _. AfterPass) AfterPass
  finishing {left = left} {visited} m h =
      Triple-weaken m (passed-of left visited) (Triple-Still (λ s l p. p) m h)

  continue_scan-Scanning :
      (left : ℕ) (more : Bool) (c : ArchiveCheckpoint)
      → Stored o (o.encode c)
      → Triple
          (InScan left c.visited)
          (continue_scan o env more c)
          (λ _. InScan left c.visited)
          AfterPass
  unfolding continue_scan
  continue_scan-Scanning left more c stored =
      let imp = passed-of left c.visited in
      Triple-then _ _
        (Triple-then _ _
          (Triple-then _ _ (set_checkpoint-Scanning left c.visited c stored)
            (Triple-Still imp _ (Still-guard _ _)))
          (Triple-Still imp _ (Still-guard _ _)))
        (Triple-Still imp _ (Still-if more _ _ (Still-ask _ _) (Still-give tt)))

  after_page-Scanned :
      (left : ℕ) (rest : ArchiveCheckpoint → Exec (Unit {0})) (more : Bool) (c : ArchiveCheckpoint)
      → Good o c
      → 0 < c.pages
      → Triple (InScan left c.visited) (rest c) (λ _. AfterPass) AfterPass
      → Triple (InScan left c.visited) (after_page o env rest more c) (λ _. AfterPass) AfterPass
  unfolding after_page finish_scan
  after_page-Scanned left rest more c g pos h =
      Triple-then _ _ (Triple-Still (passed-of left c.visited) _ (Still-tally _)) (
        Triple-if (str_eq c.next "") _ _
          (λ _.
            Triple-then _ _ (clear_checkpoint-Scanning left c.visited)
              (finishing _ (Still-tally _)))
          (λ n.
            Triple-then _ _ (continue_scan-Scanning left more c (Stored-encode o codec c g n pos))
              h))

  pub scan_archive-Scanned :
      (left : ℕ) (c : ArchiveCheckpoint)
      → Good o c
      → Triple (InScan left c.visited) (scan_archive o env left c) (λ _. AfterPass) AfterPass
  unfolding scan_archive
  scan_archive-Scanned zero c g = finishing _ (Still-give tt)
  scan_archive-Scanned (suc left) c g = Triple-guard _ _ _ (passed-of (suc left) c.visited) λ below.
      Triple-guard _ _ _ (passed-of (suc left) c.visited) λ new.
        Triple-bind _ _ (list_page-Scanning left c new) λ page.
          Triple-then _ _
            (Triple-Still (passed-of left _) _ (Still-enqueue_documents o env page.documents))
            (after_page-Scanned left (scan_archive o env left) (not (left == 0))
              (advanced o c page.next) (Good-advanced o codec c page.next g (ground arith) new)
              (omega arith)
              (scan_archive-Scanned left (advanced o c page.next)
                (Good-advanced o codec c page.next g (ground arith) new)))
