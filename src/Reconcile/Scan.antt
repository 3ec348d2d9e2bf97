-- ===== src/Reconcile/Scan.antt =====
-- RunOnce of internal/reconcile/reconcile.go, step by step: the row of settings that it leaves, and
-- the pages that it asks for.
use paperless_ai_ocr.Prelude.{
  ℕ, suc, ◌≤◌, String, ◌≡◌, refl, sym, subst, ◌∙◌, true, false, Option, none, some, List, [], map,
  arith, length, All,
}
use paperless_ai_ocr.Saferr.{Cause, Result, ok, err, ok_inj}
use paperless_ai_ocr.Queue.Model.{Candidate}
use paperless_ai_ocr.Saferr.{ok≢err}
use paperless_ai_ocr.Reconcile.World.{no_report, Env, World, ◌>>=◌, ◌>>◌}
use paperless_ai_ocr.Reconcile.Checkpoint.{
  all_fingerprints, first_checkpoint, ArchiveCheckpoint, Options, slices_contains,
  fingerprint_cursor, valid_checkpoint, decoded, read_setting, checkpoint,
}
use paperless_ai_ocr.Reconcile.Passes.{next_candidate, resolve_candidates, archive_pass, run_once}
use paperless_ai_ocr.Reconcile.Triples.{
  View, Judged, Triple, Still-give, Triple-Still, Triple-bind, Triple-then, Triple-fact,
  Triple-weaken,
}
use paperless_ai_ocr.Reconcile.Visited.{Distinct, Within, Within-same}
use paperless_ai_ocr.Reconcile.Sound.{
  Codec, Good, SoundSetting, visited_of, Good-valid, Passed, Scanning,
}
use paperless_ai_ocr.Reconcile.Idle.{Still-next_candidate, Still-resolve_candidates}
use paperless_ai_ocr.Reconcile.Pages.{scan_archive-Scanned}

module _ (o : Options) (env : Env) (codec : Codec o) (old : List String) where
  abbrev most : ℕ
  most = o.max_archive_pages_per_pass

  abbrev AfterPass : View
  AfterPass = Passed o old

  abbrev InScan : ℕ → List String → View
  InScan = Scanning o old

  abbrev At : Option String → View
  At s₀ s l = (s ≡ s₀) × (l ≡ [])

  -- what checkpoint hands to the scan
  abbrev Loaded : ArchiveCheckpoint → Type 0
  Loaded c = Good o c × Within c.visited old

  read_setting-Loaded :
      (s : Option String)
      → SoundSetting o s
      → visited_of o s ≡ old
      → (answer : Option Cause) (c : ArchiveCheckpoint) → read_setting o answer s ≡ ok c
      → Loaded c
  unfolding read_setting decoded all_fingerprints
  read_setting-Loaded s sound visits (some cause) c h = absurd (ok≢err (sym h))
  read_setting-Loaded none sound visits none c h =
      subst Loaded (ok_inj h) (first, subst (Within []) visits tt)
    where
      first : Good o first_checkpoint
      first = record {
        version_one = refl;
        counted = refl;
        hex = refl;
        bounded = omega arith;
        distinct = tt;
      }
  read_setting-Loaded (some value) sound visits none c h =
      let same : decoded o (some sound.held) ≡ ok c = rw sound.reads at h in
      let visited : sound.held.visited ≡ old = rw sound.reads at visits in
      subst Loaded (ok_inj (sym (decoded-valid sound.held sound.valid) ∙ same)) (
        Good-valid o sound.held sound.valid sound.bounded sound.distinct,
        subst (Within sound.held.visited) visited (Within-same sound.held.visited),
      )
    where
      decoded-valid :
          (held : ArchiveCheckpoint)
          → valid_checkpoint o held ≡ true
          → decoded o (some held) ≡ ok held
      decoded-valid held v = rw v refl

  module _ (s₀ : Option String) (sound : SoundSetting o s₀) where
    passed-At : (s : Option String) (l : List String) → At s₀ s l → AfterPass s l
    passed-At s l (e, n) =
        subst (λ t. AfterPass t l) (sym e)
          (subst (λ k. AfterPass s₀ k) (sym n)
            (record { sound = sound; once = tt; fresh = tt; few = omega arith }))

    scanning-At :
        (c : ArchiveCheckpoint)
        → Within c.visited old
        → (s : Option String) (l : List String) → At s₀ s l
        → InScan most c.visited s l
    scanning-At c older s l h =
        subst (λ k. InScan most c.visited s k) (sym h.1)
          (record {
            passed = subst (λ k. AfterPass s k) h.1 (passed-At s l h);
            known = tt;
            older = older;
            room = omega arith;
          })

    module _ (visits : visited_of o s₀ ≡ old) where
      checkpoint-Loaded :
          Triple (At s₀) (checkpoint o env) (λ c s l. Loaded c × At s₀ s l) AfterPass
      unfolding checkpoint
      checkpoint-Loaded = record { holds = λ w h. go w _ refl h }
        where
          go :
              (w : World) (r : Result ArchiveCheckpoint)
              → read_setting o (env.statement w.step) w.setting ≡ r
              → At s₀ w.setting w.listed
              → Judged AfterPass (λ c s l. Loaded c × At s₀ s l) (r, record w { step = suc w.step })
          go w (err x) e h = passed-At w.setting w.listed h
          go w (ok c) e h = (
            read_setting-Loaded s₀ sound visits (env.statement w.step) c
                (subst (λ s. read_setting o (env.statement w.step) s ≡ ok c) h.0 e),
            h,
          )

      archive_pass-Passed :
          (next : Option Candidate)
          → Triple (At s₀) (archive_pass o env next) (λ _. AfterPass) AfterPass
      unfolding archive_pass
      archive_pass-Passed (some candidate) =
          Triple-weaken _ passed-At (Triple-Still (λ s l p. p) _ (Still-give tt))
      archive_pass-Passed none = Triple-bind _ _ checkpoint-Loaded λ c. Triple-fact _ λ loaded.
          Triple-weaken _ (scanning-At c loaded.1)
            (scan_archive-Scanned o env codec old most c loaded.0)

      run_once-Passed :
          (w : World)
          → w.setting ≡ s₀
          → w.listed ≡ []
          → AfterPass (run_once o env w).1.setting (run_once o env w).1.listed
      unfolding run_once
      run_once-Passed w e n = ended _ (passes.holds (record w { report = no_report }) (e, n))
        where
          passes :
              Triple
                (At s₀)
                (resolve_candidates o env o.max_candidates_per_pass
                  >> (next_candidate o env "cannot inspect remaining candidates"
                      >>= archive_pass o env))
                (λ _. AfterPass)
                AfterPass
          passes =
              Triple-then _ _
                (Triple-Still passed-At _
                  (Still-resolve_candidates o env o.max_candidates_per_pass))
                (Triple-bind _ _ (Triple-Still passed-At _ (Still-next_candidate o env _))
                  archive_pass-Passed)

          ended :
              (p : Result (Unit {0}) × World)
              → Judged AfterPass (λ _. AfterPass) p
              → AfterPass p.1.setting p.1.listed
          ended (err x, w') h = h
          ended (ok a, w') h = h

module _ (o : Options) (env : Env) (codec : Codec o) where
  -- Where a checkpoint is read as it was written, and a digest is 64 hexadecimal digits: whatever
  -- the answers are and wherever a pass ends, with an error or without, it leaves no row of
  -- settings, or one that the next pass reads without an error, with no page twice and no more
  -- pages than a scan allows, if it found such.
  pub run_once-Sound :
      (w : World)
      → SoundSetting o w.setting
      → w.listed ≡ []
      → SoundSetting o (run_once o env w).1.setting
  run_once-Sound w sound n =
      (run_once-Passed o env codec (visited_of o w.setting) w.setting sound refl w refl n).sound

  -- Where a checkpoint is read as it was written, a digest is 64 hexadecimal digits, and a row of
  -- settings, if there is one, reads as a valid checkpoint within the limit of a scan and with no
  -- page twice: whatever Paperless, SQLite and other callers do, a pass asks for at most as many
  -- pages of the archive as its limit allows, for none twice, by their fingerprints, and for none
  -- that the scan visited in an earlier pass.
  pub run_once-listed :
      (w : World)
      → SoundSetting o w.setting
      → w.listed ≡ []
      → Distinct (map (fingerprint_cursor o) (run_once o env w).1.listed)
        × All
            (λ f. slices_contains (visited_of o w.setting) f ≡ false)
            (map (fingerprint_cursor o) (run_once o env w).1.listed)
        × (length (run_once o env w).1.listed ≤ o.max_archive_pages_per_pass)
  run_once-listed w sound n =
      let passed =
        run_once-Passed o env codec (visited_of o w.setting) w.setting sound refl w refl n in
      (passed.once, passed.fresh, passed.few)
