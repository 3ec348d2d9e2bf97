-- ===== src/Worker/Aligned.antt =====
-- The batches that the loop of process of internal/worker/worker.go collects: one for each range of
-- the plan, whether it was kept from an earlier run or transcribed in this one.
use paperless_ai_ocr.Prelude.{
  ℕ, suc, ◌+◌, ◌-◌, ◌≤◌, String, ◌≡◌, refl, ap, subst, ◌∙◌, Bool, true, false, List, [], ◌∷◌, ◌++◌,
  map, arith, length,
}
use paperless_ai_ocr.Saferr.{ok}
use paperless_ai_ocr.Queue.Model.{Job, BatchRange, Batch}
use paperless_ai_ocr.Queue.Valid.{same_batch_plan}
use paperless_ai_ocr.Ocr.Bytes.{Bytes}
use paperless_ai_ocr.Ocr.Meta.{Unicode}
use paperless_ai_ocr.Ocr.Model as Model
use paperless_ai_ocr.Ocr.Valid.{valid_batch, valid_range, valid_pages}
use paperless_ai_ocr.Ocr.Join.{all_pages}
use paperless_ai_ocr.Ocr.Join.RoundTrip.{valid_pages-numbers, map-append}
use paperless_ai_ocr.Ocr.Validate.Accepted.{Accepted, validate-Accepted}
use paperless_ai_ocr.Ocr.Canonical.{validate_canonical}
use paperless_ai_ocr.Ocr.Canonical.Again.{validate_canonical-eq-ok}
use paperless_ai_ocr.Worker.Plan.{count_up, pages_of}
use paperless_ai_ocr.Worker.Transcribe.{Ending, raw, interrupted, refused}
use paperless_ai_ocr.Worker.World.{Env}
use paperless_ai_ocr.Queue.Model.{is_completed}
use paperless_ai_ocr.Worker.Steps.{
  text_of, Options, validated, transcribe, transcribe_and_checkpoint,
  render_transcribe_and_checkpoint, kept, batch_of, process_batches,
}
use paperless_ai_ocr.Worker.Delivers.{
  Delivers, Delivers-give, Delivers-stop, Delivers-if, Delivers-bind, Delivers-trivial,
  Delivers-then, Delivers-checked,
}

-- batches of the ranges, one after the other
pub record Fits (unicode : Unicode) (r : BatchRange) (b : Model.Batch) : Type 0 where
  pub accepted : Accepted unicode r.first_page r.last_page b

abbrev pub Aligned : Unicode → List BatchRange → List Model.Batch → Type 0
Aligned unicode [] [] = Unit
Aligned unicode [] (b ∷ bs) = ⊥
Aligned unicode (r ∷ rs) [] = ⊥
Aligned unicode (r ∷ rs) (b ∷ bs) = Fits unicode r b × Aligned unicode rs bs

parts :
    (unicode : Unicode) (b : Model.Batch) (expected : ℕ)
    → valid_batch unicode b expected ≡ true
    → (valid_pages unicode b.first_page 0 b.pages ≡ true)
      × (length b.pages ≡ b.last_page - b.first_page + 1)
unfolding valid_batch
parts unicode b expected h = (ground arith, ground arith)

in_order :
    (unicode : Unicode) (b : Model.Batch) (expected : ℕ)
    → valid_batch unicode b expected ≡ true
    → b.first_page ≤ b.last_page
unfolding valid_batch valid_range
in_order unicode b expected h = ground arith

count :
    {first last first' last' : ℕ}
    → first ≡ first'
    → last ≡ last'
    → first ≤ last
    → last - first + 1 ≡ suc last' - first'
count ef el le = omega arith

-- The pages of such batches are those of the ranges.
Fits-numbers :
    (unicode : Unicode) (r : BatchRange) (b : Model.Batch)
    → Fits unicode r b
    → map (λ page. page.number) b.pages ≡ count_up r.first_page (suc r.last_page - r.first_page)
Fits-numbers unicode r b f =
    let (valid, size) = parts unicode b r.first_page f.accepted.valid in
    valid_pages-numbers unicode b.first_page 0 b.pages valid
    ∙ (λ i. count_up (f.accepted.first i) (length b.pages))
    ∙ ap (count_up r.first_page) (size ∙ count f.accepted.first f.accepted.last valid_order)
  where
    valid_order : b.first_page ≤ b.last_page
    valid_order = in_order unicode b r.first_page f.accepted.valid

pub Aligned-numbers :
    (unicode : Unicode) (rs : List BatchRange) (bs : List Model.Batch)
    → Aligned unicode rs bs
    → map (λ page. page.number) (all_pages bs) ≡ pages_of rs
Aligned-numbers unicode [] [] h = refl
Aligned-numbers unicode [] (b ∷ bs) h = absurd h
Aligned-numbers unicode (r ∷ rs) [] h = absurd h
Aligned-numbers unicode (r ∷ rs) (b ∷ bs) h =
    map-append b.pages (all_pages bs)
    ∙ ap (λ ns. ns ++ map (λ page. page.number) (all_pages bs)) (Fits-numbers unicode r b h.0)
    ∙ ap (λ ns. count_up r.first_page (suc r.last_page - r.first_page) ++ ns)
        (Aligned-numbers unicode rs bs h.1)

module _ (o : Options) (env : Env) (job : Job) where
  Fits-canonical :
      (text : Bytes) (r : BatchRange) (first last : ℕ) (answer : Model.Batch × Bytes)
      → first ≡ r.first_page
      → last ≡ r.last_page
      → validate_canonical o.unicode o.json text first last ≡ ok answer
      → Fits o.unicode r answer.0
  Fits-canonical text r first last (batch, canonical) ef el h = record {
    accepted =
        subst (λ l. Accepted o.unicode r.first_page l batch) el
          (subst (λ f. Accepted o.unicode f last batch) ef
            (validate-Accepted o.unicode o.json text first last batch
              (validate_canonical-eq-ok o.unicode o.json text canonical first last batch h).0));
  }

  validated-Fits :
      (r : BatchRange) (ending : Ending)
      → Delivers (λ answer. Fits o.unicode r answer.0) (validated o env job r ending)
  unfolding validated
  validated-Fits r (raw text) = Delivers-then _ _ (
      Delivers-checked _
        λ answer h. Fits-canonical (o.bytes text) r r.first_page r.last_page answer refl refl h)
  validated-Fits r Ending.lost_lease = Delivers-stop _
  validated-Fits r (interrupted cause) = Delivers-stop _
  validated-Fits r (refused e) = Delivers-stop _

  pub transcribe-Fits :
      (r : BatchRange) (stop_on_timeout : Bool)
      → Delivers (λ answer. Fits o.unicode r answer.0) (transcribe o env job r stop_on_timeout)
  unfolding transcribe
  transcribe-Fits r stop_on_timeout = record {
    delivered = λ w w' answer h. (validated-Fits r _).delivered _ w' answer h;
  }

  render-Fits :
      (r : BatchRange) → Delivers (Fits o.unicode r) (render_transcribe_and_checkpoint o env job r)
  unfolding render_transcribe_and_checkpoint transcribe_and_checkpoint
  render-Fits r = Delivers-bind _ _ (Delivers-trivial _) λ pages _.
      Delivers-bind _ _
        (Delivers-then _ _ (
          Delivers-then _ _ (
            Delivers-bind _ _ (transcribe-Fits r false)
              λ answer fits. Delivers-then _ _ (Delivers-give answer.0 fits))))
        λ batch fits. Delivers-then _ _ (Delivers-give batch fits)

  kept-Fits :
      (c : Batch) (r : BatchRange)
      → c.first_page ≡ r.first_page
      → c.last_page ≡ r.last_page
      → Delivers (Fits o.unicode r) (kept o env job c)
  unfolding kept
  kept-Fits c r ef el =
      Delivers-bind _ _
        (Delivers-checked _ λ answer h.
          Fits-canonical (o.bytes (text_of c.result_text)) r c.first_page c.last_page answer ef el
            h)
        λ answer fits. Delivers-give answer.0 fits

  batch_of-Fits :
      (c : Batch) (r : BatchRange)
      → c.first_page ≡ r.first_page
      → c.last_page ≡ r.last_page
      → Delivers (Fits o.unicode r) (batch_of o env job c r)
  unfolding batch_of
  batch_of-Fits c r ef el =
      Delivers-if (is_completed c.state) _ _ (λ _. kept-Fits c r ef el)
        (λ _. Delivers-then _ _ (render-Fits r))

  pub process_batches-Aligned :
      (cs : List Batch) (rs : List BatchRange) (dpi : ℕ) (format : String)
      → same_batch_plan cs rs dpi format ≡ true
      → Delivers (Aligned o.unicode rs) (process_batches o env job cs rs)
  unfolding process_batches same_batch_plan
  process_batches-Aligned [] [] dpi format same = Delivers-give [] tt
  process_batches-Aligned [] (r ∷ rs) dpi format same = absurd (ground arith)
  process_batches-Aligned (c ∷ cs) [] dpi format same = absurd (ground arith)
  process_batches-Aligned (c ∷ cs) (r ∷ rs) dpi format same =
      Delivers-bind _ _ (batch_of-Fits c r (ground arith) (ground arith)) λ batch fits.
        Delivers-bind _ _ (process_batches-Aligned cs rs dpi format (ground arith))
          λ batches aligned. Delivers-give (batch ∷ batches) (fits, aligned)
