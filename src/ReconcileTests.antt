-- ===== src/ReconcileTests.antt =====
-- A pass of the reconciler over one candidate and one page of the archive, with a checkpoint that is
-- written in a plain code of its own; and the theorems at that pass.
use paperless_ai_ocr.Prelude.{
  ℕ, zero, suc, ◌+◌, ◌≤◌, String, ◌≡◌, refl, ap, inl, inr, true, false, Option, none, some, List,
  [], ◌∷◌, map, arith, str_eq, ◌==◌, if◌then◌else◌, Bool-cases, length, All,
}
use paperless_ai_ocr.Queue.Model.{Candidate}
use paperless_ai_ocr.Queue.Transaction.{healthy}
use Prim.Native.Char.{Char, code}
use paperless_ai_ocr.Queue.Model.{Candidate}
use paperless_ai_ocr.Finalize.World.{Document}
use paperless_ai_ocr.Reconcile.World.{found, no_report, Env, World}
use paperless_ai_ocr.Reconcile.Checkpoint.{
  ArchiveCheckpoint, Options, slices_contains, fingerprint_cursor, is_fingerprint, valid_checkpoint,
  all_fingerprints,
}
use paperless_ai_ocr.Reconcile.Passes.{run_once}
use paperless_ai_ocr.Reconcile.Visited.{Distinct}
use paperless_ai_ocr.Reconcile.Sound.{Codec, SoundSetting, visited_of}
use paperless_ai_ocr.Reconcile.Scan.{run_once-Sound, run_once-listed}

-- a number in unary, in front of a text
abbrev put_number : ℕ → String → String
put_number zero rest = String.◌∷◌ "0" rest
put_number (suc n) rest = String.◌∷◌ "1" (put_number n rest)

abbrev put_text : String → String → String
put_text String.[] rest = String.◌∷◌ "0" rest
put_text (String.◌∷◌ c s) rest = String.◌∷◌ "1" (String.◌∷◌ c (put_text s rest))

abbrev put_texts : List String → String → String
put_texts [] rest = rest
put_texts (s ∷ ss) rest = put_text s (put_texts ss rest)

abbrev encode : ArchiveCheckpoint → String
encode c = put_number c.version (
    put_number c.pages
      (put_text c.next (put_number (length c.visited) (put_texts c.visited String.[]))))

abbrev one_more : ℕ × String → ℕ × String
one_more (n, rest) = (suc n, rest)

abbrev get_number : String → ℕ × String
get_number String.[] = (0, String.[])
get_number (String.◌∷◌ c s) = if code c == 49 then one_more (get_number s) else (0, s)

abbrev in_front : Char → String × String → String × String
in_front c (s, rest) = (String.◌∷◌ c s, rest)

abbrev get_text : String → String × String
get_text String.[] = (String.[], String.[])
get_text (String.◌∷◌ d String.[]) = (String.[], String.[])
get_text (String.◌∷◌ d (String.◌∷◌ c s)) =
    if code d == 49 then in_front c (get_text s) else (String.[], String.◌∷◌ c s)

abbrev append_text : String × String → (String → List String) → List String
append_text (s, rest) texts = s ∷ texts rest

abbrev get_texts : ℕ → String → List String
get_texts zero s = []
get_texts (suc n) s = append_text (get_text s) (get_texts n)

abbrev decode : String → Option ArchiveCheckpoint
decode s =
    let version = get_number s in
    let pages = get_number version.1 in
    let next = get_text pages.1 in
    let count = get_number next.1 in
    some (record {
      version = version.0;
      next = next.0;
      visited = get_texts count.0 count.1;
      pages = pages.0;
    })

get_number-put_number : (n : ℕ) (rest : String) → get_number (put_number n rest) ≡ (n, rest)
get_number-put_number zero rest = refl
get_number-put_number (suc n) rest = ap one_more (get_number-put_number n rest)

get_text-put_text : (s rest : String) → get_text (put_text s rest) ≡ (s, rest)
get_text-put_text String.[] String.[] = refl
get_text-put_text String.[] (String.◌∷◌ c rest) = refl
get_text-put_text (String.◌∷◌ c s) rest = ap (in_front c) (get_text-put_text s rest)

get_texts-put_texts : (ss : List String) → get_texts (length ss) (put_texts ss String.[]) ≡ ss
get_texts-put_texts [] = refl
get_texts-put_texts (s ∷ ss) =
    let ih = get_texts-put_texts ss in
    rw (get_text-put_text s (put_texts ss String.[])) (ap (λ r. s ∷ r) ih)

decode-encode : (c : ArchiveCheckpoint) → decode (encode c) ≡ some c
decode-encode c =
    let after_next = put_number (length c.visited) (put_texts c.visited String.[]) in
    rw
      (
        get_number-put_number c.version (put_number c.pages (put_text c.next after_next)),
        get_number-put_number c.pages (put_text c.next after_next),
        get_text-put_text c.next after_next,
        get_number-put_number (length c.visited) (put_texts c.visited String.[]),
        get_texts-put_texts c.visited,
      )
      refl

-- two digests of 64 digits
abbrev first_digest : String
first_digest = "0000000000000000000000000000000000000000000000000000000000000000"

abbrev other_digest : String
other_digest = "1111111111111111111111111111111111111111111111111111111111111111"

abbrev options : Options
options = record {
  model = "vision";
  prompt_version = "1";
  max_candidates_per_pass = 2;
  max_archive_pages_per_pass = 1;
  max_archive_pages_per_scan = 100;
  digest = λ s. if str_eq s "paperless-documents-initial-page" then first_digest else other_digest;
  is_hex = λ s. true;
  parse = λ s. none;
  encode = encode;
  decode = decode;
}

codec : Codec options
codec = record { decode_encode = decode-encode; hex = is_digest }
  where
    is_digest : (s : String) → is_fingerprint options (options.digest s) ≡ true
    is_digest s = elim (Bool-cases (str_eq s "paperless-documents-initial-page")) [
      | inl t ↦ rw t refl
      | inr n ↦ rw n refl
    ]

abbrev document : Document
document = record { id = 7; checksum = "abc"; content = ""; tags = [] }

abbrev candidate : Candidate
candidate = record {
  document_id = 7;
  priority = 100;
  generation = 1;
  created_at = 5;
  updated_at = 5;
}

abbrev answers : Env
answers = record {
  conn = λ n. healthy;
  statement = λ n. none;
  now = λ n. 10 + n;
  between = λ n. [];
  document = λ n. found document;
  page = λ n. inr (record { documents = document ∷ []; next = "/api/documents/?page=3" });
  yield = λ n. inr tt;
}

-- the first page was visited in an earlier pass
abbrev half_way : ArchiveCheckpoint
half_way = record {
  version = 1;
  next = "/api/documents/?page=2";
  visited = first_digest ∷ [];
  pages = 1;
}

abbrev start : World
start = record {
  step = 0;
  db = record {
    jobs = [];
    candidates = candidate ∷ [];
    batches = [];
    finalizations = [];
    controls = [];
  };
  setting = some (encode half_way);
  report = no_report;
  listed = [];
  fetched = [];
}

half_way-valid : valid_checkpoint options half_way ≡ true
unfolding valid_checkpoint all_fingerprints
half_way-valid = refl

start-Sound : SoundSetting options start.setting
unfolding slices_contains
start-Sound = record {
  held = half_way;
  reads = decode-encode half_way;
  valid = half_way-valid;
  bounded = omega arith;
  distinct = (refl, tt);
}

run_once-Sound_example : SoundSetting options (run_once options answers start).1.setting
run_once-Sound_example = run_once-Sound options answers codec start start-Sound refl

run_once-listed_example :
    Distinct (map (fingerprint_cursor options) (run_once options answers start).1.listed)
    × All
        (λ f. slices_contains (visited_of options start.setting) f ≡ false)
        (map (fingerprint_cursor options) (run_once options answers start).1.listed)
    × (length (run_once options answers start).1.listed ≤ 1)
run_once-listed_example = run_once-listed options answers codec start start-Sound refl
