-- ===== src/Ocr/Meta.antt =====
-- suspiciousNonTranscription of internal/ocr/validate.go: whole outputs that are about the model, or
-- say that there is no transcription. The tables of the package unicode are parameters.
use paperless_ai_ocr.Prelude.{
  ℕ, Bool, true, false, not, ◌&&◌, ◌||◌, List, [], ◌∷◌, ◌++◌, map, ltb, ◌==◌, if◌then◌else◌, length,
}
use paperless_ai_ocr.Text.{is_space}
use paperless_ai_ocr.Ocr.Bytes.{Bytes, ascii, bytes_eq}
use paperless_ai_ocr.Ocr.Utf8.{runes}

-- unicode.IsLetter and unicode.ToLower
pub record Unicode : Type 0 where
  pub is_letter : ℕ → Bool
  pub to_lower : ℕ → ℕ

abbrev pub Words : Type 0
Words = List (List ℕ)

abbrev pub trim_start : List ℕ → List ℕ
trim_start [] = []
trim_start (c ∷ s) = elim (is_space c) [ true ↦ trim_start s | false ↦ c ∷ s ]

abbrev keep_unless_space : ℕ → List ℕ → List ℕ
keep_unless_space c [] = if is_space c then [] else c ∷ []
keep_unless_space c (d ∷ s) = c ∷ d ∷ s

abbrev pub trim_end : List ℕ → List ℕ
trim_end [] = []
trim_end (c ∷ s) = keep_unless_space c (trim_end s)

-- strings.TrimSpace
unfoldable pub trim_space : List ℕ → List ℕ
unfolding is_space
trim_space s = trim_end (trim_start s)

abbrev flush : List ℕ → Words → Words
flush [] words = words
flush (c ∷ word) words = (c ∷ word) ∷ words

-- strings.FieldsFunc, behind the part of a word that was read
unfoldable pub fields_func : (ℕ → Bool) → List ℕ → List ℕ → Words
fields_func separates [] word = flush word []
fields_func separates (c ∷ s) word = elim (separates c) [
  | true ↦ flush word (fields_func separates s [])
  | false ↦ fields_func separates s (word ++ c ∷ [])
]

-- `’` as `'`
abbrev pub straighten : ℕ → ℕ
straighten c = if c == 0x2019 then b'\'' else c

unfoldable pub normalized_meta_words : Unicode → Bytes → Words
unfolding trim_space fields_func runes
normalized_meta_words unicode text =
    fields_func (λ c. not (unicode.is_letter c) && not (c == b'\''))
      (map (λ c. straighten (unicode.to_lower c)) (trim_space (runes text))) []

unfoldable pub has_meta_prefix : Words → Words → Bool
has_meta_prefix words [] = true
has_meta_prefix [] (p ∷ prefix) = false
has_meta_prefix (w ∷ words) (p ∷ prefix) = bytes_eq w p && has_meta_prefix words prefix

abbrev one_of : Words → List ℕ → Bool
one_of [] word = false
one_of (w ∷ words) word = bytes_eq w word || one_of words word

abbrev inabilities : Words
inabilities = ascii "cannot" ∷ ascii "can't" ∷ ascii "unable" ∷ []

abbrev actions : Words
actions = ascii "access" ∷ ascii "transcribe" ∷ ascii "view" ∷ []

abbrev fillers : Words
fillers =
    ascii "am"
    ∷ ascii "and"
    ∷ ascii "attached"
    ∷ ascii "attachment"
    ∷ ascii "document"
    ∷ ascii "i"
    ∷ ascii "image"
    ∷ ascii "pages"
    ∷ ascii "provided"
    ∷ ascii "the"
    ∷ ascii "this"
    ∷ ascii "to"
    ∷ []

-- the loop of inaccessibleAttachmentStatement
unfoldable pub inaccessible_from : Bool → Bool → Words → Bool
inaccessible_from has_inability has_action [] = has_inability && has_action
inaccessible_from has_inability has_action (w ∷ words) =
    let rest =
      inaccessible_from (has_inability || one_of inabilities w)
        (has_action || not (one_of inabilities w) && one_of actions w) words in
    (one_of inabilities w || one_of actions w || one_of fillers w) && rest

unfoldable pub inaccessible_attachment_statement : Words → Bool
unfolding inaccessible_from
inaccessible_attachment_statement words = inaccessible_from false false words

-- strings.Join(words, " ")
unfoldable pub join_words : Words → List ℕ
join_words [] = []
join_words (w ∷ []) = w
join_words (w ∷ v ∷ words) = w ++ b' ' ∷ join_words (v ∷ words)

unfoldable pub no_transcription_statement : Words → Bool
unfolding join_words
no_transcription_statement words =
    one_of
      (ascii "was produced"
        ∷ ascii "was provided"
        ∷ ascii "has been produced for this attachment"
        ∷ ascii "could be provided"
        ∷ [])
      (join_words words)

abbrev skip : Words → Words → Words
skip [] words = words
skip (p ∷ prefix) [] = []
skip (p ∷ prefix) (w ∷ words) = skip prefix words

-- the prefixes that the model names itself with
abbrev identifications : List Words
identifications =
    (ascii "as" ∷ ascii "an" ∷ ascii "ai" ∷ ascii "language" ∷ ascii "model" ∷ [])
    ∷ (ascii "as" ∷ ascii "an" ∷ ascii "ai" ∷ ascii "assistant" ∷ [])
    ∷ (ascii "i" ∷ ascii "am" ∷ ascii "an" ∷ ascii "ai" ∷ ascii "model" ∷ [])
    ∷ (ascii "i'm" ∷ ascii "an" ∷ ascii "ai" ∷ ascii "model" ∷ [])
    ∷ (ascii "i" ∷ ascii "am" ∷ ascii "an" ∷ ascii "ai" ∷ ascii "assistant" ∷ [])
    ∷ (ascii "i'm" ∷ ascii "an" ∷ ascii "ai" ∷ ascii "assistant" ∷ [])
    ∷ []

unfoldable pub identified : List Words → Words → Bool
unfolding has_meta_prefix inaccessible_attachment_statement
identified [] words = false
identified (p ∷ prefixes) words =
    has_meta_prefix words p && inaccessible_attachment_statement (skip p words)
    || identified prefixes words

unfoldable pub suspicious_words : Words → Bool
unfolding has_meta_prefix no_transcription_statement identified
suspicious_words words =
    if length words == 0 || ltb 16 (length words)
    then false
    else if has_meta_prefix words (ascii "no" ∷ ascii "transcription" ∷ [])
    then no_transcription_statement (skip (ascii "no" ∷ ascii "transcription" ∷ []) words)
    else identified identifications words

unfoldable pub suspicious_non_transcription : Unicode → Bytes → Bool
unfolding normalized_meta_words suspicious_words
suspicious_non_transcription unicode text = suspicious_words (normalized_meta_words unicode text)
