-- ===== src/Ocr/Join/Sizes.antt =====
-- When Join succeeds, and how long its content is.
use paperless_ai_ocr.Prelude.{
  ◌+◌, ◌≤◌, ◌≡◌, refl, sym, subst, ◌∙◌, ◌≢◌, ◌↔◌, inl, inr, true, none, some, List, [], ◌∷◌, ◌++◌,
  arith, Bool-cases, Option-cases, length, length-append,
}
use paperless_ai_ocr.Saferr.{ok, ok_inj}
use paperless_ai_ocr.Ocr.Bytes.{Bytes}
use paperless_ai_ocr.Ocr.Meta.{Unicode}
use paperless_ai_ocr.Ocr.Model.{Page, Batch, max_joined_content_bytes}
use paperless_ai_ocr.Ocr.Valid.{valid_batch}
use paperless_ai_ocr.Ocr.Join.{
  Place, start, heading, past, count_pages, count_batches, write_pages, past_pages, write_batches,
  join,
}

-- The first pass counts the bytes that the second writes.
past_pages-total :
    (place : Place) (pages : List Page)
    → (past_pages place pages).total_bytes ≡ place.total_bytes + length (write_pages place pages)
unfolding past_pages write_pages
past_pages-total place [] = omega arith
past_pages-total place (page ∷ pages) = ground (
  arith,
  past_pages-total (past place page) pages,
  length-append (heading place page ++ page.text) (write_pages (past place page) pages),
  length-append (heading place page) page.text,
)

le-past_pages :
    (place : Place) (pages : List Page) → place.total_bytes ≤ (past_pages place pages).total_bytes
le-past_pages place pages = omega (arith, past_pages-total place pages)

count_pages-eq :
    (place : Place) (pages : List Page)
    → (past_pages place pages).total_bytes ≤ max_joined_content_bytes
    → count_pages place pages ≡ some (past_pages place pages)
unfolding count_pages past_pages
count_pages-eq place [] h = refl
count_pages-eq place (page ∷ pages) h =
    ground (arith, count_pages-eq (past place page) pages h, le-past_pages (past place page) pages)

count_pages-eq-some :
    (place place' : Place) (pages : List Page)
    → place.total_bytes ≤ max_joined_content_bytes
    → count_pages place pages ≡ some place'
    → (place' ≡ past_pages place pages) × (place'.total_bytes ≤ max_joined_content_bytes)
unfolding count_pages past_pages
count_pages-eq-some place place' [] le h = ground arith
count_pages-eq-some place place' (page ∷ pages) le h =
    ground (arith, count_pages-eq-some (past place page) place' pages)

-- the place behind all batches
abbrev end_of : Place → List Batch → Place
end_of place [] = place
end_of place (batch ∷ batches) = end_of (past_pages place batch.pages) batches

-- each batch is valid where it stands
abbrev pub Contiguous : Unicode → Place → List Batch → Type 0
Contiguous unicode place [] = Unit
Contiguous unicode place (batch ∷ batches) =
    (valid_batch unicode batch place.expected_page ≡ true)
    × Contiguous unicode (past_pages place batch.pages) batches

end_of-total :
    (place : Place) (batches : List Batch)
    → (end_of place batches).total_bytes ≡ place.total_bytes + length (write_batches place batches)
unfolding write_batches
end_of-total place [] = omega arith
end_of-total place (batch ∷ batches) = ground (
  arith,
  end_of-total (past_pages place batch.pages) batches,
  past_pages-total place batch.pages,
  length-append (write_pages place batch.pages)
      (write_batches (past_pages place batch.pages) batches),
)

le-end_of :
    (place : Place) (batches : List Batch) → place.total_bytes ≤ (end_of place batches).total_bytes
le-end_of place batches = omega (arith, end_of-total place batches)

count_batches-none :
    (unicode : Unicode) (batches : List Batch) → count_batches unicode none batches ≡ none
unfolding count_batches
count_batches-none unicode [] = refl
count_batches-none unicode (batch ∷ batches) = refl

count_batches-eq :
    (unicode : Unicode) (place : Place) (batches : List Batch)
    → Contiguous unicode place batches
    → (end_of place batches).total_bytes ≤ max_joined_content_bytes
    → count_batches unicode (some place) batches ≡ some (end_of place batches)
unfolding count_batches
count_batches-eq unicode place [] c h = refl
count_batches-eq unicode place (batch ∷ batches) c h =
    rw
      (
        c.0,
        count_batches,
        count_pages-eq place batch.pages
            (omega (arith, le-end_of (past_pages place batch.pages) batches)),
      )
      (count_batches-eq unicode (past_pages place batch.pages) batches c.1 h)

count_batches-eq-some :
    (unicode : Unicode) (place place' : Place) (batches : List Batch)
    → place.total_bytes ≤ max_joined_content_bytes
    → count_batches unicode (some place) batches ≡ some place'
    → Contiguous unicode place batches
      × ((end_of place batches).total_bytes ≤ max_joined_content_bytes)
unfolding count_batches
count_batches-eq-some unicode place place' [] le h = (tt, le)
count_batches-eq-some unicode place place' (batch ∷ batches) le h =
    elim (Bool-cases (valid_batch unicode batch place.expected_page)) [
      | inl t ↦ elim (Option-cases (count_pages place batch.pages)) [
        | inl e ↦
            absurd (
              none≢some
                (sym (count_batches-none unicode batches) ∙ (rw (t, count_batches, e) at h)))
        | inr (next, e) ↦
            let (same, short) = count_pages-eq-some place next batch.pages le e in
            let (c, end_short) =
              count_batches-eq-some unicode next place' batches short
                (rw (t, count_batches, e) at h) in
            (
              (t, subst (λ p. Contiguous unicode p batches) same c),
              subst (λ p. (end_of p batches).total_bytes ≤ max_joined_content_bytes) same end_short,
            )
      ]
      | inr f ↦
          absurd
            (none≢some (sym (count_batches-none unicode batches) ∙ (rw (f, count_batches) at h)))
    ]
  where
    none≢some : {p : Place} → none ≡ some p → ⊥
    none≢some e = cc

-- What Join accepts: at least one batch, each batch valid at the page where it stands, from page 1
-- on, and a content that is not too long.
pub record Joinable (unicode : Unicode) (batches : List Batch) : Type 0 where
  pub some_batch : batches ≢ []
  pub contiguous : Contiguous unicode start batches
  pub short : length (write_batches start batches) ≤ max_joined_content_bytes

pub join-eq-ok :
    (unicode : Unicode) (batches : List Batch) (content : Bytes)
    → join unicode batches ≡ ok content
    → Joinable unicode batches × (content ≡ write_batches start batches)
unfolding join
join-eq-ok unicode [] content h = absurd (cc)
join-eq-ok unicode (batch ∷ batches) content h =
    elim (Option-cases (count_batches unicode (some start) (batch ∷ batches))) [
      | inl e ↦ absurd (ground (arith, rw e at h))
      | inr (place, e) ↦
          let (c, le) =
            count_batches-eq-some unicode start place (batch ∷ batches) (omega arith) e in
          (
            record {
              some_batch = cc;
              contiguous = c;
              short = omega (arith, end_of-total start (batch ∷ batches));
            },
            ok_inj (sym (rw e at h)),
          )
    ]

-- Join returns a content exactly where there is a batch, each batch is valid for the page where it
-- stands, from page 1 on, and the content is at most 16 MiB long; and the content is then what the
-- second pass writes.
pub join_iff :
    (unicode : Unicode) (batches : List Batch) (content : Bytes)
    → (join unicode batches ≡ ok content)
      ↔ (Joinable unicode batches × (content ≡ write_batches start batches))
unfolding join
join_iff unicode batches content =
    (join-eq-ok unicode batches content, λ (j, e). joined batches j e)
  where
    joined :
        (batches : List Batch)
        → Joinable unicode batches
        → content ≡ write_batches start batches
        → join unicode batches ≡ ok content
    joined [] j e = absurd (j.some_batch refl)
    joined (batch ∷ batches) j e = rw (
      count_batches-eq unicode start (batch ∷ batches) j.contiguous
          (omega (arith, end_of-total start (batch ∷ batches), j.short)),
      e,
    )
