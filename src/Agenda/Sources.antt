-- ===== src/Agenda/Sources.antt =====
-- The sources, the terms and the texts of a candidate (src/runtime/initiative/agenda.rs).
use hekate.Agenda.{VerifiedLedger, max_text_bytes}
use hekate.Core.Agenda.{AgendaCandidate}
use hekate.Core.Env.{Env}
use hekate.Core.Events.{EntityRef}
use hekate.Core.Fingerprints.{initiative_fingerprint, then_le, text_le}
use hekate.Core.Ids.{EventId, PrincipalId}
use hekate.Core.Initiatives.{InitiativeKind}
use hekate.Core.Proposals.{max_candidate_sources}
use hekate.Core.Stances.{Position}
use hekate.Prelude.{
  ℕ, ◌-◌, Bool, true, not, ◌||◌, ◌&&◌, Option, none, some, List, [], ◌∷◌, ◌++◌, contains, filter,
  is_empty, leb, length, ltb, map, nat_eq, take, if◌then◌else◌, ◌==◌, ℕ_eq, list_eq,
}
use hekate.Prelude.BTreeMap.{get}
use hekate.Prelude.Options.{◌>>=◌, ◌>>◌, filter_map, require}
use hekate.Prelude.Sort.{dedup_by, sort}
use hekate.Prelude.Text.{Text, codes, trim, trim_end, utf8_width}

-- The last sources first, and those of one sequence number in the order of their ids. The first component is
-- the id.
abbrev pub later_first : EventId × ℕ → EventId × ℕ → Bool
later_first left right = then_le (ltb right.1 left.1) (nat_eq right.1 left.1) (leb left.0 right.0)

abbrev pub same_id : EventId × ℕ → EventId × ℕ → Bool
same_id left right = nat_eq left.0 right.0

-- Sort, dedup, truncate, and sort the ids.
unfoldable pub latest_sources : List (EventId × ℕ) → List EventId
latest_sources valid =
    sort leb (
      map (λ pair. pair.0) (take max_candidate_sources (dedup_by same_id (sort later_first valid))))

unfoldable pub valid_source : VerifiedLedger → Option ℕ → EventId → Option (EventId × ℕ)
valid_source ledger before_sequence event_id = do
  entry ← get ledger event_id
  require (elim before_sequence [ none ↦ true | some before ↦ ltb (entry.1) before ])
  some (event_id, entry.1)

unfoldable pub bounded_valid_event_ids : List EventId → VerifiedLedger → Option ℕ → List EventId
bounded_valid_event_ids event_ids ledger before_sequence =
    latest_sources (filter_map (valid_source ledger before_sequence) event_ids)

-- The longest part at the front that takes at most this many bytes.
unfoldable pub take_bytes : ℕ → Text → Text
take_bytes n [] = []
take_bytes n (c ∷ s) =
    let rest = take_bytes (n - utf8_width c) s in if leb (utf8_width c) n then c ∷ rest else []

unfoldable pub bounded_text : Text → Text
bounded_text value = trim_end (take_bytes max_text_bytes (trim value))

unfoldable pub make_candidate :
    Env
    → InitiativeKind
    → Text
    → Text
    → EntityRef
    → ℕ
    → List EventId
    → PrincipalId
    → ℕ
    → Option AgendaCandidate
make_candidate env kind raw_content raw_rationale source_entity source_version raw_sources
      target_principal_id as_of_revision =
    do
      let source_event_ids = take max_candidate_sources (dedup_by nat_eq (sort leb raw_sources))
      require (not (is_empty source_event_ids))
      let content = bounded_text raw_content
      let rationale = bounded_text raw_rationale
      require (not (is_empty content || is_empty rationale))
      some (record {
        kind = kind;
        content = content;
        rationale = rationale;
        source_entity = source_entity;
        source_version = source_version;
        source_event_ids = source_event_ids;
        target_principal_id = target_principal_id;
        as_of_revision = as_of_revision;
        fingerprint =
            initiative_fingerprint env kind source_entity source_version target_principal_id
              source_event_ids;
      })

-- The words between characters that are not alphanumeric, with the word that is being read.
unfoldable pub tokens_from : Env → Text → Text → List Text
tokens_from env [] [] = []
tokens_from env (w ∷ ws) [] = env.to_lowercase (w ∷ ws) ∷ []
tokens_from env word (c ∷ s) =
    let next = tokens_from env (word ++ c ∷ []) s in
    let rest = tokens_from env [] s in
    if env.is_alphanumeric c
    then next
    else if is_empty word
    then rest
    else env.to_lowercase word ∷ rest

abbrev pub tokens : Env → Text → List Text
tokens env text = tokens_from env [] text

unfoldable pub tokens_of_all : Env → List Text → List Text
tokens_of_all env [] = []
tokens_of_all env (text ∷ texts) = tokens env text ++ tokens_of_all env texts

-- A set of texts, in order.
abbrev pub text_set : List Text → List Text
text_set texts = dedup_by (λ left right. left == right) (sort text_le texts)

abbrev pub non_topical_words : List Text
non_topical_words =
    codes "about"
    ∷ codes "after"
    ∷ codes "also"
    ∷ codes "and"
    ∷ codes "are"
    ∷ codes "could"
    ∷ codes "does"
    ∷ codes "for"
    ∷ codes "from"
    ∷ codes "have"
    ∷ codes "into"
    ∷ codes "is"
    ∷ codes "its"
    ∷ codes "more"
    ∷ codes "should"
    ∷ codes "that"
    ∷ codes "the"
    ∷ codes "their"
    ∷ codes "this"
    ∷ codes "through"
    ∷ codes "with"
    ∷ codes "would"
    ∷ []

unfoldable pub position_terms : Env → Position → List Text
position_terms env position = text_set (
    filter (λ token. leb 4 (length token) && not (contains non_topical_words token))
      (tokens_of_all env
        (position.subject ∷ (position.reasons ++ position.reconsideration_conditions))))

abbrev min : ℕ → ℕ → ℕ
min a b = if ltb b a then b else a

unfoldable pub observation_related : Env → List Text → Text → Bool
observation_related env topic_terms content =
    let content_terms = text_set (tokens env content) in
    leb (min (length topic_terms) 2) (length (filter (contains content_terms) topic_terms))
