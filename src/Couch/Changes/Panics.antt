-- ===== src/Couch/Changes/Panics.antt =====
-- When the stream of changes panics.
use enseada.Prelude.{
  ℕ, String, false, Option, none, List, [], ◌∷◌, ◌≡◌, ◌≢◌, refl, ◌↔◌, inl, inr, ◌==◌, arith,
  Bool-cases, Option-cases,
}
use enseada.Prelude.Exec.{Outcome, Outcome-cases, ok, err, panic}
use enseada.Platform.{Platform}
use enseada.Couch.Error.{TransportError}
use enseada.Couch.Changes.{ChangeEvent, lines, read_lines, read_chunk, read_stream}

-- Some element of the list is such.
pub data Some {ℓ ℓ'} {A : Type ℓ} (P : A → Type ℓ') : List A → Type (ℓ ⊔ ℓ') where
  here : {x : A} {l : List A} → P x → Some P (x ∷ l)
  there : {x : A} {l : List A} → Some P l → Some P (x ∷ l)

module _ (p : Platform) (parse : String → Option ChangeEvent) where
  -- A line that is neither empty nor an event.
  abbrev pub IsMalformed : String → Type 0
  IsMalformed line = ((line == "") ≡ false) × (parse line ≡ none)

  -- A chunk that did not arrive, is no text, or has a malformed line.
  pub data Broken : Outcome TransportError (List ℕ) → Type 0 where
    lost : {e : TransportError} → Broken (err e)
    crashed : Broken panic
    no_text :
        {bytes : List ℕ} → ((payload : String) → p.from_utf8 bytes ≢ ok payload) → Broken (ok bytes)
    cut :
        {bytes : List ℕ} (payload : String)
        → p.from_utf8 bytes ≡ ok payload
        → Some IsMalformed (lines payload)
        → Broken (ok bytes)

  line_panics : {l : List String} → Some IsMalformed l → read_lines p parse l ≡ none
  unfolding read_lines
  line_panics (here {x = line} {l = l} (full, unread)) = ground arith
  line_panics (there {x = line} {l = l} later) =
      let rest = line_panics later in
      elim (Option-cases (parse line)) [
        | inl unread ↦ ground arith
        | inr (event, reads) ↦ ground arith
      ]

  read_lines-IsMalformed : (l : List String) → read_lines p parse l ≡ none → Some IsMalformed l
  unfolding read_lines
  read_lines-IsMalformed [] h = absurd (ground arith)
  read_lines-IsMalformed (line ∷ l) h = elim (Bool-cases (line == "")) [
    | inl empty ↦ there (read_lines-IsMalformed l (ground arith))
    | inr full ↦ elim (Option-cases (parse line)) [
      | inl unread ↦ here (full, unread)
      | inr (event, reads) ↦ elim (Option-cases (read_lines p parse l)) [
        | inl later ↦ there (read_lines-IsMalformed l later)
        | inr (events, fine) ↦ absurd (ground arith)
      ]
    ]
  ]

  chunk_panics :
      {chunk : Outcome TransportError (List ℕ)} → Broken chunk → read_chunk p parse chunk ≡ none
  unfolding read_chunk
  chunk_panics lost = refl
  chunk_panics crashed = refl
  chunk_panics (no_text {bytes = bytes} unread) = elim (Outcome-cases (p.from_utf8 bytes)) [
    | inl (payload, reads) ↦ absurd (unread payload reads)
    | inr (inl (e, failed)) ↦ ground arith
    | inr (inr panics) ↦ ground arith
  ]
  chunk_panics (cut {bytes = bytes} payload reads malformed) = ground (arith, line_panics malformed)

  panics-Broken :
      (chunk : Outcome TransportError (List ℕ)) → read_chunk p parse chunk ≡ none → Broken chunk
  unfolding read_chunk
  panics-Broken (ok bytes) h = elim (Outcome-cases (p.from_utf8 bytes)) [
    | inl (payload, reads) ↦
        cut payload reads (read_lines-IsMalformed (lines payload) (ground arith))
    | inr (inl (e, failed)) ↦ no_text (λ payload reads. ground arith)
    | inr (inr panics) ↦ no_text (λ payload reads. ground arith)
  ]
  panics-Broken (err e) h = lost
  panics-Broken panic h = crashed

  stream_panics :
      {chunks : List (Outcome TransportError (List ℕ))}
      → Some Broken chunks
      → read_stream p parse chunks ≡ none
  unfolding read_stream
  stream_panics (here {x = chunk} {l = l} broken) = ground (arith, chunk_panics broken)
  stream_panics (there {x = chunk} {l = l} later) =
      let rest = stream_panics later in
      elim (Option-cases (read_chunk p parse chunk)) [
        | inl panics ↦ ground arith
        | inr (events, fine) ↦ ground arith
      ]

  panics-Some :
      (chunks : List (Outcome TransportError (List ℕ)))
      → read_stream p parse chunks ≡ none
      → Some Broken chunks
  unfolding read_stream
  panics-Some [] h = absurd (ground arith)
  panics-Some (chunk ∷ l) h = elim (Option-cases (read_chunk p parse chunk)) [
    | inl panics ↦ here (panics-Broken chunk panics)
    | inr (events, fine) ↦ elim (Option-cases (read_stream p parse l)) [
      | inl later ↦ there (panics-Some l later)
      | inr (rest, whole) ↦ absurd (ground arith)
    ]
  ]

  -- Reading the stream of changes panics exactly if some chunk did not arrive, is no text, or has
  -- a line that is neither empty nor an event.
  pub read_stream_panics_iff :
      (chunks : List (Outcome TransportError (List ℕ)))
      → (read_stream p parse chunks ≡ none) ↔ Some Broken chunks
  read_stream_panics_iff chunks = (panics-Some chunks, stream_panics)
