-- ===== src/Realtime/Upload.antt =====
-- What the exchange of client.py sends of the clip.
use dial_pass.Prelude.{
  ℕ, ◌≡◌, refl, ap, ◌∙◌, String, List, [], ◌∷◌, ◌++◌, map, chunks, chunks_lem, joined, Fits, All,
  length, arith,
}
use dial_pass.Prelude.Bytes.{ℤ}
use dial_pass.Audio.{Bytes, pcm16_to_ulaw}
use dial_pass.Realtime.Exchange.{
  Request, session_update, append, commit, response_create, upload_step, menu_requests,
}

-- The bytes that are sent, in a row.
abbrev pub uploaded : List Request → Bytes
uploaded [] = []
uploaded (append c ∷ rs) = c ++ uploaded rs
uploaded (session_update i ∷ rs) = uploaded rs
uploaded (commit ∷ rs) = uploaded rs
uploaded (response_create ∷ rs) = uploaded rs

-- The bytes of a request are some, and no more than a step.
abbrev pub FitsStep : ℕ → Request → Type 0
FitsStep step (append c) = Fits step c
FitsStep step _ = Unit

uploaded-map :
    (cs : List Bytes) → uploaded (map append cs ++ commit ∷ response_create ∷ []) ≡ joined cs
uploaded-map [] = refl
uploaded-map (c ∷ cs) = ap (λ r. c ++ r) (uploaded-map cs)

map-FitsStep :
    (step : ℕ) (cs : List Bytes)
    → All (Fits step) cs
    → All (FitsStep step) (map append cs ++ commit ∷ response_create ∷ [])
map-FitsStep step [] h = (tt, (tt, tt))
map-FitsStep step (c ∷ cs) (fits, h) = (fits, map-FitsStep step cs h)

-- A menu turn sends the whole clip as mu-law, in order, in pieces of at least one byte and at most
-- those of 200 ms.
pub menu_requests-uploaded :
    (instructions : String) (audio : List ℤ) (sample_rate : ℕ)
    → let rs = menu_requests instructions audio sample_rate in
      (uploaded rs ≡ pcm16_to_ulaw audio) × All (FitsStep (upload_step sample_rate)) rs
unfolding menu_requests
menu_requests-uploaded instructions audio sample_rate =
    let ulaw = pcm16_to_ulaw audio in
    let step = upload_step sample_rate in
    let cs = chunks step (length ulaw) ulaw in
    let (whole, sized) = chunks_lem step (length ulaw) ulaw (omega arith) (omega arith) in
    (uploaded-map cs ∙ whole, (tt, map-FitsStep step cs sized))
