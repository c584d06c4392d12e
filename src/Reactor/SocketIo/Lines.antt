-- ===== src/Reactor/SocketIo/Lines.antt =====
-- What `readline` returns, and where it does not return.
use echoserver.Prelude.{
  length-append, ◌<◌, ℕ, zero, suc, ◌+◌, ◌-◌, ◌*◌, ◌≤◌, ◌≡◌, ◌≢◌, refl, ap, ◌∙◌, inl, inr, min,
  true, false, List, [], ◌∷◌, ◌++◌, append_assoc, append-nil, arith, leb, leb→le, Bool-cases,
  if◌then◌else◌, length, take, drop, length-take, length-drop, take-append-drop, drop_all,
}
use echoserver.Reactor.SocketIo.{
  Answer, returns, Progress, chunk, extend, readn, shows, recv_peek, first_line, after_readn,
  readline,
}
use echoserver.Reactor.SocketIo.Reading.{served, failures, readn_returns, readn_full}
use echoserver.Reactor.SocketIo.FirstLine.{
  readn_script, recv_peek_lem, first_line-length, first_line_open, line_prefix, first_line-take,
  line_length, Ready,
}

-- One round of `readline`, where the peek shows bytes and there is an answer for every one.
round :
    (fuel left n : ℕ) (script rest : List Answer) (incoming : List ℕ)
    → recv_peek (suc left) script incoming ≡ shows (chunk (suc left) n incoming) rest
    → failures rest ≡ 0
    → line_length (chunk (suc left) n incoming) ≤ served rest
    → let line = (first_line (chunk (suc left) n incoming)).0 in
      let later = (readn (length line) rest incoming).script in
      readline (suc fuel) (suc left) script incoming
      ≡ extend line (
          if (first_line (chunk (suc left) n incoming)).1
          then record {
            moved = [];
            left = drop (length line) incoming;
            script = later;
            outcome = returns;
          }
          else readline fuel (suc left - length line) later (drop (length line) incoming))
unfolding readline
round fuel left n script rest incoming e healthy enough =
    let size : ℕ = line_length (chunk (suc left) n incoming) in
    let ends : (readn size rest incoming).outcome ≡ returns =
      readn_returns size rest incoming enough in
    let kept : (readn size rest incoming).left ≡ drop size incoming =
      (readn_full size rest incoming healthy ends).1 in
    rw (readline, e, after_readn, ends, kept) refl

-- `p` has read one line, or as much of it as there is room for, and the rest is left.
pub record Reads (left : ℕ) (incoming : List ℕ) (p : Progress) : Type 0 where
  pub ends : p.outcome ≡ returns
  pub line : p.moved ≡ (first_line (take left incoming)).0
  pub order : p.moved ++ p.left ≡ incoming

found_Reads :
    (len k m : ℕ) (incoming : List ℕ) (script : List Answer)
    → len ≡ k + m
    → (first_line (take k incoming)).1 ≡ true
    → let line = (first_line (take k incoming)).0 in
      Reads len incoming (
        extend line (record {
          moved = [];
          left = drop (length line) incoming;
          script = script;
          outcome = returns;
        }))
found_Reads len k m incoming script split found = record {
  ends = refl;
  line = append-nil _ ∙ rw (split, first_line-take k m incoming, found) refl;
  order = append_assoc (first_line (take k incoming)).0 [] _ ∙ line_prefix k incoming;
}

later_Reads :
    (len k m : ℕ) (incoming : List ℕ) (p : Progress)
    → len ≡ k + m
    → (first_line (take k incoming)).1 ≡ false
    → Reads m (drop k incoming) p
    → Reads len incoming (extend (take k incoming) p)
later_Reads len k m incoming p split missing r = record {
  ends = r.ends;
  line =
      ap (◌++◌ (take k incoming)) r.line ∙ rw (split, first_line-take k m incoming, missing) refl;
  order =
      append_assoc (take k incoming) _ _
      ∙ ap (◌++◌ (take k incoming)) r.order
      ∙ take-append-drop k incoming;
}

nothing_found : (m : ℕ) (bs : List ℕ) → bs ≡ [] → (first_line (take m bs)).1 ≢ true
unfolding first_line
nothing_found zero bs e h = cc
nothing_found (suc m) [] e h = cc
nothing_found (suc m) (b ∷ bs) e h = cc

-- The round goes on where the bytes that were peeked hold no newline.
Ready-later :
    (len k m : ℕ) (incoming : List ℕ)
    → len ≡ k + m
    → (first_line (take k incoming)).1 ≡ false
    → Ready len incoming
    → (k ≤ length incoming) × Ready m (drop k incoming)
Ready-later len k m incoming split missing (inr enough) =
    (omega arith, inr (omega (arith, length-drop k incoming)))
Ready-later len k m incoming split missing (inl found) =
    let more : (first_line (take m (drop k incoming))).1 ≡ true =
      rw (split, first_line-take k m incoming, missing) at found in
    elim (Bool-cases (leb k (length incoming))) [
      | inl fits ↦ (leb→le _ _ fits, inl more)
      | inr short ↦
          absurd (nothing_found m (drop k incoming) (drop_all k incoming (ground arith)) more)
    ]

line_length-take :
    (k m : ℕ) (bs : List ℕ)
    → line_length (take (k + m) bs) ≡ (
        if (first_line (take k bs)).1
        then line_length (take k bs)
        else length (take k bs) + line_length (take m (drop k bs)))
line_length-take k m bs =
    rw (first_line-take k m bs) (elim (Bool-cases (first_line (take k bs)).1) [
      | inl found ↦ rw found refl
      | inr later ↦ rw later (length-append (take k bs) _)
    ])

line_is_longer :
    (len k m : ℕ) (bs : List ℕ) → len ≡ k + m → line_length (take k bs) ≤ line_length (take len bs)
line_is_longer len k m bs split =
    rw split (ground (arith, line_length-take k m bs, first_line-length (take k bs)))

line_total :
    (len k m : ℕ) (bs : List ℕ)
    → len ≡ k + m
    → (first_line (take k bs)).1 ≡ false
    → line_length (take len bs) ≡ length (take k bs) + line_length (take m (drop k bs))
line_total len k m bs split missing = rw split (line_length-take k m bs ∙ rw missing refl)

line_positive :
    (left : ℕ) (incoming : List ℕ)
    → Ready (suc left) incoming
    → 0 < line_length (take (suc left) incoming)
unfolding first_line
line_positive left [] r = ground arith
line_positive left (b ∷ bs) r = ground arith

-- Within `left` rounds, with two answers for each byte of the line and no failure, `readline`
-- returns the first line of what the peer sends, its newline included, or as many bytes as there is
-- room for, where that much comes; the rest stays in the socket.
pub readline_lem :
    (fuel left : ℕ) (script : List Answer) (incoming : List ℕ)
    → left ≤ fuel
    → failures script ≡ 0
    → 2 * line_length (take left incoming) ≤ served script
    → Ready left incoming
    → Reads left incoming (readline fuel left script incoming)
unfolding readline
readline_lem zero zero script incoming f h s r = record { ends = refl; line = refl; order = refl }
readline_lem zero (suc left) script incoming f h s r = absurd (omega arith)
readline_lem (suc fuel) zero script incoming f h s r = record {
  ends = refl;
  line = refl;
  order = refl;
}
readline_lem (suc fuel) (suc left) script incoming f h s r =
    elim (recv_peek_lem (suc left) script incoming h) [
      | inl (none, e) ↦ absurd (omega (arith, line_positive left incoming r))
      | inr (n, (rest, (e, (healthy, count)))) ↦
          let k : ℕ = min (suc left) (suc n) in
          let m : ℕ = suc left - k in
          let split : suc left ≡ k + m = omega arith in
          let size : length (take k incoming) ≡ min k (length incoming) = length-take k incoming in
          let longer : line_length (take k incoming) ≤ line_length (take (suc left) incoming) =
            line_is_longer (suc left) k m incoming split in
          let enough : line_length (take k incoming) ≤ served rest =
            omega (arith, line_positive left incoming r) in
          rw (round fuel left n script rest incoming e healthy enough)
            (elim (Bool-cases (first_line (take k incoming)).1) [
              | inl found ↦ rw found (found_Reads (suc left) k m incoming _ split found)
              | inr missing ↦
                  let (fits, more) = Ready-later (suc left) k m incoming split missing r in
                  let same : (first_line (take k incoming)).0 ≡ take k incoming =
                    first_line_open _ missing in
                  let full : length (take k incoming) ≡ k = omega arith in
                  let (healthy', left_over) = readn_script k rest incoming healthy fits in
                  let total : line_length (take (suc left) incoming)
                      ≡ k + line_length (take m (drop k incoming)) =
                    line_total (suc left) k m incoming split missing
                    ∙ ap (λ x. x + line_length (take m (drop k incoming))) full in
                  rw (missing, same, full)
                    (later_Reads (suc left) k m incoming _ split missing (
                      readline_lem fuel m (readn k rest incoming).script (drop k incoming)
                        (omega arith) healthy' (omega arith) more))
            ])
    ]
