-- ===== src/Reactor/SocketIo/FirstLine.antt =====
-- The first line of a text, and what a peek shows of it.
use echoserver.Prelude.{
  ℕ, zero, suc, ◌+◌, ◌-◌, ◌≤◌, ◌≡◌, refl, sym, ap, ◌∙◌, ◌⊎◌, inl, inr, min, true, false, List, [],
  ◌∷◌, ◌++◌, arith, ◌==◌, Bool-cases, if◌then◌else◌, length, take, drop, length-take, length-drop,
  take_all,
}
use echoserver.Reactor.SocketIo.{
  Answer, handles, interrupts, fails, chunk, readn, shows, peek_runs_on, recv_peek, newline,
  first_line,
}
use echoserver.Reactor.SocketIo.Reading.{served, failures}

-- The rest of the script after a `readn`.
pub readn_script :
    (len : ℕ) (script : List Answer) (incoming : List ℕ)
    → failures script ≡ 0
    → len ≤ length incoming
    → (failures (readn len script incoming).script ≡ 0)
      × (served script ≤ served (readn len script incoming).script + len)
unfolding readn
readn_script zero script incoming h l = (h, omega arith)
readn_script (suc len) [] incoming h l = (refl, omega arith)
readn_script (suc len) (interrupts ∷ script) incoming h l =
    readn_script (suc len) script incoming h l
readn_script (suc len) (fails ∷ script) incoming h l = absurd (omega arith)
readn_script (suc len) (handles n ∷ script) incoming h l =
    let got : List ℕ = chunk (suc len) n incoming in
    let size : length got ≡ min (min (suc len) (suc n)) (length incoming) =
      length-take _ incoming in
    let (healthy, used) =
      readn_script (suc len - length got) script (drop (length got) incoming) h
        (omega (arith, length-drop (length got) incoming)) in
    (ground arith, ground arith)

-- A peek shows the first bytes, at least one where there is one; without failures it fails never,
-- and runs on only where no answer is left.
pub recv_peek_lem :
    (len : ℕ) (script : List Answer) (incoming : List ℕ)
    → failures script ≡ 0
    → ((served script ≡ 0) × (recv_peek len script incoming ≡ peek_runs_on))
      ⊎ ((n : ℕ) × ((rest : List Answer) × ((recv_peek len script incoming
                ≡ shows (chunk len n incoming) rest)
              × ((failures rest ≡ 0) × (served script ≡ suc (served rest))))))
unfolding recv_peek
recv_peek_lem len [] incoming h = inl (refl, refl)
recv_peek_lem len (interrupts ∷ script) incoming h = recv_peek_lem len script incoming h
recv_peek_lem len (fails ∷ script) incoming h = absurd (omega arith)
recv_peek_lem len (handles n ∷ script) incoming h = inr (n, (script, (refl, (h, refl))))

pub first_line-length : (bs : List ℕ) → length (first_line bs).0 ≤ length bs
unfolding first_line
first_line-length [] = omega arith
first_line-length (b ∷ bs) = ground (arith, first_line-length bs)

-- A line without a newline is all of the bytes.
pub first_line_open : (bs : List ℕ) → (first_line bs).1 ≡ false → (first_line bs).0 ≡ bs
unfolding first_line
first_line_open [] h = refl
first_line_open (b ∷ bs) h = ground (arith, first_line_open bs)

pub line_prefix :
    (k : ℕ) (bs : List ℕ)
    → (first_line (take k bs)).0 ++ drop (length (first_line (take k bs)).0) bs ≡ bs
unfolding first_line
line_prefix zero bs = refl
line_prefix (suc k) [] = refl
line_prefix (suc k) (b ∷ bs) = elim (Bool-cases (b == newline)) [
  | inl here ↦ rw here refl
  | inr later ↦ rw later (ap (◌∷◌ b) (line_prefix k bs))
]

-- Of the first `k` bytes and of the first `k + m` the first line is the same, if it ends there.
pub first_line-take :
    (k m : ℕ) (bs : List ℕ)
    → first_line (take (k + m) bs) ≡ (
        if (first_line (take k bs)).1 then first_line (take k bs) else (
          take k bs ++ (first_line (take m (drop k bs))).0,
          (first_line (take m (drop k bs))).1,
        ))
unfolding first_line
first_line-take zero m bs = ap (λ n. first_line (take n bs)) (omega arith)
first_line-take (suc k) m [] =
    ap first_line (take_all (suc k + m) [] (omega arith) ∙ sym (take_all m [] (omega arith)))
first_line-take (suc k) m (b ∷ bs) =
    let next : suc k + m ≡ suc (k + m) = omega arith in
    rw next (elim (Bool-cases (b == newline)) [
      | inl here ↦ rw here refl
      | inr there ↦
          rw (there, first_line-take k m bs)
            (elim (Bool-cases (first_line (take k bs)).1) [
              | inl found ↦ rw found (ap (λ v. (b ∷ (first_line (take k bs)).0, v)) found)
              | inr later ↦ rw later refl
            ])
    ])

-- The length of the first line of a text.
abbrev pub line_length : List ℕ → ℕ
line_length bs = length (first_line bs).0

-- A line ends within the first `left` bytes, or there are that many.
abbrev pub Ready : ℕ → List ℕ → Type 0
Ready left incoming = ((first_line (take left incoming)).1 ≡ true) ⊎ (left ≤ length incoming)
