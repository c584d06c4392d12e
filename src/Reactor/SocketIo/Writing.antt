-- ===== src/Reactor/SocketIo/Writing.antt =====
-- `writen` sends the bytes in order, and comes to an end.
use echoserver.Prelude.{
  ℕ, suc, ◌≤◌, ◌≡◌, refl, sym, ap, ◌∙◌, List, [], ◌∷◌, ◌++◌, append_assoc, append-nil, arith,
  length, take, drop, length-drop, take-append-drop,
}
use echoserver.Reactor.SocketIo.{Answer, handles, interrupts, fails, returns, writen}
use echoserver.Reactor.SocketIo.Reading.{served, failures}

-- What `writen` has sent and what is left are the message.
pub writen-order :
    (bytes : List ℕ) (script : List Answer)
    → (writen bytes script).moved ++ (writen bytes script).left ≡ bytes
unfolding writen
writen-order [] script = refl
writen-order (b ∷ bs) [] = refl
writen-order (b ∷ bs) (interrupts ∷ script) = writen-order (b ∷ bs) script
writen-order (b ∷ bs) (fails ∷ script) = refl
writen-order (b ∷ bs) (handles n ∷ script) =
    append_assoc (take (suc n) (b ∷ bs)) _ _
    ∙ ap (◌++◌ (take (suc n) (b ∷ bs))) (writen-order (drop (suc n) (b ∷ bs)) script)
    ∙ take-append-drop (suc n) (b ∷ bs)

writen_returns :
    (bytes : List ℕ) (script : List Answer)
    → length bytes ≤ served script
    → (writen bytes script).outcome ≡ returns
unfolding writen
writen_returns [] script h = refl
writen_returns (b ∷ bs) [] h = absurd (omega arith)
writen_returns (b ∷ bs) (interrupts ∷ script) h = writen_returns (b ∷ bs) script h
writen_returns (b ∷ bs) (fails ∷ script) h = refl
writen_returns (b ∷ bs) (handles n ∷ script) h =
    writen_returns (drop (suc n) (b ∷ bs)) script (omega (arith, length-drop n bs))

writen_leaves_nothing :
    (bytes : List ℕ) (script : List Answer)
    → failures script ≡ 0
    → (writen bytes script).outcome ≡ returns
    → (writen bytes script).left ≡ []
unfolding writen
writen_leaves_nothing [] script h e = refl
writen_leaves_nothing (b ∷ bs) [] h e = cc
writen_leaves_nothing (b ∷ bs) (interrupts ∷ script) h e = writen_leaves_nothing (b ∷ bs) script h e
writen_leaves_nothing (b ∷ bs) (fails ∷ script) h e = absurd (omega arith)
writen_leaves_nothing (b ∷ bs) (handles n ∷ script) h e =
    writen_leaves_nothing (drop (suc n) (b ∷ bs)) script h e

-- With a `send` that is neither interrupted nor fails for every byte of the message at most, and
-- without failures, `writen` returns and has sent the whole message.
pub writen_full :
    (bytes : List ℕ) (script : List Answer)
    → failures script ≡ 0
    → length bytes ≤ served script
    → ((writen bytes script).outcome ≡ returns) × ((writen bytes script).moved ≡ bytes)
writen_full bytes script h enough =
    let ends : (writen bytes script).outcome ≡ returns = writen_returns bytes script enough in
    let none : (writen bytes script).left ≡ [] = writen_leaves_nothing bytes script h ends in
    (
      ends,
      sym (append-nil _)
          ∙ ap (◌++◌ (writen bytes script).moved) (sym none)
          ∙ writen-order bytes script,
    )
