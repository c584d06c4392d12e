-- ===== src/Handler/Masks.antt =====
-- The interest masks that the code builds out of EPOLLIN and EPOLLOUT.
use echoserver.Prelude.{
  ℕ, zero, suc, ◌<◌, ◌≤◌, ◌==◌, Bool-cases, inl, inr, ◌≡◌, refl, Bool, true, false, ◌&&◌, not,
  arith, ltb,
}
use echoserver.Handler.{has, epollin, epollout, enable_reading, enable_writing, disable_writing}

-- A mask over the three lowest bits. The code sets no other bit.
abbrev pub IsInterest : ℕ → Type 0
IsInterest events = events < 8

abbrev same : Bool → Bool → Bool
same true b = b
same false b = not b

-- What the four changes do to a mask's two bits.
lawful : ℕ → Bool
unfolding has enable_reading enable_writing disable_writing
lawful e =
    (has (enable_reading e) epollin && has (enable_writing e) epollout)
    && (not (has (disable_writing e) epollout)
        && (same (has (enable_writing e) epollin) (has e epollin)
            && (same (has (disable_writing e) epollin) (has e epollin)
                && (same (has (enable_reading e) epollout) (has e epollout)
                    && (ltb (enable_writing e) 8
                        && (ltb (disable_writing e) 8 && ltb (enable_reading e) 8))))))

lawful_up_to : ℕ → Bool
lawful_up_to zero = lawful zero
lawful_up_to (suc e) = lawful (suc e) && lawful_up_to e

lawful_at : (bound e : ℕ) → lawful_up_to bound ≡ true → e ≤ bound → lawful e ≡ true
unfolding lawful_up_to
lawful_at zero e table h = ground arith
lawful_at (suc bound) e table h = elim (Bool-cases (e == suc bound)) [
  | inl here ↦ ground arith
  | inr lower ↦ ground (arith, lawful_at bound e)
]

interests_table : lawful_up_to 7 ≡ true
unfolding lawful_up_to lawful
interests_table = refl

pub record Lawful (e : ℕ) : Type 0 where
  pub reading : has (enable_reading e) epollin ≡ true
  pub writing : has (enable_writing e) epollout ≡ true
  pub silent : has (disable_writing e) epollout ≡ false
  pub still_reading : has (enable_writing e) epollin ≡ has e epollin
  pub reading_kept : has (disable_writing e) epollin ≡ has e epollin
  pub writing_kept : has (enable_reading e) epollout ≡ has e epollout
  pub writing_interest : IsInterest (enable_writing e)
  pub silent_interest : IsInterest (disable_writing e)
  pub reading_interest : IsInterest (enable_reading e)

lawful→Lawful : (e : ℕ) → lawful e ≡ true → Lawful e
unfolding lawful
lawful→Lawful e h = ground arith

-- Enabling and disabling set and clear their own bit, keep the other, and stay in the three bits.
pub masks_lem : (e : ℕ) → IsInterest e → Lawful e
masks_lem e h = lawful→Lawful e (lawful_at 7 e interests_table (omega arith))
