-- ===== src/RawSocket/Reader.antt =====
-- `RawSocket::_startRead`, the thread that reads, and the handlers that it posts to the event loop.
-- Both hold the mutex of the socket while they work, so that each step is one piece of code that runs
-- with the mutex held; `wait` gives the mutex up only where its predicate is false.
use zn_tunnel.Prelude.{
  ℕ, suc, ◌+◌, ◌≡◌, refl, Bool, true, false, not, arith, ℤ, pos, leb_ℤ, if◌then◌else◌,
}

-- Where the thread stands: in front of its loop's test, in `read` with the mutex, in `wait`, or behind
-- the loop.
pub data Phase : Type 0 where
  looping in_read waiting ended : Phase

-- `_reading`, what the last read stored, and how many handlers are posted that have not run.
pub record Reader : Type 0 where
  pub phase : Phase
  pub reading : Bool
  pub readable_len : ℤ
  pub posted : ℕ

-- `_readableLen > 0`.
abbrev pub can_consume : ℤ → Bool
can_consume readable_len = leb_ℤ (pos 1) readable_len

unfoldable pub thread_starts : Reader
thread_starts = record { phase = looping; reading = true; readable_len = pos 0; posted = 0 }

-- The thread's loop up to `wait`, with what `read` returns, and whether `stop` ran meanwhile.
unfoldable pub after_read : Reader → ℤ → Reader
after_read r len =
    if r.reading
    then record r { phase = waiting; readable_len = len; posted = r.posted + 1 }
    else record r { phase = ended; readable_len = len }

-- What a handler does to the length: `consume`.
unfoldable pub after_consume : ℤ → ℤ
after_consume readable_len = if can_consume readable_len then pos 0 else readable_len

-- Whether a handler can have the mutex: `wait` gives it up only where its predicate is false.
unfoldable pub mutex_free : Phase → ℤ → Bool
mutex_free looping readable_len = true
mutex_free in_read readable_len = false
mutex_free waiting readable_len = not (can_consume readable_len)
mutex_free ended readable_len = true

pub data Step : Reader → Reader → Type 0 where
  enters :
      (r : Reader) → r.phase ≡ looping → r.reading ≡ true → Step r (record r { phase = in_read })
  leaves :
      (r : Reader) → r.phase ≡ looping → r.reading ≡ false → Step r (record r { phase = ended })
  reads : (r : Reader) (len : ℤ) → r.phase ≡ in_read → Step r (after_read r len)
  wakes :
      (r : Reader)
      → r.phase ≡ waiting
      → can_consume r.readable_len ≡ true
      → Step r (record r { phase = looping })
  consumes :
      (r : Reader) (others : ℕ)
      → r.posted ≡ suc others
      → mutex_free r.phase r.readable_len ≡ true
      → Step r (record r { readable_len = after_consume r.readable_len; posted = others })
  stops : (r : Reader) → Step r (record r { reading = false })

pub data Steps : Reader → Reader → Type 0 where
  here : (r : Reader) → Steps r r
  then_step : (r s t : Reader) → Steps r s → Step s t → Steps r t

-- In `wait`, with nothing to consume.
pub record IsStuck (r : Reader) : Type 0 where
  pub waits : r.phase ≡ waiting
  pub nothing : can_consume r.readable_len ≡ false

Step-IsStuck : (r s : Reader) → Step r s → IsStuck r → IsStuck s
unfolding after_consume
Step-IsStuck r s (enters r' at on) stuck = absurd (ground (arith, at, stuck.waits))
Step-IsStuck r s (leaves r' at off) stuck = absurd (ground (arith, at, stuck.waits))
Step-IsStuck r s (reads r' len at) stuck = absurd (ground (arith, at, stuck.waits))
Step-IsStuck r s (wakes r' at full) stuck = absurd (ground (arith, full, stuck.nothing))
Step-IsStuck r s (consumes r' others some_posted free) stuck = record {
  waits = stuck.waits;
  nothing = rw stuck.nothing stuck.nothing;
}
Step-IsStuck r s (stops r') stuck = record { waits = stuck.waits; nothing = stuck.nothing }

stays-IsStuck : (r s : Reader) → Steps r s → IsStuck r → IsStuck s
stays-IsStuck r s (here r') stuck = stuck
stays-IsStuck r s (then_step r' m s' before step) stuck =
    Step-IsStuck m s step (stays-IsStuck r m before stuck)

-- A read stores nothing, because of an error or a time-out, and `stop` had not run when it returned:
-- the thread waits from then on, and neither reads again nor ends, whatever the handlers and a later
-- `stop` do.
pub Steps-IsStuck :
    (r s : Reader) (len : ℤ)
    → r.phase ≡ in_read
    → r.reading ≡ true
    → can_consume len ≡ false
    → Steps (after_read r len) s
    → IsStuck s
unfolding after_read
Steps-IsStuck r s len at on nothing steps =
    stays-IsStuck (after_read r len) s steps (rw on (record { waits = refl; nothing = nothing }))
