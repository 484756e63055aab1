-- ===== src/Client/Reconnect/Delays.antt =====
-- How long the loop of cmd/mygrok/main.go waits between sessions.
use mygrok.Base.{ℕ, ◌+◌, ◌*◌, ◌^◌, ◌≤◌, ◌<◌, List, [], ◌∷◌, All, length, arith}
use mygrok.Client.Reconnect.{second, Session, counted, backoff, delays}

-- `jitter` is below its argument: half a second, and a second.
pub record IsRandom (s : Session) : Type 0 where
  pub short : s.jitter_short < 500 * 10 ^ 6
  pub long : s.jitter_long < second

-- A delay from one second to thirty.
pub record IsDelay (d : ℕ) : Type 0 where
  pub least : second ≤ d
  pub most : d ≤ 30 * second

backoff-IsDelay : (n : ℕ) (s : Session) → 1 ≤ n → IsRandom s → IsDelay (backoff n s)
unfolding backoff
backoff-IsDelay n s pos r = record {
  least = ground (arith, r.short, r.long, pos);
  most = ground (arith, r.short, r.long, pos);
}

counted_bound : (n : ℕ) (s : Session) → 1 ≤ n → (1 ≤ counted n s) × (counted n s ≤ n)
unfolding counted
counted_bound n s pos = (ground arith, ground arith)

-- The attempts that the delays are computed from.
abbrev pub attempts : ℕ → List Session → List ℕ
attempts n [] = []
attempts n (s ∷ sessions) = counted n s ∷ attempts (counted n s + 1) sessions

-- The sum in the delay of an attempt is below 2 ^ 63, so that Go's Duration does not wrap around.
abbrev pub Fits : ℕ → Type 0
Fits n = n * (2 * second) + second < 2 ^ 63

delays_from :
    (n : ℕ) (sessions : List Session)
    → 1 ≤ n
    → n + length sessions ≤ 2 ^ 32
    → All IsRandom sessions
    → All IsDelay (delays n sessions) × All Fits (attempts n sessions)
unfolding delays
delays_from n [] pos few random = (tt, tt)
delays_from n (s ∷ sessions) pos few (r, random) =
    let (least, most) = counted_bound n s pos in
    let (ds, fs) =
      delays_from (counted n s + 1) sessions (omega arith) (omega (arith, few, most)) random in
    ((backoff-IsDelay (counted n s) s least r, ds), (omega (arith, few, most), fs))

-- The client waits between one second and thirty after every session, however long the sessions
-- run and however they end, and for fewer than 2 ^ 32 sessions no delay overflows.
pub delays_bounded :
    (sessions : List Session)
    → length sessions < 2 ^ 32
    → All IsRandom sessions
    → All IsDelay (delays 1 sessions) × All Fits (attempts 1 sessions)
delays_bounded sessions few random =
    delays_from 1 sessions (omega arith) (omega (arith, few)) random
