-- ===== src/Client/Reconnect.antt =====
-- The loop of reconnections, `runReconnectLoop` of cmd/mygrok/main.go. Times are nanoseconds;
-- the random part of a delay is an argument, and so is the end of each session.
pub mod Delays
use mygrok.Base.{
  ℕ, ◌+◌, ◌*◌, ◌^◌, Bool, true, false, List, [], ◌∷◌, Bytes, codes, ltb, if◌then◌else◌, contains,
}

abbrev pub second : ℕ
second = 10 ^ 9

-- A session: how long it ran, the text of its error, and the two results of `jitter`.
pub record Session : Type 0 where
  pub ran : ℕ
  pub error : Bytes
  pub jitter_short : ℕ
  pub jitter_long : ℕ

unfoldable pub is_subdomain_in_use : Bytes → Bool
is_subdomain_in_use e = contains e (codes "subdomain in use")

-- The attempt that counts for the delay.
unfoldable pub counted : ℕ → Session → ℕ
counted attempt s = if ltb (60 * second) s.ran then 1 else attempt

unfoldable pub backoff : ℕ → Session → ℕ
backoff attempt s =
    let heavy = attempt * (2 * second) + s.jitter_long in
    if is_subdomain_in_use s.error
    then second + s.jitter_short
    else if ltb (30 * second) heavy
    then 30 * second
    else heavy

-- The delays after the sessions, one for each; `attempt` starts at 1.
unfoldable pub delays : ℕ → List Session → List ℕ
delays attempt [] = []
delays attempt (s ∷ sessions) = let n = counted attempt s in backoff n s ∷ delays (n + 1) sessions
