-- ===== src/Threads/Pool/Turns.antt =====
-- Turns of one thread in a row, for a pool of two.
use streaming_bot.Prelude.{ℕ, zero, suc, List, [], ◌∷◌, ◌++◌, ◌≡◌, refl}
use streaming_bot.World.{World}
use streaming_bot.App.IssueAccess.{Handler}
use streaming_bot.Threads.{Prog, ended, call, run}
use streaming_bot.Threads.Pool.{Pool, Move, turn, resume, turn_of, make, play}

-- The thread after this many calls.
abbrev pub resumes : ℕ → Prog (Unit {0}) → World → Prog (Unit {0}) × World
resumes zero p w = (p, w)
resumes (suc n) p w = let (p', w') = resume p w in resumes n p' w'

-- How many calls the thread makes, alone in the world `w`.
abbrev pub calls : Prog (Unit {0}) → World → ℕ
calls (ended r) w = zero
calls (call m k) w = let (r, w') = m w in suc (calls (k r) w')

-- With so many turns in a row it has come to its end.
pub resumes-calls :
    (p : Prog (Unit {0})) (w : World) → resumes (calls p w) p w ≡ (ended (run p w).0, (run p w).1)
unfolding run resume
resumes-calls (ended r) w = refl
resumes-calls (call m k) w = resumes-calls (k (m w).0) (m w).1

abbrev pub turns : ℕ → ℕ → List Move
turns i zero = []
turns i (suc n) = turn i ∷ turns i n

abbrev pub pair_of : World → Prog (Unit {0}) → Prog (Unit {0}) → Pool
pair_of w p q = record { world = w; threads = p ∷ q ∷ [] }

module _ (h : Handler) where
  pub play-append : (ms ns : List Move) (s : Pool) → play h (ms ++ ns) s ≡ play h ns (play h ms s)
  unfolding play
  play-append [] ns s = refl
  play-append (m ∷ ms) ns s = play-append ms ns (make h m s)

  pub play-first :
      (n : ℕ) (p q : Prog (Unit {0})) (w : World)
      → play h (turns 0 n) (pair_of w p q) ≡ pair_of (resumes n p w).1 (resumes n p w).0 q
  unfolding play make turn_of
  play-first zero p q w = refl
  play-first (suc n) p q w = play-first n (resume p w).0 q (resume p w).1

  pub play-second :
      (n : ℕ) (p q : Prog (Unit {0})) (w : World)
      → play h (turns 1 n) (pair_of w p q) ≡ pair_of (resumes n q w).1 p (resumes n q w).0
  unfolding play make turn_of
  play-second zero p q w = refl
  play-second (suc n) p q w = play-second n p (resume q w).0 (resume q w).1
