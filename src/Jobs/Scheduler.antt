-- ===== src/Jobs/Scheduler.antt =====
-- The rounds of the scheduler against the ticks of its ticker.
use streaming_bot.Prelude.{
  ℕ, zero, suc, ◌+◌, ◌≤◌, List, [], ◌∷◌, ◌++◌, some, Bool, true, false, not, ◌&&◌, Bool-cases, inl,
  inr, any, ◌≡◌, ◌∙◌, ap, refl, arith, ◌||◌, if◌then◌else◌,
}
use streaming_bot.World.{World, Io}
use streaming_bot.Jobs.{
  Signal, fired, cancelled, took_tick, took_done, Loop, waiting, receive, receive_all, start,
}

-- How often the ticker fires.
unfoldable pub ticks : List Signal → ℕ
ticks [] = 0
ticks (fired ∷ signals) = suc (ticks signals)
ticks (_ ∷ signals) = ticks signals

abbrev pub is_cancel : Signal → Bool
is_cancel cancelled = true
is_cancel _ = false

-- The world after so many rounds of a job, whatever each of them returns.
unfoldable pub after : ℕ → Io Unit → World → World
after zero job w = w
after (suc n) job w = after n job (job w).1

abbrev held : Loop → ℕ
held l = if l.tick_waits then 1 else 0

module _ (job : Io Unit) where
  rounds :
      (signals : List Signal) (l : Loop) (w : World)
      → (n : ℕ) × (n ≤ ticks signals + held l)
        × ((receive_all (some job) signals l w).1 ≡ after n job w)
  unfolding receive receive_all ticks after
  rounds [] l w = (0, omega arith, refl)
  rounds (fired ∷ signals) l w =
      let (n, few, same) = rounds signals (record l { tick_waits = true }) w in
      (n, ground arith, same)
  rounds (cancelled ∷ signals) l w =
      let (n, few, same) = rounds signals (record l { is_cancelled = true }) w in (n, few, same)
  rounds (took_tick ∷ signals) l w = elim (Bool-cases (l.tick_waits && not l.has_returned)) [
    | inl e ↦
        let (n, few, same) = rounds signals (record l { tick_waits = false }) (job w).1 in
        (suc n, ground arith, rw (e, receive_all) same)
    | inr e ↦ let (n, few, same) = rounds signals l w in (n, few, rw (e, receive_all) same)
  ]
  rounds (took_done ∷ signals) l w = elim (Bool-cases l.is_cancelled) [
    | inl e ↦
        let (n, few, same) =
          rounds signals (record l { is_cancelled = true; has_returned = true }) w in
        (n, few, rw (e, receive_all) same)
    | inr e ↦
        let (n, few, same) = rounds signals (record l { is_cancelled = false }) w in
        (n, few, rw (e, receive_all) same)
  ]

  has_returned_lem :
      (signals : List Signal) (l : Loop) (w : World)
      → l.has_returned ≡ true
      → (receive_all (some job) signals l w).1 ≡ w
  unfolding receive receive_all
  has_returned_lem [] l w h = refl
  has_returned_lem (fired ∷ signals) l w h = has_returned_lem signals _ w h
  has_returned_lem (cancelled ∷ signals) l w h = has_returned_lem signals _ w h
  has_returned_lem (took_tick ∷ signals) l w h = ground (arith, has_returned_lem signals l w)
  has_returned_lem (took_done ∷ signals) l w h = ground (
    arith,
    has_returned_lem signals l w,
    has_returned_lem signals (record l { has_returned = true }) w,
  )

  returned-is_cancelled :
      (signals : List Signal) (l : Loop) (w : World)
      → (receive_all (some job) signals l w).0.has_returned ≡ true
      → (l.has_returned || (l.is_cancelled || any is_cancel signals)) ≡ true
  unfolding receive receive_all any
  returned-is_cancelled [] l w h = ground arith
  returned-is_cancelled (fired ∷ signals) l w h =
      ground (arith, returned-is_cancelled signals (record l { tick_waits = true }) w)
  returned-is_cancelled (cancelled ∷ signals) l w h = ground arith
  returned-is_cancelled (took_tick ∷ signals) l w h = ground (
    arith,
    returned-is_cancelled signals l w,
    returned-is_cancelled signals (record l { tick_waits = false }) (job w).1,
  )
  returned-is_cancelled (took_done ∷ signals) l w h = ground (
    arith,
    returned-is_cancelled signals l w,
    returned-is_cancelled signals (record l { has_returned = true }) w,
  )

  receive_all-append :
      (ss ts : List Signal) (l : Loop) (w : World)
      → receive_all (some job) (ss ++ ts) l w
        ≡ (let (l', w') = receive_all (some job) ss l w in receive_all (some job) ts l' w')
  unfolding receive_all
  receive_all-append [] ts l w = refl
  receive_all-append (s ∷ ss) ts l w = receive_all-append ss ts _ _

-- A scheduler that has returned was cancelled before. Whatever comes afterwards, no further round
-- is run: the world is the one after a number of whole rounds, one after the other and whatever
-- each of them returned, at most one for each time that the ticker fired before the return.
pub start_returned :
    (job : Io Unit) (ss ts : List Signal) (w : World)
    → (start (some job) ss w).0.has_returned ≡ true
    → (any is_cancel ss ≡ true)
      × ((n : ℕ) × (n ≤ ticks ss) × ((start (some job) (ss ++ ts) w).1 ≡ after n job w))
unfolding start
start_returned job ss ts w h =
    let (n, few, same) = rounds job ss waiting w in
    let (l, v) = receive_all (some job) ss waiting w in
    (
      returned-is_cancelled job ss waiting w h,
      (
        n,
        omega (arith, few),
        ap (λ p. p.1) (receive_all-append job ss ts waiting w)
            ∙ (has_returned_lem job ts l v h ∙ same),
      ),
    )
