-- ===== src/Controller/Pool/Steps/Ends.antt =====
-- About how a round of the manager can be finished, and when it cannot.
use alustan.Base.{ℕ, zero, suc, ◌<◌, ◌≤◌, ◌≡◌, inl, inr, arith, ltb, ◌&&◌, Bool-cases}
use alustan.Controller.Pool.Steps.{
  spawned, spawn, panicked, sleeping, Reach, selects, go_on, arrive, deliver, enough, count,
  stopping, Move, leading, starting, sending, Manager, Crew, ended, Moves, here, then_move,
}
use alustan.Controller.Pool.Steps.Counted.{IsCounted, Move-IsCounted, Reach-IsCounted}

-- Between the start of a round and its end.
abbrev pub InRound : Manager → Type 0
InRound selects = ⊥
InRound ended = ⊥
InRound panicked = ⊥
InRound _ = Unit {0}

-- Not the arrival of a key.
abbrev pub IsInternal : {m m' : Crew} {p q : Manager} → Move m p m' q → Type 0
IsInternal (arrive _) = ⊥
IsInternal _ = Unit {0}

-- No key arrives in these steps.
abbrev pub AreInternal :
    {m : Crew} {p : Manager} {m' : Crew} {q : Manager} → Moves m p m' q → Type 0
AreInternal here = Unit {0}
AreInternal (then_move ms mv) = AreInternal ms × IsInternal mv

-- The leader can come to its sleep without a further key, and still leads.
abbrev pub Ends : Crew → Manager → Type 0
Ends m p = (m' : Crew) × (ms : Moves m p m' sleeping) × AreInternal ms × (m'.elector ≡ leading)

Moves-prepend :
    {m m' : Crew} {p q : Manager} (mv : Move m p m' q)
    → IsInternal mv
    → {m'' : Crew} {r : Manager} (ms : Moves m' q m'' r) → AreInternal ms
    → (all : Moves m p m'' r) × AreInternal all
Moves-prepend mv i here is = (then_move here mv, (tt, i))
Moves-prepend mv i (then_move ms last) (is, j) =
    let (all, internal) = Moves-prepend mv i ms is in (then_move all last, (internal, j))

Ends-prepend :
    {m m' : Crew} {p q : Manager} (mv : Move m p m' q) → IsInternal mv → Ends m' q → Ends m p
Ends-prepend mv i (m'', ms, is, e) =
    let (all, internal) = Moves-prepend mv i ms is in (m'', all, internal, e)

starting-Ends : (k : ℕ) (m : Crew) → m.elector ≡ leading → Ends m (starting k)
starting-Ends zero m e = (m, then_move here spawned, (tt, tt), e)
starting-Ends (suc k) m e = Ends-prepend spawn tt (starting-Ends k _ e)

module _ (i desired : ℕ) where
  -- The rest of the round can be finished once the message has passed.
  abbrev Continues : Type 0
  Continues =
      (m : Crew)
      → IsCounted m (stopping i desired)
      → m.elector ≡ leading
      → m.busy ≤ m.queued
      → Ends m (stopping i desired)

  deliver-Ends :
      (m : Crew)
      → IsCounted m (sending (suc i) desired)
      → m.elector ≡ leading
      → m.busy ≤ m.queued
      → 0 < m.selecting
      → Continues
      → Ends m (sending (suc i) desired)
  deliver-Ends m v e keys some rest =
      Ends-prepend (deliver (ground arith) some) tt
        (rest _ (Move-IsCounted (deliver (ground arith) some) v) e keys)

  -- Two workers run at least; one that is not at its `select` is busy.
  busy-sending :
      (m : Crew)
      → IsCounted m (sending (suc i) desired)
      → m.elector ≡ leading
      → m.selecting ≡ 0
      → 0 < m.busy
  busy-sending m v e none = omega (arith, v.counted, v.live, v.fits, v.stay e)

  -- A worker is at its `select`, or comes there with its key.
  sending-Ends :
      (m : Crew)
      → IsCounted m (sending (suc i) desired)
      → m.elector ≡ leading
      → m.busy ≤ m.queued
      → Continues
      → Ends m (sending (suc i) desired)
  sending-Ends m v e keys rest = elim (Bool-cases (ltb 0 m.selecting)) [
    | inl some ↦ deliver-Ends m v e keys (ground arith) rest
    | inr none_yet ↦
        let some_busy : 0 < m.busy = busy-sending m v e (ground arith) in
        let key : 0 < m.queued = omega arith in
        Ends-prepend (go_on some_busy key) tt (
          deliver-Ends _ (Move-IsCounted (go_on some_busy key) v) e (omega arith) (omega arith)
            rest)
  ]

stopping-Ends :
    (i desired : ℕ) (m : Crew)
    → IsCounted m (stopping i desired)
    → m.elector ≡ leading
    → m.busy ≤ m.queued
    → Ends m (stopping i desired)
stopping-Ends zero desired m v e keys = (m, then_move here (enough (ground arith)), (tt, tt), e)
stopping-Ends (suc i) desired m v e keys =
    elim (Bool-cases (ltb desired (suc i) && ltb 1 (suc i))) [
      | inr off ↦ (m, then_move here (enough off), (tt, tt), e)
      | inl on ↦
          Ends-prepend (count on) tt (
            sending-Ends i desired _ (Move-IsCounted (count on) v) e keys (stopping-Ends i desired))
    ]

-- While the controller leads, and every worker in processNextWorkItem has a key or finds one in the
-- queue, no round is stuck: from every state of a round that the goroutines can reach there are steps
-- to the manager's sleep, under the same leadership and without a further key.
pub Reach-Ends :
    {per_worker : ℕ} {m : Crew} {p : Manager}
    → Reach per_worker m p
    → m.elector ≡ leading
    → m.busy ≤ m.queued
    → InRound p
    → Ends m p
Reach-Ends {m} {p} r e keys in_round = from_phase p (Reach-IsCounted r) in_round
  where
    from_phase : (p : Manager) → IsCounted m p → InRound p → Ends m p
    from_phase (starting k) v _ = starting-Ends k m e
    from_phase (stopping i desired) v _ = stopping-Ends i desired m v e keys
    from_phase (sending zero desired) v _ = absurd (omega (arith, v.fits))
    from_phase (sending (suc i) desired) v _ =
        sending-Ends i desired m v e keys (stopping-Ends i desired)
    from_phase sleeping v _ = (m, here, tt, e)
    from_phase selects v out = absurd out
    from_phase ended v out = absurd out
    from_phase panicked v out = absurd out
